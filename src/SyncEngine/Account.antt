-- ===== src/SyncEngine/Account.antt =====
-- plugin/src/SyncEngine.cpp: sign-in with a password or with Google, and sign-out. The file into which
-- the settings are written behind a sign-in, and the status line are left out; the engine is initialised.
use notepadpp_sync.Prelude.{
  Bool, ◌&&◌, ◌||◌, not, Option, none, some, [], ◌==◌, if◌then◌else◌, Bytes, codes, str_eq,
}
use notepadpp_sync.Secrets.{Secrets, save_secret, delete_secret}
use notepadpp_sync.SyncEngine.Keys.{Response, unreachable_text}

-- The settings and the secrets of an account.
pub record Account : Type 0 where
  pub device_id : Bytes
  pub account_id : Bytes
  pub device_name : Bytes
  pub secrets : Secrets

-- `GoogleSignInStatus`
pub data GoogleSignInStatus : Type 0 where
  sign_in_pending sign_in_success sign_in_failed : GoogleSignInStatus

-- What `startGoogleSignIn` hands on.
pub record GoogleSignIn : Type 0 where
  pub authorization_url : Bytes
  pub state : Bytes
  pub poll_secret : Bytes

abbrev pub incompatible_text : Bytes
incompatible_text =
    codes "This server speaks an incompatible protocol version. Update the plugin or the server."

-- `r.serverProtocol != 0 && r.serverProtocol != 1`
unfoldable pub is_incompatible : Response → Bool
is_incompatible r = not (r.server_protocol == 0) && not (r.server_protocol == 1)

module _ (saves : Bytes → Bool) where
  -- The account with what was read of a status of 200.
  unfoldable pub with_tokens : Bytes → Bytes → Bytes → Bytes → Account → Account
  with_tokens device_id account_id access refresh a = record a {
    device_id = device_id;
    account_id = account_id;
    secrets =
        (save_secret saves (codes "refresh_token") refresh
          (save_secret saves (codes "access_token") access a.secrets).1).1;
  }

  -- The account of a status of 200; `none` where a `value` throws.
  unfoldable pub signed_in : Response → Account → Option Account
  signed_in r a = elim (r.text (codes "device_id") []) [
    | none ↦ none
    | some device_id ↦ elim (r.text (codes "account_id") []) [
      | none ↦ none
      | some account_id ↦ elim (r.text (codes "access_token") []) [
        | none ↦ none
        | some access ↦ elim (r.text (codes "refresh_token") []) [
          | none ↦ none
          | some refresh ↦ some (with_tokens device_id account_id access refresh a)
        ]
      ]
    ]
  ]

  -- `acceptTokenResponse`: the error, `none` for success, and the account behind it. The whole is `none` where it throws.
  unfoldable pub accept_token_response :
      Response → Bytes → Account → Option (Option Bytes × Account)
  accept_token_response r fail_label a =
      let refused : Option (Option Bytes × Account) = elim (r.text (codes "message") fail_label) [
        | none ↦ none
        | some message ↦ some (some message, a)
      ] in
      let accepted : Option (Option Bytes × Account) = elim (signed_in r a) [
        | none ↦ none
        | some b ↦ some (none, b)
      ] in
      if not r.transport_ok
      then some (some (unreachable_text r), a)
      else if is_incompatible r
      then some (some incompatible_text, a)
      else if not (r.status == 200)
      then refused
      else accepted

  -- `signIn`: the calls of the server take the e-mail address, the password and the name of the device.
  unfoldable pub sign_in :
      (Bytes → Bytes → Bytes → Response)
      → (Bytes → Bytes → Bytes → Response)
      → Bytes
      → Bytes
      → Bool
      → Account
      → Option (Option Bytes × Account)
  sign_in register login email password create_account a =
      if create_account
      then accept_token_response (register email password a.device_name)
          (codes "Registration failed") a
      else accept_token_response (login email password a.device_name) (codes "Sign-in failed") a

  -- The end of `pollGoogleSignIn`.
  unfoldable pub polled : Option Bytes × Account → GoogleSignInStatus × Bytes × Account
  polled (none, after) = (sign_in_success, [], after)
  polled (some message, after) = (sign_in_failed, message, after)

  -- `pollGoogleSignIn`: the status, the error and the account behind it; `none` where it throws.
  unfoldable pub poll_google_sign_in :
      Response → Account → Option (GoogleSignInStatus × Bytes × Account)
  poll_google_sign_in r a =
      let answered : Option (GoogleSignInStatus × Bytes × Account) =
        elim (accept_token_response r (codes "Google sign-in failed") a) [
          | none ↦ none
          | some x ↦ some (polled x)
        ] in
      if not r.transport_ok
      then some (sign_in_pending, unreachable_text r, a)
      else if r.status == 202
      then some (sign_in_pending, [], a)
      else answered

-- `errorOut` of a status other than 200.
unfoldable pub google_refused : Response → Bytes → Option (Option GoogleSignIn × Bytes)
google_refused r label = elim (r.text (codes "message") label) [
  | none ↦ none
  | some message ↦ some (none, message)
]

-- What was read of a status of 200.
unfoldable pub google_offered : Bytes → Bytes → Bytes → Option GoogleSignIn × Bytes
google_offered url state secret =
    if str_eq url [] || (str_eq state [] || str_eq secret [])
    then (none, codes "Server returned an incomplete Google sign-in response.")
    else (some (record { authorization_url = url; state = state; poll_secret = secret }), [])

-- `startGoogleSignIn`: what is handed on, or the error; `none` where it throws.
unfoldable pub start_google_sign_in : Response → Option (Option GoogleSignIn × Bytes)
start_google_sign_in r =
    let offered : Option (Option GoogleSignIn × Bytes) =
      elim (r.text (codes "authorization_url") []) [
        | none ↦ none
        | some url ↦ elim (r.text (codes "state") []) [
          | none ↦ none
          | some state ↦ elim (r.text (codes "poll_secret") []) [
            | none ↦ none
            | some secret ↦ some (google_offered url state secret)
          ]
        ]
      ] in
    if not r.transport_ok
    then some (none, unreachable_text r)
    else if is_incompatible r
    then some (none, incompatible_text)
    else if r.status == 503
    then google_refused r (codes "Google sign-in is not configured on this server.")
    else if not (r.status == 200)
    then google_refused r (codes "Could not start Google sign-in")
    else offered

-- `signOut`: the tokens on the disk.
unfoldable pub sign_out : (Bytes → Bool) → Account → Account
sign_out deletes a = record a {
  secrets =
      (delete_secret deletes (codes "refresh_token")
        (delete_secret deletes (codes "access_token") a.secrets).1).1;
}
