-- ===== src/ApiClient/Requests/Endpoints.antt =====
-- plugin/src/ApiClient.cpp: the calls of the protocol, each with its method, path and body.
use notepadpp_sync.Prelude.{
  suc, ◌∷◌, ◌++◌, ◌==◌, Bool, true, false, none, some, List, [], if◌then◌else◌, Bytes, codes,
}
use notepadpp_sync.VersionVector.Json.{to_string}
use notepadpp_sync.Integers.{ℤ, pos, negsuc}
use notepadpp_sync.ApiClient.Requests.{
  Network, ApiResponse, Client, Ran, then_do, set_tokens, clear_tokens, token_pair, request,
}

-- `std::to_string` on a number that may be negative.
unfoldable pub integer_text : ℤ → Bytes
integer_text (pos n) = to_string n
integer_text (negsuc n) = b'-' ∷ to_string (suc n)

module _ {J : Type 0} (net : Network J) where
  abbrev pub Call : Type 0
  Call = Client → Ran (ApiResponse J)

  abbrev pub call_with : Bytes → Bytes → List (Bytes × J) → Bool → Call
  call_with method path fields authed =
      request net method path (some (net.lib.object fields)) authed

  abbrev pub call : Bytes → Bytes → Call
  call method path = request net method path none true

  -- The tokens of a response to a sign-in, where its status is 200.
  unfoldable pub take_tokens : ApiResponse J → Call
  take_tokens r c =
      if r.status == 200
      then elim (token_pair net r.body) [
        | none ↦ record { outcome = none; client = c }
        | some (access, refresh) ↦ record { outcome = some r; client = set_tokens access refresh c }
      ]
      else record { outcome = some r; client = c }

  unfoldable pub register_account : Bytes → Bytes → Bytes → Call
  register_account email password device_name c =
      then_do
        (call_with (codes "POST") (codes "/auth/register")
          ((codes "email", net.lib.text email)
            ∷ (codes "password", net.lib.text password)
            ∷ (codes "device_name", net.lib.text device_name)
            ∷ [])
          false c)
        take_tokens

  unfoldable pub login : Bytes → Bytes → Bytes → Call
  login email password device_name c =
      then_do
        (call_with (codes "POST") (codes "/auth/login")
          ((codes "email", net.lib.text email)
            ∷ (codes "password", net.lib.text password)
            ∷ (codes "device_name", net.lib.text device_name)
            ∷ [])
          false c)
        take_tokens

  unfoldable pub start_google_login : Bytes → Call
  start_google_login device_name =
      call_with (codes "POST") (codes "/auth/google/start")
        ((codes "device_name", net.lib.text device_name) ∷ []) false

  unfoldable pub poll_google_login : Bytes → Bytes → Call
  poll_google_login state poll_secret c =
      then_do
        (call_with (codes "POST") (codes "/auth/google/poll")
          ((codes "state", net.lib.text state)
            ∷ (codes "poll_secret", net.lib.text poll_secret)
            ∷ [])
          false c)
        take_tokens

  -- The tokens are gone whatever the server answers, but not where the call throws.
  unfoldable pub logged_out : ApiResponse J → Call
  logged_out r c = record { outcome = some r; client = clear_tokens c }

  unfoldable pub logout : Call
  logout c = then_do (call_with (codes "POST") (codes "/auth/logout") [] true c) logged_out

  unfoldable pub list_devices : Call
  list_devices = call (codes "GET") (codes "/devices")

  unfoldable pub revoke_device : Bytes → Call
  revoke_device device_id = call (codes "DELETE") (codes "/devices/" ++ device_id)

  unfoldable pub rename_device : Bytes → Bytes → Call
  rename_device device_id name =
      call_with (codes "PATCH") (codes "/devices/" ++ device_id)
        ((codes "name", net.lib.text name) ∷ []) true

  unfoldable pub pair_request : Call
  pair_request =
      call_with (codes "POST") (codes "/devices/pair")
        ((codes "action", net.lib.text (codes "request")) ∷ []) true

  unfoldable pub pair_approve : Bytes → Bytes → Call
  pair_approve code wrapped_key =
      call_with (codes "POST") (codes "/devices/pair")
        ((codes "action", net.lib.text (codes "approve"))
          ∷ (codes "pairing_code", net.lib.text code)
          ∷ (codes "wrapped_master_key", net.lib.text wrapped_key)
          ∷ [])
        true

  unfoldable pub pair_poll : Bytes → Call
  pair_poll code =
      call_with (codes "POST") (codes "/devices/pair")
        ((codes "action", net.lib.text (codes "poll"))
          ∷ (codes "pairing_code", net.lib.text code)
          ∷ [])
        true

  unfoldable pub list_files : Call
  list_files = call (codes "GET") (codes "/sync/files")

  unfoldable pub get_file : Bytes → Call
  get_file file_id = call (codes "GET") (codes "/sync/files/" ++ file_id)

  unfoldable pub create_file : J → Call
  create_file payload = request net (codes "POST") (codes "/sync/files") (some payload) true

  unfoldable pub update_file : Bytes → J → Call
  update_file file_id payload =
      request net (codes "PUT") (codes "/sync/files/" ++ file_id) (some payload) true

  unfoldable pub delete_file : Bytes → Call
  delete_file file_id = call (codes "DELETE") (codes "/sync/files/" ++ file_id)

  unfoldable pub list_versions : Bytes → Call
  list_versions file_id =
      call (codes "GET") (codes "/sync/files/" ++ (file_id ++ codes "/versions"))

  unfoldable pub restore_version : Bytes → ℤ → Call
  restore_version file_id version =
      call_with (codes "POST") (codes "/sync/files/" ++ (file_id ++ codes "/restore"))
        ((codes "version", net.lib.integer version) ∷ []) true

  unfoldable pub changes_since : ℤ → Call
  changes_since since = call (codes "GET") (codes "/sync/changes?since=" ++ integer_text since)

  unfoldable pub get_session : Call
  get_session = call (codes "GET") (codes "/session")

  unfoldable pub put_session : Bytes → ℤ → Call
  put_session state version =
      call_with (codes "PUT") (codes "/session")
        ((codes "encrypted_state", net.lib.text state)
          ∷ (codes "version", net.lib.integer version)
          ∷ [])
        true
