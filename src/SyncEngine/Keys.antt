-- ===== src/SyncEngine/Keys.antt =====
-- plugin/src/SyncEngine.cpp: the master key of a device, its recovery key and the two sides of a pairing.
-- PBKDF2, AES-GCM, random bytes, the JSON library and the server are arguments.
use notepadpp_sync.Prelude.{
  Bool, false, ◌||◌, not, Option, none, some, List, [], ◌∷◌, ◌++◌, ◌==◌, if◌then◌else◌, ℕ, length,
  Bytes, codes, str_eq,
}
use notepadpp_sync.Crypto.Base64.{base64_url_encode, base64_url_decode}
use notepadpp_sync.Crypto.Envelope.{wrap_master_key, unwrap_master_key}
use notepadpp_sync.Crypto.Recovery.{starts_with, generate_recovery_key, normalize_recovery_key}
use notepadpp_sync.KeySetup.{
  normalize_pairing_code, WizardKeyOutcome, kept_existing, refused_to_mint, created_new,
  apply_wizard_key_step, wrap_master_key_for_pairing, install_wrapped_master_key,
}
use notepadpp_sync.Secrets.{Secrets, save_secret, load_secret, delete_secret}

-- `ApiResponse`; `text` is `body.value`: a string of the body or the default, or `none` where it throws, on a body that is
-- null or no object, or a member that is no text.
pub record Response : Type 0 where
  pub transport_ok : Bool
  pub transport_error : Bytes
  pub status : ℕ
  pub server_protocol : ℕ
  pub text : Bytes → Bytes → Option Bytes

-- What the engine is given: PBKDF2, the two directions of AES-GCM, the JSON objects with "salt" and
-- "wrapped", and for which names a secret can be saved and deleted.
pub record Keyring : Type 0 where
  pub derive_key_from_code : Bytes → Bytes → Bytes
  pub seal : Bytes → Bytes → Bytes → Bytes → Option (Bytes × Bytes)
  pub gcm_open : Bytes → Bytes → Bytes → Bytes → Bytes → Option Bytes
  pub dump : Bytes → Bytes → Bytes
  pub parse : Bytes → Option (Bytes × Bytes)
  pub saves : Bytes → Bool
  pub deletes : Bytes → Bool

-- `masterKey_` and the secrets.
pub record Device : Type 0 where
  pub master_key : Bytes
  pub secrets : Secrets

-- The random bytes of a new key: the key, 20 for the recovery key, a salt and a nonce.
pub record Fresh : Type 0 where
  pub new_key : Bytes
  pub recovery_bytes : Bytes
  pub salt : Bytes
  pub nonce : Bytes

-- `PairingStatus`
pub data PairingStatus : Type 0 where
  pending installed failed : PairingStatus

-- `hasMasterKey`
unfoldable pub has_master_key : Device → Bool
has_master_key d = length d.master_key == 32

abbrev pub unreachable_text : Response → Bytes
unreachable_text r = codes "Cannot reach server: " ++ r.transport_error

-- `errorOut.find(...) != npos`
unfoldable pub finds : Bytes → Bytes → Bool
unfolding starts_with
finds p [] = starts_with p []
finds p (c ∷ s) = starts_with p (c ∷ s) || finds p s

module _ (k : Keyring) where
  -- `writeLocalRecoveryWrap`; `none` where it throws.
  unfoldable pub write_local_recovery_wrap : Fresh → Device → Option (Bool × Device)
  write_local_recovery_wrap fresh d =
      let recovery = generate_recovery_key fresh.recovery_bytes in
      elim (wrap_master_key k.seal fresh.nonce d.master_key
        (k.derive_key_from_code recovery fresh.salt)) [
          | none ↦ none
          | some wrapped ↦
              let (ok, secrets) =
                save_secret k.saves (codes "recovery_wrapped")
                  (k.dump (base64_url_encode fresh.salt) (base64_url_encode wrapped)) d.secrets in
              let (shown, both) =
                save_secret k.saves (codes "recovery_key_display") recovery secrets in
              if ok
              then some (shown, record d { secrets = both })
              else some (false, record d { secrets = secrets })
        ]

  -- From the saving of a new key on.
  unfoldable pub keep_new_key : Fresh → Device → Option (WizardKeyOutcome × Device)
  keep_new_key fresh d =
      let (ok, secrets) =
        save_secret k.saves (codes "master_key") (base64_url_encode d.master_key) d.secrets in
      let kept : Option (WizardKeyOutcome × Device) =
        elim (write_local_recovery_wrap fresh (record d { secrets = secrets })) [
          | none ↦ none
          | some (_, d') ↦ some (created_new, d')
        ] in
      if ok then kept else some (refused_to_mint, record d { master_key = [] })

  unfoldable pub first_run_outcome :
      Fresh → Device → WizardKeyOutcome → Bytes → Option (WizardKeyOutcome × Device)
  first_run_outcome fresh d kept_existing key = some (kept_existing, d)
  first_run_outcome fresh d refused_to_mint key = some (refused_to_mint, d)
  first_run_outcome fresh d created_new key = keep_new_key fresh (record d { master_key = key })

  -- `finishFirstRunKeys`, whose steps have the names of `WizardKeyOutcome`.
  unfoldable pub finish_first_run_keys : Fresh → Bool → Device → Option (WizardKeyOutcome × Device)
  finish_first_run_keys fresh create_if_missing d =
      let (outcome, key) = apply_wizard_key_step fresh.new_key d.master_key create_if_missing in
      first_run_outcome fresh d outcome key

  -- The key that a recovery key in normal form opens.
  unfoldable pub recover_fields : Bytes → Bytes → Bytes → Option Bytes
  recover_fields normalized salt_text wrapped_text = elim (base64_url_decode salt_text) [
    | none ↦ none
    | some salt ↦ elim (base64_url_decode wrapped_text) [
      | none ↦ none
      | some wrapped ↦ unwrap_master_key k.gcm_open wrapped (k.derive_key_from_code normalized salt)
    ]
  ]

  unfoldable pub recovered_key : Bytes → Secrets → Option Bytes
  recovered_key recovery_key secrets = elim (normalize_recovery_key recovery_key) [
    | none ↦ none
    | some normalized ↦ elim (load_secret (codes "recovery_wrapped") secrets) [
      | none ↦ none
      | some blob ↦ elim (k.parse blob) [
        | none ↦ none
        | some (salt_text, wrapped_text) ↦ recover_fields normalized salt_text wrapped_text
      ]
    ]
  ]

  -- `unlockWithRecoveryKey`: what it returns, and the device behind it.
  unfoldable pub unlock_with_recovery_key : Bytes → Device → Bool × Device
  unlock_with_recovery_key recovery_key d = elim (recovered_key recovery_key d.secrets) [
    | none ↦ (false, d)
    | some mk ↦
        let (ok, secrets) =
          save_secret k.saves (codes "master_key") (base64_url_encode mk) d.secrets in
        (ok, record { master_key = mk; secrets = secrets })
  ]

  -- The error for a message of the server that refuses.
  unfoldable pub refusal_text : Bytes → Bytes
  refusal_text message =
      if finds (codes "own pairing") message
      then codes
          "This computer showed that code, so it cannot allow itself. Two Notepad++ windows on this Windows user are one device. On the computer that already has your notes, choose Allow another computer and type the code shown here."
      else message

  -- What follows the answer of `pairApprove`: the error, `none` for success. The whole is `none` where it throws.
  unfoldable pub approve_answered : Response → Option (Option Bytes)
  approve_answered r =
      let refused : Option (Option Bytes) =
        elim (r.text (codes "message") (codes "approval failed")) [
          | none ↦ none
          | some message ↦ some (some (refusal_text message))
        ] in
      if not r.transport_ok
      then some (some (unreachable_text r))
      else if r.status == 200
      then some none
      else refused

  -- `approvePairing`, for a server that answers a code and a blob: the error, and what was sent. The whole is
  -- `none` where the code throws.
  unfoldable pub approve_pairing :
      Bytes
      → Bytes
      → (Bytes → Bytes → Response)
      → Bytes
      → Device
      → Option (Option Bytes × List (Bytes × Bytes))
  approve_pairing salt nonce server code d =
      let approve : Option (Option Bytes × List (Bytes × Bytes)) =
        elim (normalize_pairing_code code) [
          | none ↦
              some
                (some (codes "That code does not look right. It is 8 letters, like ABCD-EFGH."), [])
          | some normalized ↦
              elim (wrap_master_key_for_pairing k.derive_key_from_code k.seal k.dump salt nonce
                d.master_key normalized) [
                  | none ↦ none
                  | some wrapped ↦
                      if str_eq wrapped []
                      then some (
                        some (codes "Could not prepare the encryption key for the other computer."),
                        [],
                      )
                      else elim (approve_answered (server normalized wrapped)) [
                        | none ↦ none
                        | some err ↦ some (err, (normalized, wrapped) ∷ [])
                      ]
                ]
        ] in
      if has_master_key d
      then approve
      else some (some (codes "This computer does not have the encryption key yet."), [])

  -- The key has been opened: it is saved, and the recovery key of an earlier key is dropped, where it can be.
  unfoldable pub install_key : Bytes → Device → PairingStatus × Bytes × Device
  install_key mk d =
      let (ok, secrets) =
        save_secret k.saves (codes "master_key") (base64_url_encode mk) d.secrets in
      if ok
      then (
        installed,
        [],
        record {
          master_key = mk;
          secrets =
              (delete_secret k.deletes (codes "recovery_key_display")
                (delete_secret k.deletes (codes "recovery_wrapped") secrets).1).1;
        },
      )
      else (
        failed,
        codes "The key arrived but could not be saved on this computer.",
        record d { master_key = [] },
      )

  -- The blob of an approved pairing is opened.
  unfoldable pub open_blob : Bytes → Bytes → Device → PairingStatus × Bytes × Device
  open_blob normalized blob d =
      elim (install_wrapped_master_key k.derive_key_from_code k.gcm_open k.parse blob normalized) [
        | none ↦ (failed, codes "The other computer sent a key this computer could not open.", d)
        | some mk ↦ install_key mk d
      ]

  -- The text of "status": only "approved" goes on.
  unfoldable pub poll_status :
      Bytes → Response → Bytes → Device → Option (PairingStatus × Bytes × Device)
  poll_status normalized r status_text d =
      let opened : Option (PairingStatus × Bytes × Device) =
        elim (r.text (codes "wrapped_master_key") []) [
          | none ↦ none
          | some blob ↦ some (open_blob normalized blob d)
        ] in
      if str_eq status_text (codes "approved") then opened else some (pending, [], d)

  -- What follows the answer of `pairPoll`; `none` where it throws.
  unfoldable pub poll_answered : Bytes → Response → Device → Option (PairingStatus × Bytes × Device)
  poll_answered normalized r d =
      let refused : Option (PairingStatus × Bytes × Device) =
        elim (r.text (codes "message") (codes "Could not check the other computer.")) [
          | none ↦ none
          | some message ↦ some (failed, message, d)
        ] in
      let answered : Option (PairingStatus × Bytes × Device) = elim (r.text (codes "status") []) [
        | none ↦ none
        | some status_text ↦ poll_status normalized r status_text d
      ] in
      if not r.transport_ok
      then some (pending, unreachable_text r, d)
      else if r.status == 410
      then some (failed, codes "That code expired. Choose Get my notes again.", d)
      else if not (r.status == 200)
      then refused
      else answered

  -- `completePairing`: the status, the error and the device behind it.
  unfoldable pub complete_pairing :
      (Bytes → Response) → Bytes → Device → Option (PairingStatus × Bytes × Device)
  complete_pairing server code d = elim (normalize_pairing_code code) [
    | none ↦
        some (failed, codes "That code does not look right. It is 8 letters, like ABCD-EFGH.", d)
    | some normalized ↦ poll_answered normalized (server normalized) d
  ]

-- `pairNewDevice`: the code, or the error; `none` where it throws.
unfoldable pub pair_new_device : Response → Option (Option Bytes × Bytes)
pair_new_device r =
    let refused : Option (Option Bytes × Bytes) =
      elim (r.text (codes "message") (codes "Could not start. Try again.")) [
        | none ↦ none
        | some message ↦ some (none, message)
      ] in
    let shown : Option (Option Bytes × Bytes) = elim (r.text (codes "pairing_code") []) [
      | none ↦ none
      | some code ↦
          if str_eq code []
          then some (none, codes "Could not start. Try again.")
          else some (some code, [])
    ] in
    if not r.transport_ok
    then some (none, unreachable_text r)
    else if not (r.status == 200)
    then refused
    else shown
