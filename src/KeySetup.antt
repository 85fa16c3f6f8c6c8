-- ===== src/KeySetup.antt =====
-- plugin/src/core/KeySetup.h and KeySetup.cpp: pairing codes, the payload that carries a master key to
-- another device, and the key step of the wizard. PBKDF2, AES-GCM, the random bytes and the JSON library
-- are arguments.
pub mod Codes
pub mod Payload
pub mod Plain
mod Tests
use notepadpp_sync.Prelude.{
  ℕ, ◌+◌, ◌-◌, Bool, true, false, ◌&&◌, ◌||◌, not, Option, none, some, [], ◌∷◌, ◌++◌, ltb, leb,
  ◌==◌, if◌then◌else◌, length, take, drop, Bytes, contains,
}
use notepadpp_sync.Crypto.Base64.{base64_url_encode, base64_url_decode}
use notepadpp_sync.Crypto.Envelope.{wrap_master_key, unwrap_master_key}
use notepadpp_sync.Crypto.Recovery.{alphabet}

-- `pairingAlphabet`: the loop stops at the 0 behind the literal, so 0 is not found.
unfoldable pub pairing_alphabet : ℕ → Bool
pairing_alphabet c = contains c alphabet

-- `ch - 'a' + 'A'` for a small letter.
unfoldable pub upper_letter : ℕ → ℕ
upper_letter ch = if leb b'a' ch && leb ch b'z' then ch - b'a' + b'A' else ch

-- The loop of `normalizePairingCode`.
unfoldable pub collect : Bytes → Option Bytes
collect [] = some []
collect (ch ∷ s) =
    let rest = collect s in
    if ch == b' ' || ch == b'-' || ch == b'\t'
    then rest
    else if ltb 127 (upper_letter ch) || not (pairing_alphabet (upper_letter ch))
    then none
    else elim rest [ none ↦ none | some raw ↦ some (upper_letter ch ∷ raw) ]

unfoldable pub hyphenate : Bytes → Option Bytes
hyphenate raw = if length raw == 8 then some (take 4 raw ++ b'-' ∷ drop 4 raw) else none

-- `normalizePairingCode`: the output where it returns true.
unfoldable pub normalize_pairing_code : Bytes → Option Bytes
normalize_pairing_code s = elim (collect s) [ none ↦ none | some raw ↦ hyphenate raw ]

-- `WizardKeyOutcome`
pub data WizardKeyOutcome : Type 0 where
  kept_existing refused_to_mint created_new : WizardKeyOutcome

-- `applyWizardKeyStep`: the outcome and the master key behind it; `fresh` is what
-- `generateMasterKey` returns.
unfoldable pub apply_wizard_key_step : Bytes → Bytes → Bool → WizardKeyOutcome × Bytes
apply_wizard_key_step fresh master_key create_if_missing =
    if length master_key == 32
    then (kept_existing, master_key)
    else if not create_if_missing
    then (refused_to_mint, master_key)
    else (created_new, fresh)

module _ (derive_key_from_code : Bytes → Bytes → Bytes)
    (seal : Bytes → Bytes → Bytes → Bytes → Option (Bytes × Bytes))
    (dump : Bytes → Bytes → Bytes) where
  -- `wrapMasterKeyForPairing`: `dump` writes the object with the strings "salt" and "wrapped".
  -- `none` where the code throws, `some []` where it returns the empty string.
  unfoldable pub wrap_master_key_for_pairing : Bytes → Bytes → Bytes → Bytes → Option Bytes
  wrap_master_key_for_pairing salt nonce master_key code =
      if not (length master_key == 32) then some [] else elim (normalize_pairing_code code) [
        | none ↦ some []
        | some normalized ↦
            elim (wrap_master_key seal nonce master_key (derive_key_from_code normalized salt)) [
              | none ↦ none
              | some wrapped ↦
                  some
                    (base64_url_encode (dump (base64_url_encode salt) (base64_url_encode wrapped)))
            ]
      ]

module _ (derive_key_from_code : Bytes → Bytes → Bytes)
    (open' : Bytes → Bytes → Bytes → Bytes → Bytes → Option Bytes)
    (parse : Bytes → Option (Bytes × Bytes)) where
  -- From the parsed payload on.
  unfoldable pub install_fields : Bytes → Bytes → Bytes → Option Bytes
  install_fields normalized salt_text wrapped_text = elim (base64_url_decode salt_text) [
    | none ↦ none
    | some salt ↦ elim (base64_url_decode wrapped_text) [
      | none ↦ none
      | some wrapped ↦ unwrap_master_key open' wrapped (derive_key_from_code normalized salt)
    ]
  ]

  unfoldable pub install_blob : Bytes → Bytes → Option Bytes
  install_blob normalized [] = none
  install_blob normalized (c ∷ blob) = elim (parse (c ∷ blob)) [
    | none ↦ none
    | some (salt_text, wrapped_text) ↦ install_fields normalized salt_text wrapped_text
  ]

  -- `installWrappedMasterKey`: the key where it returns true. `parse` gives the strings "salt" and
  -- "wrapped", the empty one for a field that is missing.
  unfoldable pub install_wrapped_master_key : Bytes → Bytes → Option Bytes
  install_wrapped_master_key payload code = elim (normalize_pairing_code code) [
    | none ↦ none
    | some normalized ↦ elim (base64_url_decode payload) [
      | none ↦ none
      | some blob ↦ install_blob normalized blob
    ]
  ]
