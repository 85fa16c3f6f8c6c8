-- ===== src/SyncEngine/KeyTests.antt =====
-- plugin/src/SyncEngine.cpp: a pairing of two devices, and a key that is lost and recovered.
use notepadpp_sync.Prelude.{
  ◌≡◌, refl, true, none, some, [], ◌∷◌, arith, if◌then◌else◌, replicate, Bytes, codes, str_eq, cmp,
  contains,
}
use notepadpp_sync.Crypto.Base64.{symbol, base64_url_encode}
use notepadpp_sync.Crypto.Envelope.{envelope, encrypt, wrap_master_key}
use notepadpp_sync.Crypto.Recovery.{
  generate_recovery_key, normalize_recovery_key-generate_recovery_key,
}
use notepadpp_sync.KeySetup.{
  normalize_pairing_code, collect, hyphenate, upper_letter, pairing_alphabet,
  wrap_master_key_for_pairing, created_new, apply_wizard_key_step,
}
use notepadpp_sync.KeySetup.Plain.{
  plain_derive, plain_seal, plain_open, plain_opens, replicate-AreBytes, plain_bytes, plain_dump,
  plain_parse, plain_reads, sevens,
}
use notepadpp_sync.LocalDb.{upsert}
use notepadpp_sync.Secrets.{load_secret, save_secret}
use notepadpp_sync.SyncEngine.Keys.{
  PairingStatus, Response, Keyring, Device, Fresh, has_master_key, approve_answered,
  approve_pairing, complete_pairing, write_local_recovery_wrap, keep_new_key, first_run_outcome,
  finish_first_run_keys, unlock_with_recovery_key,
}
use notepadpp_sync.SyncEngine.Pairing.{HasKey, complete_pairing-approve_pairing}
use notepadpp_sync.SyncEngine.Recovery.{unlock_with_recovery_key-finish_first_run_keys}

abbrev plain_keyring : Keyring
plain_keyring = record {
  derive_key_from_code = plain_derive;
  seal = plain_seal;
  gcm_open = plain_open;
  dump = plain_dump;
  parse = plain_parse;
  saves = λ n. true;
  deletes = λ n. true;
}

abbrev owner : Device
owner = record { master_key = replicate 32 9; secrets = [] }

abbrev newcomer : Device
newcomer = record { master_key = []; secrets = [] }

abbrev code : Bytes
code = codes "ABCD-EFGH"

abbrev pairing_blob : Bytes
pairing_blob = base64_url_encode (
    plain_dump (base64_url_encode (replicate 16 5))
      (base64_url_encode (envelope (replicate 12 0) sevens (replicate 32 9))))

abbrev accepts : Bytes → Bytes → Response
accepts n w = record {
  transport_ok = true;
  transport_error = [];
  status = 200;
  server_protocol = 1;
  text = λ name d. some d;
}

abbrev approved : Bytes → Response
approved n = record {
  transport_ok = true;
  transport_error = [];
  status = 200;
  server_protocol = 1;
  text = λ name d. some (if str_eq name (codes "status") then codes "approved" else pairing_blob);
}

code_test : normalize_pairing_code code ≡ some code
unfolding normalize_pairing_code collect hyphenate upper_letter pairing_alphabet contains
code_test = refl

approve_test :
    approve_pairing plain_keyring (replicate 16 5) (replicate 12 0) accepts code owner
    ≡ some (none, (code, pairing_blob) ∷ [])
unfolding approve_pairing has_master_key approve_answered wrap_master_key_for_pairing
    wrap_master_key encrypt normalize_pairing_code collect hyphenate upper_letter pairing_alphabet
    contains base64_url_encode symbol str_eq cmp
approve_test = refl

complete_pairing-approve_pairing_example :
    (r : PairingStatus × Bytes × Device) × (complete_pairing plain_keyring approved code newcomer
      ≡ some r)
    × HasKey (replicate 32 9) r
unfolding str_eq cmp
complete_pairing-approve_pairing_example =
    complete_pairing-approve_pairing plain_keyring plain_opens plain_bytes plain_reads
      (replicate 16 5) (replicate 12 0) accepts code code code pairing_blob owner newcomer none
      approved (replicate-AreBytes 16 5 (omega arith)) (replicate-AreBytes 12 0 (omega arith))
      (replicate-AreBytes 32 9 (omega arith)) refl approve_test code_test refl refl refl refl refl
      refl refl

abbrev drawn : Fresh
drawn = record {
  new_key = replicate 32 9;
  recovery_bytes = replicate 20 3;
  salt = replicate 16 5;
  nonce = replicate 12 0;
}

abbrev keyed : Device
keyed = record {
  master_key = replicate 32 9;
  secrets =
      (codes "master_key", base64_url_encode (replicate 32 9))
      ∷ (
        codes "recovery_wrapped",
        plain_dump (base64_url_encode (replicate 16 5))
            (base64_url_encode (envelope (replicate 12 0) sevens (replicate 32 9))),
      )
      ∷ (codes "recovery_key_display", generate_recovery_key (replicate 20 3))
      ∷ [];
}

minted_test : finish_first_run_keys plain_keyring drawn true newcomer ≡ some (created_new, keyed)
unfolding finish_first_run_keys first_run_outcome keep_new_key write_local_recovery_wrap
    apply_wizard_key_step save_secret upsert wrap_master_key encrypt str_eq cmp
minted_test = refl

unlock_with_recovery_key-finish_first_run_keys_example :
    ((unlock_with_recovery_key plain_keyring
        (generate_recovery_key (replicate 20 3))
        (record keyed { master_key = [] })).0
      ≡ true)
    × ((unlock_with_recovery_key plain_keyring
          (generate_recovery_key (replicate 20 3))
          (record keyed { master_key = [] })).1.master_key
        ≡ replicate 32 9)
    × (load_secret (codes "recovery_key_display") keyed.secrets
        ≡ some (generate_recovery_key (replicate 20 3)))
unlock_with_recovery_key-finish_first_run_keys_example =
    unlock_with_recovery_key-finish_first_run_keys plain_keyring refl refl plain_opens plain_bytes
      (λ s w a b. (plain_reads s w a b).2) drawn newcomer keyed []
      (generate_recovery_key (replicate 20 3)) true (replicate-AreBytes 16 5 (omega arith))
      (replicate-AreBytes 12 0 (omega arith)) (replicate-AreBytes 32 9 (omega arith)) refl refl refl
      minted_test (normalize_recovery_key-generate_recovery_key (replicate 20 3) refl)
