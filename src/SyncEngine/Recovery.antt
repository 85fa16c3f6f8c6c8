-- ===== src/SyncEngine/Recovery.antt =====
-- plugin/src/SyncEngine.cpp: the key of a first run is opened again with the recovery key that was shown.
use notepadpp_sync.Prelude.{
  ◌≡◌, refl, sym, ◌∙◌, Bool, true, false, not, none, some, ◌==◌, if◌then◌else◌, length, Bytes,
  codes, str_eq, cmp,
}
use notepadpp_sync.Prelude.Results.{by_value, by_none, by_cond, by_option}
use notepadpp_sync.Crypto.Base64.{base64_url_encode}
use notepadpp_sync.Crypto.RoundTrip.{AreBytes, base64_url_decode-base64_url_encode}
use notepadpp_sync.Crypto.Envelope.{wrap_master_key}
use notepadpp_sync.Crypto.Opening.{unwrap_master_key-wrap_master_key}
use notepadpp_sync.Crypto.Recovery.{generate_recovery_key, normalize_recovery_key}
use notepadpp_sync.KeySetup.{
  WizardKeyOutcome, kept_existing, created_new, refused_to_mint, apply_wizard_key_step,
}
use notepadpp_sync.KeySetup.Payload.{AreAscii, wrapped-AreBytes, base64_url_encode-AreAscii}
use notepadpp_sync.Secrets.{Secrets, save_secret, load_secret}
use notepadpp_sync.Secrets.Laws.{save_secret_returns, load_secret_saved, load_secret_unsaved}
use notepadpp_sync.SyncEngine.Keys.{
  Keyring, Device, Fresh, write_local_recovery_wrap, keep_new_key, first_run_outcome,
  finish_first_run_keys, recover_fields, recovered_key, unlock_with_recovery_key,
}

names_differ : (str_eq (codes "recovery_wrapped") (codes "recovery_key_display") ≡ false)
unfolding str_eq cmp
names_differ = refl

-- The recovery key is on the device, with the master key wrapped under it.
abbrev IsWrapped : Keyring → Fresh → Bytes → Secrets → Type 0
IsWrapped k fresh mk secrets =
    (wrapped : Bytes) × (wrap_master_key k.seal fresh.nonce mk
        (k.derive_key_from_code (generate_recovery_key fresh.recovery_bytes) fresh.salt)
      ≡ some wrapped)
    × (load_secret (codes "recovery_wrapped") secrets
        ≡ some (k.dump (base64_url_encode fresh.salt) (base64_url_encode wrapped)))
    × (load_secret (codes "recovery_key_display") secrets
        ≡ some (generate_recovery_key fresh.recovery_bytes))

module _ (k : Keyring) (wraps : k.saves (codes "recovery_wrapped") ≡ true)
    (shows : k.saves (codes "recovery_key_display") ≡ true) where
  abbrev Written : Fresh → Device → Bool × Device → Type 0
  Written fresh d r = IsWrapped k fresh d.master_key r.1.secrets × (r.1.master_key ≡ d.master_key)

  write_local_recovery_wrap-Written :
      (fresh : Fresh) (d : Device) (r : Bool × Device)
      → write_local_recovery_wrap k fresh d ≡ some r
      → Written fresh d r
  unfolding write_local_recovery_wrap
  write_local_recovery_wrap-Written fresh d r =
      by_option (Written fresh d) r
        (wrap_master_key k.seal fresh.nonce d.master_key
          (k.derive_key_from_code (generate_recovery_key fresh.recovery_bytes) fresh.salt))
        none _ (λ _. by_none (Written fresh d) r)
        (λ wrapped e.
          let blob : Bytes = k.dump (base64_url_encode fresh.salt) (base64_url_encode wrapped) in
          let recovery : Bytes = generate_recovery_key fresh.recovery_bytes in
          let first : Secrets = (save_secret k.saves (codes "recovery_wrapped") blob d.secrets).1 in
          by_cond (Written fresh d) r
            (save_secret k.saves (codes "recovery_wrapped") blob d.secrets).0 _ _
            (λ _. by_value (Written fresh d) r _ (
              (
                wrapped,
                e,
                load_secret_unsaved k.saves (codes "recovery_wrapped")
                      (codes "recovery_key_display") recovery first shows names_differ
                    ∙ load_secret_saved k.saves (codes "recovery_wrapped") blob d.secrets wraps,
                load_secret_saved k.saves (codes "recovery_key_display") recovery first shows,
              ),
              refl,
            ))
            (λ lost. absurd (
              true_not_false (
                sym wraps
                ∙ (sym (save_secret_returns k.saves (codes "recovery_wrapped") blob d.secrets)
                    ∙ lost)))))
    where
      true_not_false : true ≡ false → ⊥
      true_not_false e = cc

  abbrev Minted : Fresh → WizardKeyOutcome × Device → Type 0
  Minted fresh r =
      r.0 ≡ created_new
      → IsWrapped k fresh fresh.new_key r.1.secrets × (r.1.master_key ≡ fresh.new_key)

  keep_new_key-Minted :
      (fresh : Fresh) (secrets : Secrets) (r : WizardKeyOutcome × Device)
      → keep_new_key k fresh (record { master_key = fresh.new_key; secrets = secrets }) ≡ some r
      → Minted fresh r
  unfolding keep_new_key
  keep_new_key-Minted fresh secrets r =
      let saved : Bool × Secrets =
        save_secret k.saves (codes "master_key") (base64_url_encode fresh.new_key) secrets in
      let d : Device = record { master_key = fresh.new_key; secrets = saved.1 } in
      by_cond (Minted fresh) r saved.0 _ _
        (λ _.
          by_option (Minted fresh) r (write_local_recovery_wrap k fresh d) none _
            (λ _. by_none (Minted fresh) r)
            (λ w e.
              by_value (Minted fresh) r _ (λ _. write_local_recovery_wrap-Written fresh d w e)))
        (λ _. by_value (Minted fresh) r _ (λ e. cc))

  abbrev chosen : Fresh → Device → Bool → Bool → WizardKeyOutcome × Bytes
  chosen fresh d has create =
      if has
      then (kept_existing, d.master_key)
      else if not create
      then (refused_to_mint, d.master_key)
      else (created_new, fresh.new_key)

  outcome-Minted :
      (fresh : Fresh) (d : Device) (r : WizardKeyOutcome × Device) (has create : Bool)
      → (let (outcome, key) = chosen fresh d has create in first_run_outcome k fresh d outcome key)
        ≡ some r
      → Minted fresh r
  unfolding first_run_outcome
  outcome-Minted fresh d r true create = by_value (Minted fresh) r _ (λ e. cc)
  outcome-Minted fresh d r false false = by_value (Minted fresh) r _ (λ e. cc)
  outcome-Minted fresh d r false true = keep_new_key-Minted fresh d.secrets r

  finish_first_run_keys-Minted :
      (fresh : Fresh) (d : Device) (r : WizardKeyOutcome × Device) (create_if_missing : Bool)
      → finish_first_run_keys k fresh create_if_missing d ≡ some r
      → Minted fresh r
  unfolding finish_first_run_keys apply_wizard_key_step
  finish_first_run_keys-Minted fresh d r create e =
      outcome-Minted fresh d r (length d.master_key == 32) create e

  module _
      (opens : (key nonce plain aad ct tag : Bytes)
        → k.seal key nonce plain aad ≡ some (ct, tag)
        → (length tag ≡ 16) × (k.gcm_open key nonce ct aad tag ≡ some plain))
      (bytes : (key nonce plain aad ct tag : Bytes)
        → AreBytes plain
        → k.seal key nonce plain aad ≡ some (ct, tag)
        → AreBytes ct × AreBytes tag)
      (reads : (s w : Bytes) → AreAscii s → AreAscii w → k.parse (k.dump s w) ≡ some (s, w)) where
    recovers_fields :
        (salt nonce mk normalized wrapped : Bytes)
        → AreBytes salt
        → AreBytes nonce
        → AreBytes mk
        → length nonce ≡ 12
        → length mk ≡ 32
        → wrap_master_key k.seal nonce mk (k.derive_key_from_code normalized salt) ≡ some wrapped
        → recover_fields k normalized (base64_url_encode salt) (base64_url_encode wrapped) ≡ some mk
    unfolding recover_fields
    recovers_fields salt nonce mk normalized wrapped hs hn hm n m w =
        rw
          (
            recover_fields,
            base64_url_decode-base64_url_encode salt hs,
            base64_url_decode-base64_url_encode wrapped (
                wrapped-AreBytes k.seal bytes nonce mk (k.derive_key_from_code normalized salt)
                  wrapped hn hm w),
          )
          (unwrap_master_key-wrap_master_key k.seal k.gcm_open opens nonce mk
            (k.derive_key_from_code normalized salt) wrapped n m w)

    recovers :
        (fresh : Fresh) (mk typed : Bytes) (secrets : Secrets)
        → AreBytes fresh.salt
        → AreBytes fresh.nonce
        → AreBytes mk
        → length fresh.nonce ≡ 12
        → length mk ≡ 32
        → normalize_recovery_key typed ≡ some (generate_recovery_key fresh.recovery_bytes)
        → IsWrapped k fresh mk secrets
        → recovered_key k typed secrets ≡ some mk
    unfolding recovered_key
    recovers fresh mk typed secrets hs hn hm n m normal (wrapped, w, stored, _) =
        rw
          (
            recovered_key,
            normal,
            stored,
            reads (base64_url_encode fresh.salt) (base64_url_encode wrapped)
                (base64_url_encode-AreAscii fresh.salt) (base64_url_encode-AreAscii wrapped),
          )
          (recovers_fields fresh.salt fresh.nonce mk (generate_recovery_key fresh.recovery_bytes)
            wrapped hs hn hm n m w)

    -- Where AES-GCM opens what it sealed, its tags have 16 bytes, it makes bytes of bytes, JSON with two
    -- ASCII texts is read back and the secrets can be saved: if `finishFirstRunKeys` made a new key, then with its secrets, whatever key is
    -- in memory, `unlockWithRecoveryKey` installs that key again for every text whose normal form is the
    -- recovery key, and that recovery key is the one to be shown.
    pub unlock_with_recovery_key-finish_first_run_keys :
        (fresh : Fresh) (d d' : Device) (lost typed : Bytes) (create_if_missing : Bool)
        → AreBytes fresh.salt
        → AreBytes fresh.nonce
        → AreBytes fresh.new_key
        → length fresh.nonce ≡ 12
        → length fresh.new_key ≡ 32
        → k.saves (codes "master_key") ≡ true
        → finish_first_run_keys k fresh create_if_missing d ≡ some (created_new, d')
        → normalize_recovery_key typed ≡ some (generate_recovery_key fresh.recovery_bytes)
        → ((unlock_with_recovery_key k typed (record d' { master_key = lost })).0 ≡ true)
          × ((unlock_with_recovery_key k typed (record d' { master_key = lost })).1.master_key
              ≡ d'.master_key)
          × (load_secret (codes "recovery_key_display") d'.secrets
              ≡ some (generate_recovery_key fresh.recovery_bytes))
    unfolding unlock_with_recovery_key
    unlock_with_recovery_key-finish_first_run_keys fresh d d' lost typed create hs hn hm n m saves e
          normal =
        let (wrapped, same) =
          finish_first_run_keys-Minted fresh d (created_new, d') create e refl in
        let found : recovered_key k typed d'.secrets ≡ some fresh.new_key =
          recovers fresh fresh.new_key typed d'.secrets hs hn hm n m normal wrapped in
        let shown : load_secret (codes "recovery_key_display") d'.secrets
            ≡ some (generate_recovery_key fresh.recovery_bytes) =
          wrapped.3 in
        rw (unlock_with_recovery_key, found)
          (
            save_secret_returns k.saves (codes "master_key") (base64_url_encode fresh.new_key)
                  d'.secrets
                ∙ saves,
            sym same,
            shown,
          )
