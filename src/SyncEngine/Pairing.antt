-- ===== src/SyncEngine/Pairing.antt =====
-- plugin/src/SyncEngine.cpp: `approvePairing` on one device and `completePairing` on another.
use notepadpp_sync.Prelude.{
  ◌≡◌, ◌≢◌, refl, ap, ◌∙◌, true, false, Option, none, some, List, [], ◌∷◌, ◌==◌, arith, length,
  Bytes, codes, str_eq, str_eq_refl, cmp, subst, ==_iff,
}
use notepadpp_sync.Prelude.Results.{by_value, by_none, by_cond, by_option}
use notepadpp_sync.Crypto.Base64.{base64_url_encode}
use notepadpp_sync.Crypto.RoundTrip.{AreBytes}
use notepadpp_sync.KeySetup.{
  normalize_pairing_code, wrap_master_key_for_pairing, install_wrapped_master_key,
}
use notepadpp_sync.KeySetup.Codes.{
  normalize_pairing_code-IsPairingCode, IsPairingCode-normalize_pairing_code,
}
use notepadpp_sync.KeySetup.Payload.{
  AreAscii, install_wrapped_master_key-wrap_master_key_for_pairing,
}
use notepadpp_sync.Secrets.{Secrets, save_secret, load_secret, delete_secret}
use notepadpp_sync.Secrets.Laws.{
  save_secret_returns, load_secret_other, load_secret_deleted, load_secret_saved,
}
use notepadpp_sync.SyncEngine.Keys.{
  approve_answered, poll_status, open_blob, Response, Keyring, Device, PairingStatus, installed,
  has_master_key, approve_pairing, install_key, poll_answered, complete_pairing,
}

-- A result of `approvePairing` that sent a blob.
abbrev Sent :
    Keyring → Bytes → Bytes → Bytes → Device → Option Bytes × List (Bytes × Bytes) → Type 0
Sent k salt nonce code d r =
    (normalized blob : Bytes)
    → r.1 ≡ (normalized, blob) ∷ []
    → (normalize_pairing_code code ≡ some normalized)
      × (length d.master_key ≡ 32)
      × (wrap_master_key_for_pairing k.derive_key_from_code k.seal k.dump salt nonce d.master_key
            normalized
          ≡ some blob)

approve_pairing-Sent :
    (k : Keyring) (salt nonce : Bytes) (server : Bytes → Bytes → Response) (code : Bytes)
    (d : Device) (r : Option Bytes × List (Bytes × Bytes))
    → approve_pairing k salt nonce server code d ≡ some r
    → Sent k salt nonce code d r
unfolding approve_pairing has_master_key
approve_pairing-Sent k salt nonce server code d r =
    by_cond (Sent k salt nonce code d) r (length d.master_key == 32) _ _
      (λ size.
        by_option (Sent k salt nonce code d) r (normalize_pairing_code code) _ _
          (λ _. by_value (Sent k salt nonce code d) r _ (λ _ _ e. cc))
          (λ n normal.
            by_option (Sent k salt nonce code d) r
              (wrap_master_key_for_pairing k.derive_key_from_code k.seal k.dump salt nonce
                d.master_key n)
              none _ (λ _. by_none (Sent k salt nonce code d) r)
              (λ w wraps.
                by_cond (Sent k salt nonce code d) r (str_eq w []) _ _
                  (λ _. by_value (Sent k salt nonce code d) r _ (λ _ _ e. cc))
                  (λ _.
                    by_option (Sent k salt nonce code d) r (approve_answered k (server n w)) none _
                      (λ _. by_none (Sent k salt nonce code d) r)
                      (λ err _. by_value (Sent k salt nonce code d) r _ (λ n' w' e.
                        let p : n ≡ n' = cc in
                        let q : w ≡ w' = cc in
                        (
                          normal ∙ ap some p,
                          ground (arith, ==_iff (length d.master_key) 32),
                          subst
                              (λ m.
                                wrap_master_key_for_pairing k.derive_key_from_code k.seal k.dump
                                  salt nonce d.master_key m
                                ≡ some w')
                              p (wraps ∙ ap some q),
                        )))))))
      (λ _. by_value (Sent k salt nonce code d) r _ (λ _ _ e. cc))

-- The device has the key, on disk too, and no recovery key of an earlier one, nor one to be shown.
abbrev pub HasKey : Bytes → PairingStatus × Bytes × Device → Type 0
HasKey mk (s, _, d) =
    (s ≡ installed)
    × (d.master_key ≡ mk)
    × (load_secret (codes "master_key") d.secrets ≡ some (base64_url_encode mk))
    × (load_secret (codes "recovery_wrapped") d.secrets ≡ none)
    × (load_secret (codes "recovery_key_display") d.secrets ≡ none)

module _ (k : Keyring)
    (opens : (key nonce plain aad ct tag : Bytes)
      → k.seal key nonce plain aad ≡ some (ct, tag)
      → (length tag ≡ 16) × (k.gcm_open key nonce ct aad tag ≡ some plain))
    (bytes : (key nonce plain aad ct tag : Bytes)
      → AreBytes plain
      → k.seal key nonce plain aad ≡ some (ct, tag)
      → AreBytes ct × AreBytes tag)
    (reads : (s w : Bytes)
      → AreAscii s
      → AreAscii w
      → (k.dump s w ≢ []) × AreBytes (k.dump s w) × (k.parse (k.dump s w) ≡ some (s, w))) where
  names_differ :
      (str_eq (codes "master_key") (codes "recovery_key_display") ≡ false)
      × (str_eq (codes "master_key") (codes "recovery_wrapped") ≡ false)
      × (str_eq (codes "recovery_wrapped") (codes "recovery_key_display") ≡ false)
  unfolding str_eq cmp
  names_differ = (refl, refl, refl)

  install_key-HasKey :
      (mk : Bytes) (d : Device)
      → k.saves (codes "master_key") ≡ true
      → k.deletes (codes "recovery_wrapped") ≡ true
      → k.deletes (codes "recovery_key_display") ≡ true
      → HasKey mk (install_key k mk d)
  unfolding install_key
  install_key-HasKey mk d saves drops hides =
      let (a, b, c) = names_differ in
      let returned : (save_secret k.saves (codes "master_key") (base64_url_encode mk) d.secrets).0
          ≡ true =
        save_secret_returns k.saves (codes "master_key") (base64_url_encode mk) d.secrets ∙ saves in
      let saved : Secrets =
        (save_secret k.saves (codes "master_key") (base64_url_encode mk) d.secrets).1 in
      let dropped : Secrets = (delete_secret k.deletes (codes "recovery_wrapped") saved).1 in
      rw returned (
        refl,
        refl,
        load_secret_other k.deletes (codes "master_key") (codes "recovery_key_display") dropped
              hides a
            ∙ load_secret_other k.deletes (codes "master_key") (codes "recovery_wrapped") saved
                drops b
            ∙ load_secret_saved k.saves (codes "master_key") (base64_url_encode mk) d.secrets saves,
        load_secret_other k.deletes (codes "recovery_wrapped") (codes "recovery_key_display")
              dropped hides c
            ∙ load_secret_deleted k.deletes (codes "recovery_wrapped") saved drops,
        load_secret_deleted k.deletes (codes "recovery_key_display") dropped hides,
      )

  poll_answered-installs :
      (mk normalized blob : Bytes) (r : Response) (d : Device)
      → install_wrapped_master_key k.derive_key_from_code k.gcm_open k.parse blob normalized
        ≡ some mk
      → r.transport_ok ≡ true
      → r.status ≡ 200
      → r.text (codes "status") [] ≡ some (codes "approved")
      → r.text (codes "wrapped_master_key") [] ≡ some blob
      → poll_answered k normalized r d ≡ some (install_key k mk d)
  unfolding poll_answered poll_status open_blob
  poll_answered-installs mk normalized blob r d opened ok code approved carries =
      rw (ok, code, approved, str_eq_refl (codes "approved"), carries)
        (ap some (rw (open_blob, opened) refl))

  -- Where AES-GCM opens what it sealed, its tags have 16 bytes, it makes bytes of bytes, and JSON with
  -- two ASCII texts is bytes, not empty and read back: if `approvePairing` sent a code and a blob, then on another device,
  -- on which a code with that normal form is typed, the master key can be saved, the secrets of a recovery key can be
  -- deleted and the server answers the poll with that blob, `completePairing` returns, installs the first device's master key, saves
  -- it and drops an older recovery key, the wrapped one and the one to be shown.
  pub complete_pairing-approve_pairing :
      (salt nonce : Bytes) (server : Bytes → Bytes → Response) (code code' normalized blob : Bytes)
      (d d' : Device) (err : Option Bytes) (poll : Bytes → Response)
      → AreBytes salt
      → AreBytes nonce
      → AreBytes d.master_key
      → length nonce ≡ 12
      → approve_pairing k salt nonce server code d ≡ some (err, (normalized, blob) ∷ [])
      → normalize_pairing_code code' ≡ some normalized
      → k.saves (codes "master_key") ≡ true
      → k.deletes (codes "recovery_wrapped") ≡ true
      → k.deletes (codes "recovery_key_display") ≡ true
      → (poll normalized).transport_ok ≡ true
      → (poll normalized).status ≡ 200
      → (poll normalized).text (codes "status") [] ≡ some (codes "approved")
      → (poll normalized).text (codes "wrapped_master_key") [] ≡ some blob
      → (r : PairingStatus × Bytes × Device) × (complete_pairing k poll code' d' ≡ some r)
        × HasKey d.master_key r
  unfolding complete_pairing
  complete_pairing-approve_pairing salt nonce server code code' normalized blob d d' err poll hs hn
        hm n e same saves drops hides ok status approved carries =
      let (typed, size, wraps) =
        approve_pairing-Sent k salt nonce server code d (err, (normalized, blob) ∷ []) e normalized
          blob refl in
      let again : normalize_pairing_code normalized ≡ some normalized =
        IsPairingCode-normalize_pairing_code normalized
          (normalize_pairing_code-IsPairingCode code normalized typed) in
      let opened : install_wrapped_master_key k.derive_key_from_code k.gcm_open k.parse blob
            normalized
          ≡ some d.master_key =
        install_wrapped_master_key-wrap_master_key_for_pairing k.derive_key_from_code k.seal
          k.gcm_open k.dump k.parse opens bytes reads salt nonce d.master_key normalized normalized
          normalized blob hs hn hm n size again again wraps in
      (
        install_key k d.master_key d',
        rw (complete_pairing, same)
            (poll_answered-installs d.master_key normalized blob (poll normalized) d' opened ok
              status approved carries),
        install_key-HasKey d.master_key d' saves drops hides,
      )
