-- ===== src/KeySetup/Payload.antt =====
-- plugin/src/core/KeySetup.cpp: the payload of `wrapMasterKeyForPairing` is opened by
-- `installWrappedMasterKey` on the other device.
use notepadpp_sync.Prelude.{
  All, ℕ, zero, suc, ◌+◌, ◌*◌, ◌/◌, ◌%◌, ◌<◌, ltb, ◌&&◌, get_or, ◌≡◌, ◌≢◌, refl, sym, ap, ◌∙◌,
  subst, Bool, true, Option, some, [], ◌∷◌, ◌++◌, arith, length, Bytes, codes, All-append,
  Option-cases, inl, inr,
}
use notepadpp_sync.Crypto.Base64.{tbl, symbol, base64_url_encode}
use notepadpp_sync.Crypto.RoundTrip.{AreBytes, base64_url_decode-base64_url_encode}
use notepadpp_sync.Crypto.Envelope.{envelope, encrypt, wrap_master_key}
use notepadpp_sync.Crypto.Opening.{unwrap_master_key-wrap_master_key}
use notepadpp_sync.KeySetup.{
  normalize_pairing_code, wrap_master_key_for_pairing, install_fields, install_blob,
  install_wrapped_master_key,
}

abbrev pub Seal : Type 0
Seal = Bytes → Bytes → Bytes → Bytes → Option (Bytes × Bytes)

abbrev pub Open : Type 0
Open = Bytes → Bytes → Bytes → Bytes → Bytes → Option Bytes

-- The texts of which JSON holds every one.
abbrev pub AreAscii : Bytes → Type 0
AreAscii = All (λ c. c < 128)

all_ascii : Bytes → Bool
all_ascii [] = true
all_ascii (c ∷ s) = ltb c 128 && all_ascii s

get_or-below : (s : Bytes) (i : ℕ) → all_ascii s ≡ true → get_or s i 0 < 128
unfolding all_ascii
get_or-below [] i h = omega arith
get_or-below (c ∷ s) zero h = ground arith
get_or-below (c ∷ s) (suc i) h = get_or-below s i (ground arith)

symbol_below : (v p : ℕ) → symbol v p < 128
unfolding symbol all_ascii
symbol_below v p = get_or-below tbl (v / p % 64) refl

pub base64_url_encode-AreAscii : (s : Bytes) → AreAscii (base64_url_encode s)
unfolding base64_url_encode
base64_url_encode-AreAscii [] = tt
base64_url_encode-AreAscii (a ∷ []) =
    let n = a * 65536 in (symbol_below n 262144, (symbol_below n 4096, tt))
base64_url_encode-AreAscii (a ∷ b ∷ []) =
    let n = a * 65536 + b * 256 in
    (symbol_below n 262144, (symbol_below n 4096, (symbol_below n 64, tt)))
base64_url_encode-AreAscii (a ∷ b ∷ c ∷ rest) =
    let n = a * 65536 + b * 256 + c in
    (
      symbol_below n 262144,
      (
        symbol_below n 4096,
        (symbol_below n 64, (symbol_below n 1, base64_url_encode-AreAscii rest)),
      ),
    )

envelope-AreBytes :
    (nonce tag ct : Bytes)
    → AreBytes nonce
    → AreBytes tag
    → AreBytes ct
    → AreBytes (envelope nonce tag ct)
envelope-AreBytes nonce tag ct n t c = (
  omega arith,
  (
    omega arith,
    (
      omega arith,
      (
        omega arith,
        (
          omega arith,
          All-append (λ b. b < 256) nonce (tag ++ ct) n (All-append (λ b. b < 256) tag ct t c),
        ),
      ),
    ),
  ),
)

module _ (seal : Seal)
    (bytes : (key nonce plain aad ct tag : Bytes)
      → AreBytes plain
      → seal key nonce plain aad ≡ some (ct, tag)
      → AreBytes ct × AreBytes tag) where
  pub wrapped-AreBytes :
      (nonce master_key key wrapped : Bytes)
      → AreBytes nonce
      → AreBytes master_key
      → wrap_master_key seal nonce master_key key ≡ some wrapped
      → AreBytes wrapped
  unfolding wrap_master_key encrypt
  wrapped-AreBytes nonce mk key wrapped n k e =
      elim (Option-cases (seal key nonce mk (codes "npsync-keywrap"))) [
        | inl q ↦ ground arith
        | inr ((ct, tag), q) ↦
            let (c, t) = bytes key nonce mk (codes "npsync-keywrap") ct tag k q in
            let r : envelope nonce tag ct ≡ wrapped = ground arith in
            subst AreBytes r (envelope-AreBytes nonce tag ct n t c)
      ]

module _ (derive_key_from_code : Bytes → Bytes → Bytes) (seal : Seal) (open' : Open)
    (dump : Bytes → Bytes → Bytes) (parse : Bytes → Option (Bytes × Bytes))
    (opens : (key nonce plain aad ct tag : Bytes)
      → seal key nonce plain aad ≡ some (ct, tag)
      → (length tag ≡ 16) × (open' key nonce ct aad tag ≡ some plain))
    (bytes : (key nonce plain aad ct tag : Bytes)
      → AreBytes plain
      → seal key nonce plain aad ≡ some (ct, tag)
      → AreBytes ct × AreBytes tag)
    (reads : (s w : Bytes)
      → AreAscii s
      → AreAscii w
      → (dump s w ≢ []) × AreBytes (dump s w) × (parse (dump s w) ≡ some (s, w))) where
  installs_blob :
      (normalized blob s w : Bytes)
      → blob ≢ []
      → parse blob ≡ some (s, w)
      → install_blob derive_key_from_code open' parse normalized blob
        ≡ install_fields derive_key_from_code open' parse normalized s w
  unfolding install_blob
  installs_blob normalized [] s w ne e = absurd (ne refl)
  installs_blob normalized (c ∷ blob) s w ne e = rw (install_blob, e)

  module _ (salt nonce master_key normalized wrapped : Bytes) (hs : AreBytes salt)
      (hn : AreBytes nonce) (hm : AreBytes master_key) (n : length nonce ≡ 12)
      (m : length master_key ≡ 32)
      (w : wrap_master_key seal nonce master_key (derive_key_from_code normalized salt)
        ≡ some wrapped) where
    installs_fields :
        install_fields derive_key_from_code open' parse normalized
          (base64_url_encode salt)
          (base64_url_encode wrapped)
        ≡ some master_key
    unfolding install_fields
    installs_fields =
        rw
          (
            install_fields,
            base64_url_decode-base64_url_encode salt hs,
            base64_url_decode-base64_url_encode wrapped (
                wrapped-AreBytes seal bytes nonce master_key (derive_key_from_code normalized salt)
                  wrapped hn hm w),
          )
          (unwrap_master_key-wrap_master_key seal open' opens nonce master_key
            (derive_key_from_code normalized salt) wrapped n m w)

    installs_payload :
        (code : Bytes)
        → normalize_pairing_code code ≡ some normalized
        → install_wrapped_master_key derive_key_from_code open' parse
            (base64_url_encode (dump (base64_url_encode salt) (base64_url_encode wrapped)))
            code
          ≡ some master_key
    unfolding install_wrapped_master_key
    installs_payload code q =
        let (ne, b, p) =
          reads (base64_url_encode salt) (base64_url_encode wrapped)
            (base64_url_encode-AreAscii salt) (base64_url_encode-AreAscii wrapped) in
        rw
          (
            install_wrapped_master_key,
            q,
            base64_url_decode-base64_url_encode
                (dump (base64_url_encode salt) (base64_url_encode wrapped)) b,
            installs_blob normalized (dump (base64_url_encode salt) (base64_url_encode wrapped))
                (base64_url_encode salt) (base64_url_encode wrapped) ne p,
          )
          installs_fields

  -- Where AES-GCM opens what it sealed, its tags have 16 bytes, it makes bytes of bytes, and JSON with two ASCII
  -- texts is bytes, not empty and read back: a master key of 32 bytes that one device wraps under a code is installed by a device that types a code with the same
  -- normal form, whatever the salt and the nonce of 12 bytes.
  pub install_wrapped_master_key-wrap_master_key_for_pairing :
      (salt nonce master_key code code' normalized payload : Bytes)
      → AreBytes salt
      → AreBytes nonce
      → AreBytes master_key
      → length nonce ≡ 12
      → length master_key ≡ 32
      → normalize_pairing_code code ≡ some normalized
      → normalize_pairing_code code' ≡ some normalized
      → wrap_master_key_for_pairing derive_key_from_code seal dump salt nonce master_key code
        ≡ some payload
      → install_wrapped_master_key derive_key_from_code open' parse payload code' ≡ some master_key
  unfolding wrap_master_key_for_pairing
  install_wrapped_master_key-wrap_master_key_for_pairing salt nonce mk code code' normalized payload
        hs hn hm n m q q' e =
      elim (Option-cases (wrap_master_key seal nonce mk (derive_key_from_code normalized salt))) [
        | inl w ↦ ground arith
        | inr (wrapped, w) ↦
            let r : base64_url_encode (dump (base64_url_encode salt) (base64_url_encode wrapped))
                ≡ payload =
              ground arith in
            ap (λ x. install_wrapped_master_key derive_key_from_code open' parse x code') (sym r)
            ∙ installs_payload salt nonce mk normalized wrapped hs hn hm n m w code' q'
      ]
