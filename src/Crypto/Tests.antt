-- ===== src/Crypto/Tests.antt =====
-- plugin/src/core/Crypto.cpp on concrete bytes. The cipher of these tests opens everything.
use notepadpp_sync.Prelude.{
  ◌≡◌, ◌↔◌, refl, arith, Option, some, [], ◌∷◌, replicate, length, Bytes, codes, get_or,
}
use notepadpp_sync.Crypto.Base64.{base64_url_encode, base64_url_decode}
use notepadpp_sync.Crypto.RoundTrip.{base64_url_decode-base64_url_encode}
use notepadpp_sync.Crypto.Envelope.{envelope, decrypt}
use notepadpp_sync.Crypto.Opening.{decrypt_iff}
use notepadpp_sync.Crypto.Recovery.{
  grouped, generate_recovery_key, normalize_recovery_key, regroup, squeeze, strip_prefix,
  starts_with, to_upper,
}

abbrev plain_open : Bytes → Bytes → Bytes → Bytes → Bytes → Option Bytes
plain_open key nonce ct aad tag = some ct

abbrev master : Bytes
master = replicate 32 9

base64_url_decode-base64_url_encode_example :
    base64_url_decode (base64_url_encode (255 ∷ 0 ∷ 16 ∷ 3 ∷ [])) ≡ some (255 ∷ 0 ∷ 16 ∷ 3 ∷ [])
base64_url_decode-base64_url_encode_example =
    base64_url_decode-base64_url_encode (255 ∷ 0 ∷ 16 ∷ 3 ∷ [])
      (omega arith, (omega arith, (omega arith, (omega arith, tt))))

decrypt_iff_example : (decrypt plain_open master (codes "NPS1") [] ≡ some []) ↔ (
    (nonce : Bytes) × (tag : Bytes) × (ct : Bytes) × (codes "NPS1" ≡ envelope nonce tag ct)
    × (length nonce ≡ 12)
    × (length tag ≡ 16)
    × (plain_open master nonce ct [] tag ≡ some []))
decrypt_iff_example = decrypt_iff plain_open master (codes "NPS1") [] []

abbrev typed_key : Bytes
typed_key = codes "npsync abcd efgh jkmn pqrs tuvw"

abbrev normal_key : Bytes
normal_key = codes "NPSYNC-ABCD-EFGH-JKMN-PQRS-TUVW"

typed_key_test : normalize_recovery_key typed_key ≡ some normal_key
unfolding normalize_recovery_key squeeze strip_prefix starts_with to_upper regroup grouped
typed_key_test = refl

-- A byte 31 modulo 32 puts a 0 into the key.
short_alphabet_test : get_or (generate_recovery_key (replicate 20 31)) 7 99 ≡ 0
unfolding generate_recovery_key grouped
short_alphabet_test = refl
