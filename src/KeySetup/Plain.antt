-- ===== src/KeySetup/Plain.antt =====
-- Concrete arguments for the tests of plugin/src/core/KeySetup.cpp: a cipher that adds nothing, with constant
-- tags, and a payload that is the length of the first text in unary, a 0 and both texts.
use notepadpp_sync.Prelude.{
  ℕ, zero, suc, ◌≡◌, ◌≢◌, ◌<◌, refl, arith, Option, none, some, [], ◌∷◌, ◌++◌, replicate, length,
  take, drop, Bytes, subst, All-append, ◌==◌, if◌then◌else◌, take-append, drop-append,
}
use notepadpp_sync.KeySetup.Payload.{AreAscii}
use notepadpp_sync.Crypto.RoundTrip.{AreBytes}

abbrev pub plain_derive : Bytes → Bytes → Bytes
plain_derive code salt = code ++ salt

abbrev pub plain_seal : Bytes → Bytes → Bytes → Bytes → Option (Bytes × Bytes)
plain_seal key nonce plain aad = some (plain, replicate 16 7)

abbrev pub plain_open : Bytes → Bytes → Bytes → Bytes → Bytes → Option Bytes
plain_open key nonce ct aad tag = some ct

abbrev pub sevens : Bytes
sevens = replicate 16 7

pub plain_opens :
    (key nonce plain aad ct tag : Bytes)
    → plain_seal key nonce plain aad ≡ some (ct, tag)
    → (length tag ≡ 16) × (plain_open key nonce ct aad tag ≡ some plain)
plain_opens key nonce plain aad ct tag e = ground arith

pub replicate-AreBytes : (n b : ℕ) → b < 256 → AreBytes (replicate n b)
replicate-AreBytes zero b h = tt
replicate-AreBytes (suc n) b h = (h, replicate-AreBytes n b h)

pub plain_bytes :
    (key nonce plain aad ct tag : Bytes)
    → AreBytes plain
    → plain_seal key nonce plain aad ≡ some (ct, tag)
    → AreBytes ct × AreBytes tag
plain_bytes key nonce plain aad ct tag h e =
    let p : plain ≡ ct = ground arith in
    let q : sevens ≡ tag = ground arith in
    (subst AreBytes p h, subst AreBytes q (replicate-AreBytes 16 7 (omega arith)))

abbrev pub plain_dump : Bytes → Bytes → Bytes
plain_dump s w = replicate (length s) 1 ++ 0 ∷ (s ++ w)

read_length : Bytes → Option (ℕ × Bytes)
read_length [] = none
read_length (c ∷ s) =
    let rest = read_length s in
    if c == 0 then some (0, s) else elim rest [ none ↦ none | some (n, r) ↦ some (suc n, r) ]

pub plain_parse : Bytes → Option (Bytes × Bytes)
unfolding read_length
plain_parse blob = elim (read_length blob) [ none ↦ none | some (n, r) ↦ some (take n r, drop n r) ]

read_length-replicate : (n : ℕ) (r : Bytes) → read_length (replicate n 1 ++ 0 ∷ r) ≡ some (n, r)
unfolding read_length
read_length-replicate zero r = refl
read_length-replicate (suc n) r = ground (arith, read_length-replicate n r)

plain_dump-ne : (s w : Bytes) → plain_dump s w ≢ []
plain_dump-ne [] w q = cc
plain_dump-ne (c ∷ s) w q = cc

AreAscii-AreBytes : (s : Bytes) → AreAscii s → AreBytes s
AreAscii-AreBytes [] h = tt
AreAscii-AreBytes (c ∷ s) (h, hs) = (omega arith, AreAscii-AreBytes s hs)

pub plain_reads :
    (s w : Bytes)
    → AreAscii s
    → AreAscii w
    → (plain_dump s w ≢ [])
      × AreBytes (plain_dump s w)
      × (plain_parse (plain_dump s w) ≡ some (s, w))
unfolding plain_parse
plain_reads s w hs hw = (
  plain_dump-ne s w,
  All-append (λ b. b < 256) (replicate (length s) 1) (0 ∷ (s ++ w))
      (replicate-AreBytes (length s) 1 (omega arith))
      (
        omega arith,
        All-append (λ b. b < 256) s w (AreAscii-AreBytes s hs) (AreAscii-AreBytes w hw),
      ),
  rw (
    plain_parse,
    read_length-replicate (length s) (s ++ w),
    take-append s w (length s) refl,
    drop-append s w (length s) refl,
  ),
)
