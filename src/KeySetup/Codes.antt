-- ===== src/KeySetup/Codes.antt =====
-- plugin/src/core/KeySetup.cpp: `normalizePairingCode`.
use notepadpp_sync.Prelude.{
  ℕ, zero, suc, ◌≡◌, refl, sym, ap, ◌∙◌, subst, true, false, ◌||◌, not, Option, none, some, [], ◌∷◌,
  ◌++◌, arith, ltb, ◌==◌, length, take, drop, length-take, length-drop, length-append, append-nil,
  take-append, drop-append, Bytes, All, contains, Bool-cases, Option-cases, inl, inr,
}
use notepadpp_sync.KeySetup.{
  pairing_alphabet, upper_letter, collect, hyphenate, normalize_pairing_code,
}

-- Symbols of the pairing alphabet.
abbrev pub ArePairing : Bytes → Type 0
ArePairing = All (λ c. pairing_alphabet c ≡ true)

collected :
    (ch : ℕ) (s raw : Bytes) (o : Option Bytes)
    → pairing_alphabet (upper_letter ch) ≡ true
    → ((r : Bytes) → o ≡ some r → ArePairing r)
    → (elim o [ none ↦ none | some r ↦ some (upper_letter ch ∷ r) ]) ≡ some raw
    → ArePairing raw
collected ch s raw none p h e = cc
collected ch s raw (some r) p h e =
    let q : upper_letter ch ∷ r ≡ raw = ground arith in subst ArePairing q (p, h r refl)

collect-ArePairing : (s raw : Bytes) → collect s ≡ some raw → ArePairing raw
unfolding collect
collect-ArePairing [] raw e = let q : [] ≡ raw = ground arith in subst ArePairing q tt
collect-ArePairing (ch ∷ s) raw e = elim (Bool-cases (ch == b' ' || ch == b'-' || ch == b'\t')) [
  | inl skip ↦ collect-ArePairing s raw (ground arith)
  | inr kept ↦
      elim (Bool-cases (ltb 127 (upper_letter ch) || not (pairing_alphabet (upper_letter ch)))) [
        | inl bad ↦ ground arith
        | inr good ↦
            collected ch s raw (collect s) (ground arith) (λ r q. collect-ArePairing s r q)
              (ground arith)
      ]
]

-- A symbol of the alphabet is kept as it is.
pairing_plain :
    (c : ℕ)
    → pairing_alphabet c ≡ true
    → ((c == b' ' || c == b'-' || c == b'\t') ≡ false) × (upper_letter c ≡ c) × (ltb 127 c ≡ false)
unfolding pairing_alphabet upper_letter contains
pairing_plain c h = ground arith

collect_pairing :
    (s t : Bytes) {raw : Bytes}
    → ArePairing s
    → collect t ≡ some raw
    → collect (s ++ t) ≡ some (s ++ raw)
unfolding collect
collect_pairing [] t h e = e
collect_pairing (c ∷ s) t {raw} (p, h) e =
    let (a, b, d) = pairing_plain c p in
    rw (a, b, d, p, collect, collect_pairing s t h e) (ap (λ u. some (u ∷ (s ++ raw))) b)

ArePairing-split :
    (n : ℕ) (s : Bytes) → ArePairing s → ArePairing (take n s) × ArePairing (drop n s)
ArePairing-split zero s h = (tt, h)
ArePairing-split (suc n) [] h = (tt, tt)
ArePairing-split (suc n) (c ∷ s) (p, h) = let (a, b) = ArePairing-split n s h in ((p, a), b)

-- Two groups of four symbols with a hyphen between them.
abbrev pub IsPairingCode : Bytes → Type 0
IsPairingCode code =
    (a : Bytes) × (b : Bytes) × (code ≡ a ++ b'-' ∷ b)
    × (length a ≡ 4)
    × (length b ≡ 4)
    × ArePairing a
    × ArePairing b

hyphenated-IsPairingCode :
    (raw out : Bytes) → ArePairing raw → hyphenate raw ≡ some out → IsPairingCode out
unfolding hyphenate
hyphenated-IsPairingCode raw out h e =
    let (p, q) = ArePairing-split 4 raw h in
    let n : length raw ≡ 8 = ground arith in
    (
      take 4 raw,
      drop 4 raw,
      ground arith,
      omega (arith, length-take 4 raw, n),
      omega (arith, length-drop 4 raw, n),
      p,
      q,
    )

-- Whatever `normalizePairingCode` returns is two groups of four symbols of the alphabet with a hyphen
-- between them.
pub normalize_pairing_code-IsPairingCode :
    (s out : Bytes) → normalize_pairing_code s ≡ some out → IsPairingCode out
unfolding normalize_pairing_code
normalize_pairing_code-IsPairingCode s out e = elim (Option-cases (collect s)) [
  | inl q ↦ ground arith
  | inr (raw, q) ↦ hyphenated-IsPairingCode raw out (collect-ArePairing s raw q) (ground arith)
]

collect_code : (a b : Bytes) → ArePairing a → ArePairing b → collect (a ++ b'-' ∷ b) ≡ some (a ++ b)
unfolding collect
collect_code a b p q = collect_pairing a (b'-' ∷ b) p (
    ap (λ t. collect t) (sym (append-nil b)) ∙ collect_pairing b [] q refl ∙ ap some (append-nil b))

hyphenate_groups :
    (a b : Bytes) → length a ≡ 4 → length b ≡ 4 → hyphenate (a ++ b) ≡ some (a ++ b'-' ∷ b)
unfolding hyphenate
hyphenate_groups a b n m =
    rw (hyphenate, take-append a b 4 n, drop-append a b 4 n) (ground (arith, length-append a b))

-- A code in that form is returned unchanged.
pub IsPairingCode-normalize_pairing_code :
    (code : Bytes) → IsPairingCode code → normalize_pairing_code code ≡ some code
unfolding normalize_pairing_code
IsPairingCode-normalize_pairing_code code (a, b, e, n, m, p, q) =
    ap normalize_pairing_code e
    ∙ rw (normalize_pairing_code, collect_code a b p q) (hyphenate_groups a b n m)
    ∙ ap some (sym e)
