-- ===== src/Crypto/Recovery.antt =====
-- plugin/src/core/Crypto.cpp: the recovery key. The 20 random bytes are an argument. The alphabet has 31
-- symbols, so index 31 reads the 0 that ends the literal.
use notepadpp_sync.Prelude.{
  ℕ, zero, suc, ◌-◌, ◌%◌, ◌≡◌, ◌≢◌, refl, sym, ap, ◌∙◌, Bool, true, false, ◌&&◌, ◌||◌, Option, none,
  some, [], ◌∷◌, ◌++◌, arith, ltb, leb, ◌==◌, if◌then◌else◌, length, drop, map, get_or, Bytes,
  codes, All, Bool-cases, inl, inr,
}

abbrev pub alphabet : Bytes
alphabet = codes "ABCDEFGHJKMNPQRSTUVWXYZ23456789"

-- A hyphen before every fourth symbol but the first; `i` symbols are written already.
unfoldable pub grouped : ℕ → Bytes → Bytes
grouped i [] = []
grouped i (c ∷ s) =
    let rest = grouped (suc i) s in if ltb 0 i && (i % 4 == 0) then b'-' ∷ c ∷ rest else c ∷ rest

-- `generateRecoveryKey`
unfoldable pub generate_recovery_key : Bytes → Bytes
generate_recovery_key raw = codes "NPSYNC-" ++ grouped 0 (map (λ r. get_or alphabet (r % 32) 0) raw)

-- `::toupper` of the C locale.
unfoldable pub to_upper : ℕ → ℕ
to_upper c = if leb b'a' c && leb c b'z' then c - 32 else c

-- The first loop of `normalizeRecoveryKey`.
unfoldable pub squeeze : Bytes → Bytes
squeeze [] = []
squeeze (c ∷ s) = let rest = squeeze s in if c == b'-' || c == b' ' then rest else to_upper c ∷ rest

-- `body.rfind(prefix, 0) == 0`
unfoldable pub starts_with : Bytes → Bytes → Bool
starts_with [] s = true
starts_with (p ∷ prefix) [] = false
starts_with (p ∷ prefix) (c ∷ s) = p == c && starts_with prefix s

unfoldable pub strip_prefix : Bytes → Bytes
strip_prefix body = if starts_with (codes "NPSYNC") body then drop 6 body else body

-- From the body on.
unfoldable pub regroup : Bytes → Option Bytes
regroup body = if length body == 20 then some (codes "NPSYNC-" ++ grouped 0 body) else none

-- `normalizeRecoveryKey`: the output where it returns true.
unfoldable pub normalize_recovery_key : Bytes → Option Bytes
normalize_recovery_key s = regroup (strip_prefix (squeeze s))

-- What `squeeze` leaves as it is.
abbrev pub IsBody : Bytes → Type 0
IsBody = All (λ c. (c ≢ b'-') × (c ≢ b' ') × (to_upper c ≡ c))

squeeze-IsBody : (s : Bytes) → IsBody (squeeze s)
unfolding squeeze to_upper
squeeze-IsBody [] = tt
squeeze-IsBody (c ∷ s) = elim (Bool-cases (c == b'-' || c == b' ')) [
  | inl skip ↦ rw skip (squeeze-IsBody s)
  | inr kept ↦ rw kept ((ground arith, ground arith, ground arith), squeeze-IsBody s)
]

drop-IsBody : (n : ℕ) (s : Bytes) → IsBody s → IsBody (drop n s)
drop-IsBody zero s h = h
drop-IsBody (suc n) [] h = h
drop-IsBody (suc n) (c ∷ s) (p, h) = drop-IsBody n s h

strip_prefix-IsBody : (s : Bytes) → IsBody s → IsBody (strip_prefix s)
unfolding strip_prefix
strip_prefix-IsBody s h = elim (Bool-cases (starts_with (codes "NPSYNC") s)) [
  | inl e ↦ rw e (drop-IsBody 6 s h)
  | inr e ↦ rw e h
]

squeeze-grouped : (i : ℕ) (s : Bytes) → IsBody s → squeeze (grouped i s) ≡ s
unfolding squeeze grouped
squeeze-grouped i [] h = refl
squeeze-grouped i (c ∷ s) ((a, b, u), h) = ground (arith, squeeze-grouped (suc i) s h)

normalize-grouped :
    (body : Bytes)
    → IsBody body
    → normalize_recovery_key (codes "NPSYNC-" ++ grouped 0 body) ≡ regroup body
unfolding normalize_recovery_key squeeze strip_prefix starts_with to_upper
normalize-grouped body h = ap regroup (squeeze-grouped 0 body h)

-- A recovery key that `normalizeRecoveryKey` returned is returned again unchanged.
pub normalize_recovery_key_idem :
    (s out : Bytes) → normalize_recovery_key s ≡ some out → normalize_recovery_key out ≡ some out
unfolding regroup normalize_recovery_key
normalize_recovery_key_idem s out e =
    let body = strip_prefix (squeeze s) in
    let h : IsBody body = strip_prefix-IsBody (squeeze s) (squeeze-IsBody s) in
    let q : codes "NPSYNC-" ++ grouped 0 body ≡ out = ground arith in
    ap normalize_recovery_key (sym q) ∙ normalize-grouped body h ∙ e

alphabet-IsBody : IsBody alphabet
unfolding squeeze to_upper
alphabet-IsBody = squeeze-IsBody alphabet

get_or-IsBody : (s : Bytes) (i : ℕ) → IsBody s → IsBody (get_or s i 0 ∷ [])
unfolding to_upper
get_or-IsBody [] i h = ((ground arith, ground arith, refl), tt)
get_or-IsBody (c ∷ s) zero (p, h) = (p, tt)
get_or-IsBody (c ∷ s) (suc i) (p, h) = get_or-IsBody s i h

symbols-IsBody : (raw : Bytes) → IsBody (map (λ r. get_or alphabet (r % 32) 0) raw)
symbols-IsBody [] = tt
symbols-IsBody (r ∷ raw) = ((get_or-IsBody alphabet (r % 32) alphabet-IsBody).0, symbols-IsBody raw)

length-symbols : (raw : Bytes) → length (map (λ r. get_or alphabet (r % 32) 0) raw) ≡ length raw
length-symbols [] = refl
length-symbols (r ∷ raw) = ap suc (length-symbols raw)

-- A recovery key made of 20 random bytes is in normal form already.
pub normalize_recovery_key-generate_recovery_key :
    (raw : Bytes)
    → length raw ≡ 20
    → normalize_recovery_key (generate_recovery_key raw) ≡ some (generate_recovery_key raw)
unfolding generate_recovery_key regroup
normalize_recovery_key-generate_recovery_key raw h =
    normalize-grouped (map (λ r. get_or alphabet (r % 32) 0) raw) (symbols-IsBody raw)
    ∙ ground (arith, length-symbols raw)
