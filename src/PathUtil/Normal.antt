-- ===== src/PathUtil/Normal.antt =====
-- plugin/src/core/PathUtil.cpp: what `normalizeRelative` lets through.
use mathlib.Core.List.{reverse, reverse-cons}
use mathlib.Core.Option.{some-injective}
use notepadpp_sync.Prelude.{
  ℕ, ◌≤◌, ◌≡◌, ◌≢◌, refl, sym, subst, false, ◌||◌, none, some, List, [], ◌∷◌, ◌++◌, arith, ◌==◌,
  Bytes, str_eq, str_eq_iff, getlines, attach, replace, All, All-append, Bool-cases, Option-cases,
  inl, inr,
}
use notepadpp_sync.PathUtil.{
  push_segment, resolve, join_segments, is_illegal, any_illegal, has_illegal_chars, accept,
  normalize_slashed, normalize_relative,
}

-- A segment as `getline` gives it: no separator of either kind.
abbrev pub IsPlain : Bytes → Type 0
IsPlain = All (λ c. (c ≢ b'/') × (c ≢ b'\\'))

-- A segment that is kept.
abbrev pub IsKept : Bytes → Type 0
IsKept seg = (seg ≢ []) × (seg ≢ b'.' ∷ []) × (seg ≢ b'.' ∷ b'.' ∷ []) × IsPlain seg

attach-All :
    (c : ℕ) (ls : List Bytes)
    → (c ≢ b'/') × (c ≢ b'\\')
    → All IsPlain ls
    → All IsPlain (attach c ls)
unfolding attach
attach-All c [] p h = ((p, tt), tt)
attach-All c (l ∷ ls) p (hl, h) = ((p, hl), h)

getlines-IsPlain : (s : Bytes) → All (λ c. c ≢ b'\\') s → All IsPlain (getlines b'/' s)
unfolding getlines
getlines-IsPlain [] h = tt
getlines-IsPlain (c ∷ s) (ne, h) = elim (Bool-cases (c == b'/')) [
  | inl e ↦ rw e (tt, getlines-IsPlain s h)
  | inr e ↦ rw e (attach-All c (getlines b'/' s) (ground arith, ne) (getlines-IsPlain s h))
]

replace_slashes : (s : Bytes) → All (λ c. c ≢ b'\\') (replace b'\\' b'/' s)
unfolding replace
replace_slashes [] = tt
replace_slashes (c ∷ s) = (ground arith, replace_slashes s)

-- What one segment does.
push_segment-IsKept :
    (seg : Bytes) (segs : List Bytes) {segs' : List Bytes}
    → IsPlain seg
    → All IsKept segs
    → push_segment seg segs ≡ some segs'
    → All IsKept segs'
unfolding push_segment
push_segment-IsKept seg segs {segs'} p h e =
    elim (Bool-cases (str_eq seg [] || str_eq seg (b'.' ∷ []))) [
      | inl skip ↦ subst (All IsKept) (some-injective segs segs' (ground arith)) h
      | inr named ↦ elim (Bool-cases (str_eq seg (b'.' ∷ b'.' ∷ []))) [
        | inl up ↦ popped segs segs' h (ground arith)
        | inr kept ↦ subst (All IsKept) (some-injective (seg ∷ segs) segs' (ground arith)) (
          (
            (λ q. ground (arith, str_eq_iff seg [])),
            (λ q. ground (arith, str_eq_iff seg (b'.' ∷ []))),
            (λ q. ground (arith, str_eq_iff seg (b'.' ∷ b'.' ∷ []))),
            p,
          ),
          h,
        )
      ]
    ]
  where
    popped :
        (segs out : List Bytes)
        → All IsKept segs
        → (elim segs [ [] ↦ none | _ ∷ up ↦ some up ]) ≡ some out
        → All IsKept out
    popped [] out h e = cc
    popped (x ∷ up) out (hx, h) e = subst (All IsKept) (some-injective up out e) h

resolve-IsKept :
    (rest segs out : List Bytes)
    → All IsPlain rest
    → All IsKept segs
    → resolve rest segs ≡ some out
    → All IsKept out
unfolding resolve
resolve-IsKept [] segs out p h e = subst (All IsKept) (some-injective segs out e) h
resolve-IsKept (seg ∷ rest) segs out (p, ps) h e = elim (Option-cases (push_segment seg segs)) [
  | inl q ↦ ground arith
  | inr (segs', q) ↦
      resolve-IsKept rest segs' out ps (push_segment-IsKept seg segs p h q) (ground arith)
]

All-reverse : (P : Bytes → Type 0) (segs : List Bytes) → All P segs → All P (reverse segs)
All-reverse P [] h = tt
All-reverse P (x ∷ segs) (p, h) =
    subst (All P) (sym (reverse-cons x segs))
      (All-append P (reverse segs) (x ∷ []) (All-reverse P segs h) (p, tt))

-- Text that has no illegal character anywhere.
abbrev pub IsClean : Bytes → Type 0
IsClean = All (λ c. is_illegal c ≡ false)

pub IsClean-of_any : (s : Bytes) → any_illegal s ≡ false → IsClean s
unfolding any_illegal
IsClean-of_any [] h = tt
IsClean-of_any (c ∷ s) h = (ground arith, IsClean-of_any s (ground arith))

pub any_of_clean : (s : Bytes) → IsClean s → any_illegal s ≡ false
unfolding any_illegal
any_of_clean [] h = refl
any_of_clean (c ∷ s) (p, h) = ground (arith, any_of_clean s h)

pub All-split : (P : ℕ → Type 0) (s t : Bytes) → All P (s ++ t) → All P s × All P t
All-split P [] t h = (tt, h)
All-split P (c ∷ s) t (p, h) = let (a, b) = All-split P s t h in ((p, a), b)

pub All-join_segments :
    (P : ℕ → Type 0) (segs : List Bytes) → All P (join_segments segs) → All (All P) segs
unfolding join_segments
All-join_segments P [] h = tt
All-join_segments P (seg ∷ []) h = (h, tt)
All-join_segments P (seg ∷ next ∷ rest) h =
    let (a, b) = All-split P seg (b'/' ∷ join_segments (next ∷ rest)) h in
    (a, All-join_segments P (next ∷ rest) b.1)

pub join_segments-All :
    (P : ℕ → Type 0) (segs : List Bytes) → P b'/' → All (All P) segs → All P (join_segments segs)
unfolding join_segments
join_segments-All P [] sl h = tt
join_segments-All P (seg ∷ []) sl (p, h) = p
join_segments-All P (seg ∷ next ∷ rest) sl (p, h) =
    All-append P seg (b'/' ∷ join_segments (next ∷ rest)) p
      (sl, join_segments-All P (next ∷ rest) sl h)

-- What `accept` has tested.
pub accept_cases :
    (segs : List Bytes) (out : Bytes)
    → accept segs ≡ some out
    → (segs ≢ []) × (out ≡ join_segments segs) × IsClean out
unfolding accept has_illegal_chars
accept_cases [] out e = cc
accept_cases (seg ∷ rest) out e = ((λ q. cc), ground arith, IsClean-of_any out (ground arith))

pub normalize_cases :
    (s out : Bytes)
    → normalize_relative s ≡ some out
    → (segs : List Bytes) × (resolve (getlines b'/' (replace b'\\' b'/' s)) [] ≡ some segs)
      × (accept (reverse segs) ≡ some out)
unfolding normalize_relative normalize_slashed
normalize_cases s out e = elim (Option-cases (resolve (getlines b'/' (replace b'\\' b'/' s)) [])) [
  | inl q ↦ ground arith
  | inr (segs, q) ↦ (segs, q, ground arith)
]

-- A segment that names a file or a folder below the current one.
abbrev pub IsSafe : Bytes → Type 0
IsSafe seg =
    (seg ≢ [])
    × (seg ≢ b'.' ∷ [])
    × (seg ≢ b'.' ∷ b'.' ∷ [])
    × All (λ c. (c ≢ b'/') × (c ≢ b'\\') × (c ≢ b':') × (32 ≤ c)) seg

pub legal_lem : (c : ℕ) → is_illegal c ≡ false → (c ≢ b':') × (32 ≤ c) × (c ≢ 0)
unfolding is_illegal
legal_lem c h = ground arith

All₂ :
    (P Q R : ℕ → Type 0) → ((c : ℕ) → P c → Q c → R c) → (s : Bytes) → All P s → All Q s → All R s
All₂ P Q R f [] p q = tt
All₂ P Q R f (c ∷ s) (p, ps) (q, qs) = (f c p q, All₂ P Q R f s ps qs)

IsSafe-of_kept : (segs : List Bytes) → All IsKept segs → All IsClean segs → All IsSafe segs
IsSafe-of_kept [] k c = tt
IsSafe-of_kept (seg ∷ segs) ((a, b, d, p), k) (c, cs) = (
  (a, b, d, All₂ _ _ _ (λ x q r. let (s, t, u) = legal_lem x r in (q.0, q.1, s, t)) seg p c),
  IsSafe-of_kept segs k cs,
)

pub IsKept-of_normal :
    (s out : Bytes)
    → normalize_relative s ≡ some out
    → (segs : List Bytes) × (segs ≢ [])
      × (out ≡ join_segments segs)
      × All IsKept segs
      × IsClean out
      × (accept segs ≡ some out)
IsKept-of_normal s out e =
    let (segs, r, a) = normalize_cases s out e in
    let (ne, j, c) = accept_cases (reverse segs) out a in
    (
      reverse segs,
      ne,
      j,
      All-reverse IsKept segs (
          resolve-IsKept (getlines b'/' (replace b'\\' b'/' s)) [] segs
            (getlines-IsPlain _ (replace_slashes s)) tt r),
      c,
      a,
    )

-- A path that `normalizeRelative` lets through is one or more segments with slashes between them,
-- none of them empty, `.` or `..`, with no separator, colon or control character inside.
pub normalize_relative-IsSafe :
    (s out : Bytes)
    → normalize_relative s ≡ some out
    → (segs : List Bytes) × (segs ≢ []) × (out ≡ join_segments segs) × All IsSafe segs
normalize_relative-IsSafe s out e =
    let (segs, ne, j, k, c, a) = IsKept-of_normal s out e in
    (segs, ne, j, IsSafe-of_kept segs k (All-join_segments _ segs (subst IsClean j c)))
