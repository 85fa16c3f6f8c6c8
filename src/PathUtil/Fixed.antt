-- ===== src/PathUtil/Fixed.antt =====
-- plugin/src/core/PathUtil.cpp: what `normalizeRelative` does to a path that is normal already.
use mathlib.Core.List.{reverse, reverse-cons, reverse-reverse, cons-eq-cons}
use notepadpp_sync.Prelude.{
  ℕ, suc, ◌+◌, ◌≤◌, ◌≡◌, ◌≢◌, refl, sym, ap, ◌∙◌, subst, true, false, ◌||◌, none, some, List, [],
  ◌∷◌, ◌++◌, append-nil, append_assoc, arith, ltb, ◌==◌, length, length-append, Bytes, str_eq,
  str_eq_iff, getlines, attach, contains, replace, All, All-append, All-mono, Bool-cases,
  Option-cases, inl, inr, false_of_ne,
}
use notepadpp_sync.PathUtil.{
  push_segment, resolve, join_segments, is_illegal, any_illegal, has_illegal_chars, is_rooted,
  accept, normalize_slashed, normalize_relative,
}
use notepadpp_sync.PathUtil.Normal.{
  IsPlain, IsKept, IsClean, IsKept-of_normal, join_segments-All, legal_lem, normalize_cases,
  accept_cases,
}

getlines_last : (seg : Bytes) → seg ≢ [] → IsPlain seg → getlines b'/' seg ≡ seg ∷ []
unfolding getlines attach
getlines_last [] ne h = absurd (ne refl)
getlines_last (c ∷ []) ne (p, h) = ground arith
getlines_last (c ∷ d ∷ s) ne (p, h) = ground (arith, getlines_last (d ∷ s) (λ q. cc) h)

getlines_next :
    (seg rest : Bytes)
    → IsPlain seg
    → seg ≢ []
    → getlines b'/' (seg ++ b'/' ∷ rest) ≡ seg ∷ getlines b'/' rest
unfolding getlines attach
getlines_next [] rest h ne = absurd (ne refl)
getlines_next (c ∷ []) rest (p, h) ne = ground arith
getlines_next (c ∷ d ∷ s) rest (p, h) ne = ground (arith, getlines_next (d ∷ s) rest h (λ q. cc))

-- Cutting a joined path at the slashes gives its segments.
getlines-join_segments :
    (segs : List Bytes) → All IsKept segs → getlines b'/' (join_segments segs) ≡ segs
unfolding join_segments
getlines-join_segments [] h = unfold getlines in refl
getlines-join_segments (seg ∷ []) (k, h) = getlines_last seg k.0 k.3
getlines-join_segments (seg ∷ next ∷ rest) (k, h) =
    getlines_next seg (join_segments (next ∷ rest)) k.3 k.0
    ∙ ap (λ t. seg ∷ t) (getlines-join_segments (next ∷ rest) h)

push_segment_kept :
    (seg : Bytes) (segs : List Bytes) → IsKept seg → push_segment seg segs ≡ some (seg ∷ segs)
unfolding push_segment
push_segment_kept seg segs (a, b, c, p) = rw (
  push_segment,
  false_of_ne (str_eq seg []) (λ q. a ((str_eq_iff seg []).0 q)),
  false_of_ne (str_eq seg (b'.' ∷ [])) (λ q. b ((str_eq_iff seg (b'.' ∷ [])).0 q)),
  false_of_ne (str_eq seg (b'.' ∷ b'.' ∷ [])) (λ q. c ((str_eq_iff seg (b'.' ∷ b'.' ∷ [])).0 q)),
)

resolve_kept :
    (rest segs : List Bytes) → All IsKept rest → resolve rest segs ≡ some (reverse rest ++ segs)
unfolding resolve
resolve_kept [] segs h = refl
resolve_kept (seg ∷ rest) segs (k, h) =
    rw (resolve, push_segment_kept seg segs k, reverse-cons, append_assoc)
      (resolve_kept rest (seg ∷ segs) h)

-- Joined segments that need no resolving go straight to the last tests.
normalize-join_segments :
    (segs : List Bytes)
    → All IsKept segs
    → is_rooted (join_segments segs) ≡ false
    → contains 0 (join_segments segs) ≡ false
    → normalize_slashed (join_segments segs) ≡ accept segs
unfolding normalize_slashed
normalize-join_segments segs k r z = rw (
  r,
  z,
  normalize_slashed,
  getlines-join_segments segs k,
  resolve_kept segs [] k,
  append-nil,
  reverse-reverse,
)

replace_none : (s : Bytes) → All (λ c. c ≢ b'\\') s → replace b'\\' b'/' s ≡ s
unfolding replace
replace_none [] h = refl
replace_none (c ∷ s) (p, h) = ground (arith, replace_none s h)

contains_none : (s : Bytes) → IsClean s → contains 0 s ≡ false
unfolding contains
contains_none [] h = refl
contains_none (c ∷ s) (p, h) = ground (arith, legal_lem c p, contains_none s h)

clean_not_rooted : (c : ℕ) (s : Bytes) → c ≢ b'/' → IsClean (c ∷ s) → is_rooted (c ∷ s) ≡ false
unfolding is_rooted
clean_not_rooted c [] ne h = ground arith
clean_not_rooted c (d ∷ s) ne (p, (q, h)) = ground (arith, legal_lem d q)

head_plain :
    (segs : List Bytes)
    → All IsKept segs
    → segs ≢ []
    → IsClean (join_segments segs)
    → is_rooted (join_segments segs) ≡ false
unfolding join_segments
head_plain [] k ne c = absurd (ne refl)
head_plain ([] ∷ rest) (k, h) ne c = absurd (k.0 refl)
head_plain ((x ∷ s) ∷ []) (k, h) ne c = clean_not_rooted x s k.3.0.0 c
head_plain ((x ∷ s) ∷ next ∷ rest) (k, h) ne c =
    clean_not_rooted x (s ++ b'/' ∷ join_segments (next ∷ rest)) k.3.0.0 c

-- The room that segments take, each with one separator.
abbrev weight : List Bytes → ℕ
weight [] = 0
weight (seg ∷ segs) = length seg + 1 + weight segs

weight-append : (xs ys : List Bytes) → weight (xs ++ ys) ≡ weight xs + weight ys
weight-append [] ys = omega arith
weight-append (x ∷ xs) ys = omega (arith, weight-append xs ys)

weight-reverse : (xs : List Bytes) → weight (reverse xs) ≡ weight xs
weight-reverse [] = refl
weight-reverse (x ∷ xs) =
    omega
      (arith, ap weight (reverse-cons x xs), weight-append (reverse xs) (x ∷ []), weight-reverse xs)

weight-attach : (c n : ℕ) (ls : List Bytes) → weight ls ≤ n + 1 → weight (attach c ls) ≤ n + 2
unfolding attach
weight-attach c n [] h = omega arith
weight-attach c n (l ∷ ls) h = omega arith

weight-getlines : (s : Bytes) → weight (getlines b'/' s) ≤ length s + 1
unfolding getlines
weight-getlines [] = omega arith
weight-getlines (c ∷ s) = elim (Bool-cases (c == b'/')) [
  | inl e ↦ rw e (omega (arith, weight-getlines s))
  | inr e ↦ rw e (omega (arith, weight-attach c (length s) (getlines b'/' s) (weight-getlines s)))
]

length-join_segments :
    (segs : List Bytes) → segs ≢ [] → length (join_segments segs) + 1 ≡ weight segs
unfolding join_segments
length-join_segments [] ne = absurd (ne refl)
length-join_segments (seg ∷ []) ne = omega arith
length-join_segments (seg ∷ next ∷ rest) ne = omega (
  arith,
  length-append seg (b'/' ∷ join_segments (next ∷ rest)),
  length-join_segments (next ∷ rest) (λ q. cc),
)

weight-push_segment :
    (seg : Bytes) (segs : List Bytes) {out : List Bytes}
    → push_segment seg segs ≡ some out
    → weight out ≤ weight segs + length seg + 1
unfolding push_segment
weight-push_segment seg [] {out} e = ground arith
weight-push_segment seg (x ∷ segs) {out} e = ground arith

weight-resolve :
    (rest segs out : List Bytes)
    → resolve rest segs ≡ some out
    → weight out ≤ weight segs + weight rest
unfolding resolve
weight-resolve [] segs out e = ground arith
weight-resolve (seg ∷ rest) segs out e = elim (Option-cases (push_segment seg segs)) [
  | inl q ↦ ground arith
  | inr (segs', q) ↦
      omega (arith, weight-resolve rest segs' out (ground arith), weight-push_segment seg segs q)
]

length-replace : (s : Bytes) → length (replace b'\\' b'/' s) ≡ length s
unfolding replace
length-replace [] = refl
length-replace (c ∷ s) = ap suc (length-replace s)

fits_of_normal : (s out : Bytes) → normalize_relative s ≡ some out → length s ≤ 4096
unfolding normalize_relative
fits_of_normal s out e = ground arith

length-normalize_relative :
    (s out : Bytes) → normalize_relative s ≡ some out → length out ≤ length s
length-normalize_relative s out e =
    let (segs, r, a) = normalize_cases s out e in
    let (ne, j, c) = accept_cases (reverse segs) out a in
    omega (
      arith,
      ap length j,
      length-join_segments (reverse segs) ne,
      weight-reverse segs,
      weight-resolve (getlines b'/' (replace b'\\' b'/' s)) [] segs r,
      weight-getlines (replace b'\\' b'/' s),
      length-replace s,
    )

plain_join : (segs : List Bytes) → All IsKept segs → All (λ c. c ≢ b'\\') (join_segments segs)
plain_join segs k =
    join_segments-All (λ c. c ≢ b'\\') segs (λ q. omega arith)
      (All-mono IsKept (All (λ c. c ≢ b'\\'))
        (λ seg k. All-mono (λ c. (c ≢ b'/') × (c ≢ b'\\')) (λ c. c ≢ b'\\') (λ c p. p.1) seg k.3)
        segs k)

normalize_relative-normalize_slashed :
    (s : Bytes)
    → length s ≤ 4096
    → s ≢ []
    → All (λ c. c ≢ b'\\') s
    → normalize_relative s ≡ normalize_slashed s
unfolding normalize_relative
normalize_relative-normalize_slashed s fits ne p = rw (
  normalize_relative,
  replace_none s p,
  false_of_ne (str_eq s []) (λ q. ne ((str_eq_iff s []).0 q)),
  false_of_ne (ltb 4096 (length s)) (λ q. ground arith),
)

join_segments-ne-nil : (segs : List Bytes) → All IsKept segs → segs ≢ [] → join_segments segs ≢ []
join_segments-ne-nil [] k ne q = ne refl
join_segments-ne-nil ([] ∷ segs) (k, h) ne q = k.0 refl
join_segments-ne-nil ((c ∷ s) ∷ segs) k ne q =
    omega (arith, ap length q, length-join_segments ((c ∷ s) ∷ segs) (λ p. cc))

-- Normalising what `normalizeRelative` returned returns it again.
pub normalize_relative_idem :
    (s out : Bytes) → normalize_relative s ≡ some out → normalize_relative out ≡ some out
normalize_relative_idem s out e =
    let (segs, ne, j, k, c, a) = IsKept-of_normal s out e in
    let p : All (λ x. x ≢ b'\\') out = subst (All (λ x. x ≢ b'\\')) (sym j) (plain_join segs k) in
    let fits : length out ≤ 4096 =
      omega (arith, length-normalize_relative s out e, fits_of_normal s out e) in
    let clean : IsClean (join_segments segs) = subst IsClean j c in
    normalize_relative-normalize_slashed out fits (λ q. join_segments-ne-nil segs k ne (sym j ∙ q))
      p
    ∙ ap normalize_slashed j
    ∙ normalize-join_segments segs k (head_plain segs k ne clean)
        (contains_none (join_segments segs) clean)
    ∙ a

any_illegal-append : (s t : Bytes) → any_illegal (s ++ b':' ∷ t) ≡ true
unfolding any_illegal is_illegal contains
any_illegal-append [] t = ground arith
any_illegal-append (c ∷ s) t = ground (arith, any_illegal-append s t)

accept_colon :
    (segs : List Bytes) (s t : Bytes) → join_segments segs ≡ s ++ b':' ∷ t → accept segs ≡ none
unfolding accept has_illegal_chars
accept_colon [] s t e = refl
accept_colon (seg ∷ rest) s t e = ground (arith, ap any_illegal e, any_illegal-append s t)

-- Segments that a colon is in are refused, whatever else they hold.
refused_colon :
    (segs : List Bytes) (s t : Bytes)
    → All IsKept segs
    → join_segments segs ≡ s ++ b':' ∷ t
    → normalize_slashed (join_segments segs) ≡ none
unfolding normalize_slashed
refused_colon segs s t k e =
    elim (Bool-cases (is_rooted (join_segments segs) || contains 0 (join_segments segs))) [
      | inl bad ↦ rw (bad, normalize_slashed)
      | inr fine ↦
          rw
            (
              fine,
              normalize_slashed,
              getlines-join_segments segs k,
              resolve_kept segs [] k,
              append-nil,
              reverse-reverse,
            )
            (accept_colon segs s t e)
    ]

ne_of_colon : (s t u : Bytes) → All (λ c. c ≢ b':') u → s ++ b':' ∷ t ≢ u
ne_of_colon [] t [] h e = cc
ne_of_colon [] t (d ∷ u) (p, h) e = ground arith
ne_of_colon (c ∷ s) t [] h e = cc
ne_of_colon (c ∷ s) t (d ∷ u) (p, h) e = ne_of_colon s t u h (cons-eq-cons.0 e).1

-- The key of the first segment of a path: the root's id goes in front.
keyed-IsKept : (id seg : Bytes) → IsPlain id → IsKept seg → IsKept (id ++ b':' ∷ seg)
keyed-IsKept id seg p (a, b, c, q) = (
  ne_of_colon id seg [] tt,
  ne_of_colon id seg (b'.' ∷ []) (omega arith),
  ne_of_colon id seg (b'.' ∷ b'.' ∷ []) (omega arith),
  All-append (λ c. (c ≢ b'/') × (c ≢ b'\\')) id (b':' ∷ seg) p ((omega arith, omega arith), q),
)

keyed_join :
    (id seg : Bytes) (rest : List Bytes)
    → join_segments ((id ++ b':' ∷ seg) ∷ rest) ≡ id ++ b':' ∷ join_segments (seg ∷ rest)
unfolding join_segments
keyed_join id seg [] = refl
keyed_join id seg (next ∷ rest) = append_assoc id (b':' ∷ seg) (b'/' ∷ join_segments (next ∷ rest))

refused_relative :
    (s : Bytes) → All (λ c. c ≢ b'\\') s → normalize_slashed s ≡ none → normalize_relative s ≡ none
unfolding normalize_relative
refused_relative s p e = ground (arith, replace_none s p, ap normalize_slashed (replace_none s p))

keyed_none :
    (id : Bytes) (segs : List Bytes)
    → IsPlain id
    → segs ≢ []
    → All IsKept segs
    → normalize_relative (id ++ b':' ∷ join_segments segs) ≡ none
keyed_none id [] p ne k = absurd (ne refl)
keyed_none id (seg ∷ rest) p ne (k, h) =
    let kept : All IsKept ((id ++ b':' ∷ seg) ∷ rest) = (keyed-IsKept id seg p k, h) in
    let e = keyed_join id seg rest in
    refused_relative (id ++ b':' ∷ join_segments (seg ∷ rest))
      (subst (All (λ c. c ≢ b'\\')) e (plain_join ((id ++ b':' ∷ seg) ∷ rest) kept))
      (ap normalize_slashed (sym e)
        ∙ refused_colon ((id ++ b':' ∷ seg) ∷ rest) id (join_segments (seg ∷ rest)) kept e)

-- A normal path with an id that has no slash and a colon in front, as the client keys its files, is refused.
pub normalize_relative-key :
    (id rel : Bytes)
    → All (λ c. (c ≢ b'/') × (c ≢ b'\\')) id
    → normalize_relative rel ≡ some rel
    → normalize_relative (id ++ b':' ∷ rel) ≡ none
normalize_relative-key id rel p e =
    let (segs, ne, j, k, c, a) = IsKept-of_normal rel rel e in
    ap (λ t. normalize_relative (id ++ b':' ∷ t)) j ∙ keyed_none id segs p ne k
