-- ===== src/IgnoreRules/Laws.antt =====
-- plugin/src/core/IgnoreRules.cpp: `matchRule` and `ignored`.
use notepadpp_sync.Prelude.{
  suc, ◌+◌, ◌≤◌, ◌≡◌, refl, sym, ap, ◌∙◌, subst, Bool, true, false, ◌&&◌, ◌||◌, not, Option, none,
  some, List, [], ◌∷◌, ◌++◌, ◌==◌, if◌then◌else◌, arith, length, length-append, append_assoc,
  append-nil, Bytes, All, All-mono, str_eq, str_eq_iff, replace, contains, lower, after_last,
  Bool-cases, false_of_ne, inl, inr, ◌⊎◌,
}
use notepadpp_sync.IgnoreRules.{
  Rule, parents, match_candidate, match_candidates, match_rule, ignored_loop, ignored,
}
use notepadpp_sync.IgnoreRules.Termination.{Ends, glob_match_returns}

match_candidate_returns : (r : Rule) (cand : Bytes) (d : Bool) → Ends (match_candidate r cand d)
unfolding match_candidate
match_candidate_returns r cand d = elim (Bool-cases (r.dir_only && not d)) [
  | inl skip ↦ rw skip (false, refl)
  | inr test ↦ elim (Bool-cases (r.anchored || contains b'/' r.pattern)) [
    | inl path ↦ rw (test, path) (glob_match_returns r.pattern cand)
    | inr base ↦ rw (test, base) (glob_match_returns r.pattern (after_last b'/' cand))
  ]
]

-- Some element of a list has a property.
abbrev Some : (Bytes → Type 0) → List Bytes → Type 0
Some P [] = ⊥
Some P (x ∷ xs) = P x ⊎ Some P xs

-- The candidate is a match, as `matchRule` looks at it.
abbrev Hits : Rule → Bytes → Bool → Bytes → Type 0
Hits r rel d cand = match_candidate r cand (not (str_eq cand rel) || d) ≡ some true

-- One round of the loop over the candidates, by what the candidate and the rest come to.
first_hit :
    (o rest : Option Bool) (b : Bool)
    → o ≡ some b
    → (elim o [ none ↦ none | some hit ↦ if hit then some true else rest ])
      ≡ (if b then some true else rest)
first_hit o rest b e = rw e refl

candidates_return :
    (r : Rule) (rel : Bytes) (d : Bool) (cands : List Bytes) → Ends (match_candidates r rel d cands)
unfolding match_candidates
candidates_return r rel d [] = (false, refl)
candidates_return r rel d (c ∷ cands) =
    let (b, e) = match_candidate_returns r c (not (str_eq c rel) || d) in
    let (b', e') = candidates_return r rel d cands in
    (if b then true else b', first_hit _ _ b e ∙ ground arith)

by_hit :
    (P : Bytes → Type 0) (c : Bytes) (cands : List Bytes) (o rest : Option Bool) (b : Bool)
    → o ≡ some b
    → (o ≡ some true → P c)
    → (rest ≡ some true → Some P cands)
    → (elim o [ none ↦ none | some hit ↦ if hit then some true else rest ]) ≡ some true
    → Some P (c ∷ cands)
by_hit P c cands o rest true q f g e = inl (f q)
by_hit P c cands o rest false q f g e = inr (g (sym (first_hit o rest false q) ∙ e))

hit_found :
    (r : Rule) (rel : Bytes) (d : Bool) (cands : List Bytes)
    → match_candidates r rel d cands ≡ some true
    → Some (Hits r rel d) cands
unfolding match_candidates
hit_found r rel d [] e = ground arith
hit_found r rel d (c ∷ cands) e =
    let (b, q) = match_candidate_returns r c (not (str_eq c rel) || d) in
    by_hit (Hits r rel d) c cands _ _ b q (λ h. h) (λ h. hit_found r rel d cands h) e

found_hit :
    (r : Rule) (rel : Bytes) (d : Bool) (cands : List Bytes)
    → Some (Hits r rel d) cands
    → match_candidates r rel d cands ≡ some true
unfolding match_candidates
found_hit r rel d [] h = absurd h
found_hit r rel d (c ∷ cands) (inl h) = first_hit _ _ true h
found_hit r rel d (c ∷ cands) (inr h) =
    let (b, q) = match_candidate_returns r c (not (str_eq c rel) || d) in
    first_hit _ _ b q ∙ ground (arith, found_hit r rel d cands h)

-- The candidates of a path in a folder: those of what is in front of the slash, then those behind it.
parents-append :
    (done s t : Bytes)
    → parents done (s ++ b'/' ∷ t)
      ≡ parents done s ++ (done ++ s) ∷ parents (done ++ (s ++ b'/' ∷ [])) t
unfolding parents
parents-append done [] t = ap (λ x. x ∷ parents (done ++ b'/' ∷ []) t) (sym (append-nil done))
parents-append done (c ∷ s) t =
    let d : Bytes = done ++ c ∷ [] in
    let ih : parents d (s ++ b'/' ∷ t)
        ≡ parents d s ++ (done ++ c ∷ s) ∷ parents (done ++ c ∷ (s ++ b'/' ∷ [])) t =
      parents-append d s t ∙ λ i.
      parents d s
      ++ append_assoc done (c ∷ []) s i
        ∷ parents (append_assoc done (c ∷ []) (s ++ b'/' ∷ []) i) t in
    elim (Bool-cases (c == b'/')) [ inl e ↦ rw e (ap (λ x. done ∷ x) ih) | inr e ↦ rw e ih ]

parents-le : (done s : Bytes) → All (λ c. length c ≤ length done + length s) (parents done s)
unfolding parents
parents-le done [] = tt
parents-le done (c ∷ s) =
    let rest : All (λ x. length x ≤ length done + suc (length s)) (parents (done ++ c ∷ []) s) =
      All-mono (λ x. length x ≤ length (done ++ c ∷ []) + length s)
        (λ x. length x ≤ length done + suc (length s))
        (λ x h. omega (arith, length-append done (c ∷ []))) (parents (done ++ c ∷ []) s)
        (parents-le (done ++ c ∷ []) s) in
    elim (Bool-cases (c == b'/')) [ inl e ↦ rw e (omega arith, rest) | inr e ↦ rw e rest ]

Some-append : (P : Bytes → Type 0) (xs ys : List Bytes) → Some P xs → Some P (xs ++ ys)
Some-append P [] ys h = absurd h
Some-append P (x ∷ xs) ys (inl h) = inl h
Some-append P (x ∷ xs) ys (inr h) = inr (Some-append P xs ys h)

Some-here : (P : Bytes → Type 0) (xs ys : List Bytes) (y : Bytes) → P y → Some P (xs ++ y ∷ ys)
Some-here P [] ys y h = inl h
Some-here P (x ∷ xs) ys y h = inr (Some-here P xs ys y h)

Some-mono :
    (P Q R : Bytes → Type 0) (xs : List Bytes)
    → ((x : Bytes) → P x → Q x → R x)
    → All P xs
    → Some Q xs
    → Some R xs
Some-mono P Q R [] f a h = h
Some-mono P Q R (x ∷ xs) f (p, a) (inl h) = inl (f x p h)
Some-mono P Q R (x ∷ xs) f (p, a) (inr h) = inr (Some-mono P Q R xs f a h)

-- What is a match of a folder is one of each path below it.
below_hit :
    (r : Rule) (dir rest : Bytes) (d : Bool) (c : Bytes)
    → length c ≤ length dir
    → Hits r dir true c
    → Hits r (dir ++ b'/' ∷ rest) d c
below_hit r dir rest d c h e =
    let other : str_eq c (dir ++ b'/' ∷ rest) ≡ false =
      false_of_ne (str_eq c (dir ++ b'/' ∷ rest)) (λ q. omega (
        arith,
        ap length ((str_eq_iff c (dir ++ b'/' ∷ rest)).0 q),
        length-append dir (b'/' ∷ rest),
      )) in
    rw other (elim (Bool-cases (str_eq c dir)) [ inl q ↦ rw q at e | inr q ↦ rw q at e ])

-- A rule that matches a folder matches every file and every folder below it.
pub match_rule_below :
    (r : Rule) (dir rest : Bytes) (is_dir : Bool)
    → match_rule r dir true ≡ some true
    → match_rule r (dir ++ b'/' ∷ rest) is_dir ≡ some true
unfolding match_rule
match_rule_below r dir rest is_dir e =
    found_hit r (dir ++ b'/' ∷ rest) is_dir _
      (inr (below (hit_found r dir true (dir ∷ parents [] dir) e)))
  where
    below :
        Some (Hits r dir true) (dir ∷ parents [] dir)
        → Some (Hits r (dir ++ b'/' ∷ rest) is_dir) (parents [] (dir ++ b'/' ∷ rest))
    below (inl h) =
        subst (Some (Hits r (dir ++ b'/' ∷ rest) is_dir)) (sym (parents-append [] dir rest)) (
          Some-here (Hits r (dir ++ b'/' ∷ rest) is_dir) (parents [] dir) _ dir
            (below_hit r dir rest is_dir dir (omega arith) h))
    below (inr h) =
        subst (Some (Hits r (dir ++ b'/' ∷ rest) is_dir)) (sym (parents-append [] dir rest)) (
          Some-append (Hits r (dir ++ b'/' ∷ rest) is_dir) (parents [] dir) _ (
            Some-mono (λ c. length c ≤ length dir) (Hits r dir true)
              (Hits r (dir ++ b'/' ∷ rest) is_dir) (parents [] dir)
              (λ c p q. below_hit r dir rest is_dir c p q)
              (All-mono (λ c. length c ≤ 0 + length dir) (λ c. length c ≤ length dir)
                (λ c p. omega arith) (parents [] dir) (parents-le [] dir))
              h))

match_rule_returns : (r : Rule) (rel : Bytes) (d : Bool) → Ends (match_rule r rel d)
unfolding match_rule
match_rule_returns r rel d = candidates_return r rel d (rel ∷ parents [] rel)

loop_last :
    (rules : List Rule) (r : Rule) (p : Bytes) (d result : Bool)
    → (before : Bool) × (hit : Bool) × (ignored_loop rules p d result ≡ some before)
      × (match_rule r p d ≡ some hit)
      × (ignored_loop (rules ++ r ∷ []) p d result ≡ some (if hit then not r.negate else before))
unfolding ignored_loop
loop_last [] r p d result =
    let (hit, e) = match_rule_returns r p d in (result, hit, refl, e, rw (e, ignored_loop) refl)
loop_last (x ∷ rules) r p d result =
    let (hit, e) = match_rule_returns x p d in
    let (before, last, a, b, c) = loop_last rules r p d (if hit then not x.negate else result) in
    (before, last, rw (e, ignored_loop) a, b, rw (e, ignored_loop) c)

-- `ignored` always returns, and the last rule that matches decides: with one more rule at the end, a path
-- that it matches is ignored unless it negates, and for every other path the answer is that of the rules
-- before it.
pub ignored_last :
    (rules : List Rule) (r : Rule) (rel_path : Bytes) (is_dir : Bool)
    → (before : Bool) × (hit : Bool) × (ignored rules rel_path is_dir ≡ some before)
      × (match_rule r (replace b'\\' b'/' (lower rel_path)) is_dir ≡ some hit)
      × (ignored (rules ++ r ∷ []) rel_path is_dir ≡ some (if hit then not r.negate else before))
unfolding ignored
ignored_last rules r rel_path is_dir =
    loop_last rules r (replace b'\\' b'/' (lower rel_path)) is_dir false
