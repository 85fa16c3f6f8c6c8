-- ===== src/Merge/Sweep.antt =====
-- plugin/src/core/Merge.cpp: the loop of `ThreeWayMerge::merge` makes a three-way merge of the lines.
use mathlib.Core.Path.{subst₂}
use notepadpp_sync.Prelude.{
  ℕ, zero, suc, ◌+◌, ◌-◌, ◌≤◌, ◌<◌, ◌≡◌, ◌⊎◌, ◌↔◌, refl, sym, ap, ◌∙◌, subst, Bool, true, false,
  ◌||◌, List, [], ◌∷◌, ◌++◌, append-nil, append_assoc, arith, if◌then◌else◌, length, length-append,
  take, drop, length-drop, Bytes, Bool-cases, str_eq_iff, inl, inr, All,
}
use notepadpp_sync.Merge.Diff.{Edit}
use notepadpp_sync.Merge.Apply.{apply_edits, Between}
use notepadpp_sync.Merge.Folds.{
  Beyond, Starts, Starts-of_Beyond, Folds, fold_region-Folds, drop-slice, apply_edits-slice,
  apply_edits-build, Between-left,
}
use notepadpp_sync.Merge.Spec.{Diff3, done, keep, take_local, take_remote, agree, conflict}
use notepadpp_sync.Merge.Region.{
  MergeHunk, append_lines, lines_eq, is_empty, slice, Fold, fold_region, build, Output, emit,
  choose, NextStart, at_line, size_max, next_start, region, sweep,
}

pub lines_eq_iff : (a b : List Bytes) → (lines_eq a b ≡ true) ↔ (a ≡ b)
unfolding lines_eq
lines_eq_iff [] [] = (λ _. refl, λ _. refl)
lines_eq_iff [] (_ ∷ _) = (λ h. cc, λ h. cc)
lines_eq_iff (_ ∷ _) [] = (λ h. cc, λ h. cc)
lines_eq_iff (x ∷ a) (y ∷ b) = ground (arith, str_eq_iff x y, lines_eq_iff a b)

append_lines-append :
    (eol out : Bytes) (a b : List Bytes)
    → append_lines eol out (a ++ b) ≡ append_lines eol (append_lines eol out a) b
unfolding append_lines
append_lines-append eol out [] b = refl
append_lines-append eol out (x ∷ a) b = append_lines-append eol (out ++ (x ++ eol)) a b

abbrev pub is_some : List MergeHunk → Bool
is_some [] = false
is_some (_ ∷ _) = true

-- The output `o'` adds the lines `m` and the conflicts `h` to the output `o`.
pub record Emits (eol : Bytes) (o : Output) (m : List Bytes) (h : List MergeHunk) (o' : Output)
    : Type 0 where
  pub text : o'.out ≡ append_lines eol o.out m
  pub found : o'.hunks ≡ o.hunks ++ h
  pub flag : o'.conflict ≡ (o.conflict || is_some h)

or_assoc : (a b c : Bool) → (a || (b || c)) ≡ ((a || b) || c)
or_assoc true b c = refl
or_assoc false b c = refl

is_some-append : (g h : List MergeHunk) → is_some (g ++ h) ≡ (is_some g || is_some h)
is_some-append [] h = refl
is_some-append (x ∷ g) h = refl

or_false : (b : Bool) → b ≡ (b || false)
or_false true = refl
or_false false = refl

Emits-trans :
    (eol : Bytes) (o o₁ o₂ : Output) (m n : List Bytes) (g h : List MergeHunk)
    → Emits eol o m g o₁
    → Emits eol o₁ n h o₂
    → Emits eol o (m ++ n) (g ++ h) o₂
Emits-trans eol o o₁ o₂ m n g h p q = record {
  text = q.text ∙ ap (λ t. append_lines eol t n) p.text ∙ sym (append_lines-append eol o.out m n);
  found = q.found ∙ ap (λ t. t ++ h) p.found ∙ append_assoc o.hunks g h;
  flag =
      q.flag
      ∙ ap (λ b. b || is_some h) p.flag
      ∙ sym (or_assoc o.conflict (is_some g) (is_some h))
      ∙ ap (λ b. o.conflict || b) (sym (is_some-append g h));
}

emit-Emits : (eol : Bytes) (ls : List Bytes) (o : Output) → Emits eol o ls [] (emit eol ls o)
unfolding emit
emit-Emits eol ls o = record {
  text = refl;
  found = sym (append-nil o.hunks);
  flag = or_false o.conflict;
}

or_true : (b : Bool) → true ≡ (b || true)
or_true true = refl
or_true false = refl

-- What one region adds.
abbrev Region : Bytes → List Bytes → List Bytes → List Bytes → Output → Output → Type 0
Region eol old rep_l rep_r o o' =
    (m₁ : List Bytes) × (h₁ : List MergeHunk) × Emits eol o m₁ h₁ o'
    × ((b l r m : List Bytes) (h : List MergeHunk)
        → Diff3 b l r m h
        → Diff3 (old ++ b) (rep_l ++ l) (rep_r ++ r) (m₁ ++ m) (h₁ ++ h))

choose-Region :
    (eol : Bytes) (has_l has_r : Bool) (old rep_l rep_r : List Bytes) (o : Output)
    → (has_l ≡ false → rep_l ≡ old)
    → (has_r ≡ false → rep_r ≡ old)
    → Region eol old rep_l rep_r o (choose eol has_l has_r old rep_l rep_r o)
unfolding choose append_lines
choose-Region eol false false old rep_l rep_r o hl hr = (
  old,
  [],
  emit-Emits eol old o,
  λ b l r m h d.
      subst₂ (λ s t. Diff3 (old ++ b) (s ++ l) (t ++ r) (old ++ m) h) (sym (hl refl))
        (sym (hr refl)) (keep old d),
)
choose-Region eol true has_r old rep_l rep_r o hl hr = elim (Bool-cases (lines_eq rep_l rep_r)) [
  | inl e ↦
      rw (e, choose)
        (
          rep_l,
          [],
          emit-Emits eol rep_l o,
          λ b l r m h d.
              subst (λ t. Diff3 (old ++ b) (rep_l ++ l) (t ++ r) (rep_l ++ m) h)
                ((lines_eq_iff rep_l rep_r).0 e) (agree old rep_l d),
        )
  | inr ne ↦ rw (ne, choose) (sides has_r hr ne)
]
  where
    sides :
        (has_r : Bool)
        → (has_r ≡ false → rep_r ≡ old)
        → lines_eq rep_l rep_r ≡ false
        → Region eol old rep_l rep_r o (
            if (if has_r then false else true) then emit eol rep_l o else record o {
              conflict = true;
              hunks = o.hunks ++ (record { local_lines = rep_l; remote_lines = rep_r } ∷ []);
            })
    sides false hr ne = (
      rep_l,
      [],
      emit-Emits eol rep_l o,
      λ b l r m h d.
          subst (λ t. Diff3 (old ++ b) (rep_l ++ l) (t ++ r) (rep_l ++ m) h) (sym (hr refl))
            (take_local old rep_l d),
    )
    sides true hr ne = (
      [],
      record { local_lines = rep_l; remote_lines = rep_r } ∷ [],
      record { text = refl; found = refl; flag = or_true o.conflict },
      λ b l r m h d. conflict old rep_l rep_r (λ e. cc ((lines_eq_iff rep_l rep_r).1 e)) d,
    )
choose-Region eol false true old rep_l rep_r o hl hr = elim (Bool-cases (lines_eq rep_l rep_r)) [
  | inl e ↦
      rw (e, choose)
        (
          rep_l,
          [],
          emit-Emits eol rep_l o,
          λ b l r m h d.
              subst (λ t. Diff3 (old ++ b) (rep_l ++ l) (t ++ r) (rep_l ++ m) h)
                ((lines_eq_iff rep_l rep_r).0 e) (agree old rep_l d),
        )
  | inr ne ↦
      rw (ne, choose)
        (
          rep_r,
          [],
          emit-Emits eol rep_r o,
          λ b l r m h d.
              subst (λ s. Diff3 (old ++ b) (s ++ l) (rep_r ++ r) (rep_r ++ m) h) (sym (hl refl))
                (take_remote old rep_r d),
        )
]

not_empty_cases :
    (t : List Edit) (b rep : List Bytes)
    → (if is_empty t then false else true) ≡ false
    → (if (if is_empty t then false else true) then rep else b) ≡ b
not_empty_cases t b rep h = rw h

build_of_empty :
    (base : List Bytes) (start k : ℕ) (t : List Edit)
    → (if (if is_empty t then false else true) then build base start t k else slice base start k)
      ≡ build base start t k
unfolding is_empty build
build_of_empty base start k [] = refl
build_of_empty base start k (e ∷ t) = refl

region-Region :
    (eol : Bytes) (base : List Bytes) (start : ℕ) (f : Fold) (o : Output)
    → Region eol
        (slice base start f.region_end)
        (build base start f.taken_l f.region_end)
        (build base start f.taken_r f.region_end)
        o
        (region eol base start f o)
unfolding region
region-Region eol base start f o =
    let k = f.region_end in
    subst₂ (λ s t. Region eol (slice base start k) s t o (region eol base start f o))
      (build_of_empty base start k f.taken_l) (build_of_empty base start k f.taken_r)
      (choose-Region eol _ _ (slice base start k) _ _ o
        (not_empty_cases f.taken_l (slice base start k) (build base start f.taken_l k))
        (not_empty_cases f.taken_r (slice base start k) (build base start f.taken_r k)))

take_all : (n : ℕ) (xs : List Bytes) → length xs ≤ n → take n xs ≡ xs
take_all zero [] h = refl
take_all (suc n) [] h = refl
take_all zero (x ∷ xs) h = absurd (omega arith)
take_all (suc n) (x ∷ xs) h = ap (λ t. x ∷ t) (take_all n xs (omega arith))

-- What the sweep owes from line `pos` on.
abbrev Swept : Bytes → List Bytes → ℕ → List Edit → List Edit → Output → Output → Type 0
Swept eol base pos l r o o' =
    (m : List Bytes) × (h : List MergeHunk) × Diff3 (drop pos base)
      (apply_edits pos (drop pos base) l) (apply_edits pos (drop pos base) r) m h
    × Emits eol o m h o'

Swept-rest :
    (eol : Bytes) (base : List Bytes) (pos : ℕ) (o : Output)
    → Swept eol base pos [] [] o (emit eol (slice base pos (length base)) o)
unfolding apply_edits
Swept-rest eol base pos o =
    let all : slice base pos (length base) ≡ drop pos base =
      take_all (length base - pos) (drop pos base) (omega (arith, length-drop pos base)) in
    (
      slice base pos (length base) ++ [],
      [],
      subst (λ t. Diff3 t t t (slice base pos (length base) ++ []) []) (append-nil _ ∙ all)
          (keep (slice base pos (length base)) done),
      subst (λ t. Emits eol o t [] (emit eol (slice base pos (length base)) o)) (sym (append-nil _))
          (emit-Emits eol _ o),
    )

-- The start of the next region: no edit begins before it, and one begins there.
pub record Starting (pos n start : ℕ) (l r : List Edit) : Type 0 where
  pub after : pos ≤ start
  pub inside : start ≤ n
  pub starts_l : Starts start l
  pub starts_r : Starts start r
  pub meets : (k : ℕ) → start ≤ k → Beyond k l → Beyond k r → ⊥

next_start-Starting :
    (pos n start : ℕ) (l r : List Edit)
    → Between pos n l
    → Between pos n r
    → next_start l r ≡ at_line start
    → Starting pos n start l r
unfolding next_start
next_start-Starting pos n start [] [] bl br e = cc
next_start-Starting pos n start [] (b ∷ r) bl br e = record {
  after = ground arith;
  inside = ground arith;
  starts_l = tt;
  starts_r = ground arith;
  meets = λ k h x y. ground arith;
}
next_start-Starting pos n start (a ∷ l) [] bl br e = record {
  after = ground arith;
  inside = ground arith;
  starts_l = ground arith;
  starts_r = tt;
  meets = λ k h x y. ground arith;
}
next_start-Starting pos n start (a ∷ l) (b ∷ r) bl br e = record {
  after = ground arith;
  inside = ground arith;
  starts_l = ground arith;
  starts_r = ground arith;
  meets = λ k h x y. ground arith;
}

no_start : (l r : List Edit) → next_start l r ≡ size_max → (l ≡ []) × (r ≡ [])
unfolding next_start
no_start [] [] e = (refl, refl)
no_start [] (b ∷ r) e = cc
no_start (a ∷ l) [] e = cc
no_start (a ∷ l) (b ∷ r) e = cc

-- A region takes an edit at least.
fold-fewer :
    (n start : ℕ) (l r : List Edit) (f : Fold)
    → Folds n start l r f
    → ((k : ℕ) → start ≤ k → Beyond k l → Beyond k r → ⊥)
    → length f.left_l + length f.left_r < length l + length r
fold-fewer n start l r f g meets = cases f.taken_l f.taken_r g.all_l g.all_r
  where
    cases :
        (tl tr : List Edit)
        → tl ++ f.left_l ≡ l
        → tr ++ f.left_r ≡ r
        → length f.left_l + length f.left_r < length l + length r
    cases [] [] p q = absurd (
        meets f.region_end g.from_start (subst (Beyond f.region_end) p g.beyond_l)
          (subst (Beyond f.region_end) q g.beyond_r))
    cases [] (e ∷ tr) p q = omega (arith, ap length p, ap length q, length-append tr f.left_r)
    cases (e ∷ tl) tr p q =
        omega
          (arith, ap length p, ap length q, length-append tl f.left_l, length-append tr f.left_r)

pub Diff3-along :
    {b b' l l' r r' m : List Bytes} {h : List MergeHunk}
    → b ≡ b'
    → l ≡ l'
    → r ≡ r'
    → Diff3 b l r m h
    → Diff3 b' l' r' m h
Diff3-along {b} {b'} {l} {l'} {r} {r'} {m} {h} p q s d =
    subst (λ t. Diff3 b' l' t m h) s
      (subst (λ t. Diff3 b' t r m h) q (subst (λ t. Diff3 t l r m h) p d))

NextStart-cases : (x : NextStart) → (x ≡ size_max) ⊎ ((s : ℕ) × (x ≡ at_line s))
NextStart-cases (at_line s) = inr (s, refl)
NextStart-cases size_max = inl refl

module _ (eol : Bytes) (base : List Bytes) where
  -- One side of a region: the lines up to it, what the side makes of it, and the lines behind it.
  side :
      (pos n start k : ℕ) (t es l : List Edit)
      → t ++ es ≡ l
      → pos ≤ start
      → start ≤ k
      → Starts start l
      → Between pos n l
      → All (λ e. e.a_end ≤ k) t
      → Beyond k es
      → apply_edits pos (drop pos base) l
        ≡ slice base pos start ++ (build base start t k ++ apply_edits k (drop k base) es)
  side pos n start k t es l e h h' st b a y =
      apply_edits-slice base pos start n l h st b
      ∙ ap (λ s. slice base pos start ++ s)
          (ap (λ s. apply_edits start (drop start base) s) (sym e)
            ∙ apply_edits-build base start k n t es h' a (Starts-of_Beyond k es y)
                (subst (Between start n) (sym e) (Between-left pos n start [] l b st)))

  Swept-region :
      (pos n start : ℕ) (l r : List Edit) (f : Fold) (o o' : Output)
      → Starting pos n start l r
      → Folds n start l r f
      → Between pos n l
      → Between pos n r
      → Swept eol base f.region_end f.left_l f.left_r
          (region eol base start f (emit eol (slice base pos start) o))
          o'
      → Swept eol base pos l r o o'
  Swept-region pos n start l r f o o' st g bl br (m, h, d, e) =
      let k = f.region_end in
      let (m₁, h₁, e₁, step) = region-Region eol base start f (emit eol (slice base pos start) o) in
      let lhs =
        side pos n start k f.taken_l f.left_l l g.all_l st.after g.from_start st.starts_l bl
          g.ends_l g.beyond_l in
      let rhs =
        side pos n start k f.taken_r f.left_r r g.all_r st.after g.from_start st.starts_r br
          g.ends_r g.beyond_r in
      let bhs =
        drop-slice base pos start st.after
        ∙ ap (λ t. slice base pos start ++ t) (drop-slice base start k g.from_start) in
      (
        slice base pos start ++ (m₁ ++ m),
        h₁ ++ h,
        Diff3-along (sym bhs) (sym lhs) (sym rhs) (keep (slice base pos start) (step _ _ _ m h d)),
        Emits-trans eol o _ o' (slice base pos start) (m₁ ++ m) [] (h₁ ++ h)
            (emit-Emits eol (slice base pos start) o) (Emits-trans eol _ _ o' m₁ m h₁ h e₁ e),
      )

  -- The sweep makes a three-way merge: as many rounds as there are edits are enough.
  pub sweep-Swept :
      (fuel pos n : ℕ) (l r : List Edit) (o : Output)
      → length l + length r ≤ fuel
      → Between pos n l
      → Between pos n r
      → Swept eol base pos l r o (sweep fuel eol base pos l r o)
  unfolding sweep
  sweep-Swept zero pos n [] [] o h bl br = Swept-rest eol base pos o
  sweep-Swept zero pos n [] (_ ∷ _) o h bl br = absurd (omega arith)
  sweep-Swept zero pos n (_ ∷ _) r o h bl br = absurd (omega arith)
  sweep-Swept (suc fuel) pos n l r o h bl br = elim (NextStart-cases (next_start l r)) [
    | inl e ↦
        let (p, q) = no_start l r e in
        rw (e, sweep)
          (subst₂ (λ l r. Swept eol base pos l r o (emit eol (slice base pos (length base)) o))
            (sym p) (sym q) (Swept-rest eol base pos o))
    | inr (start, e) ↦
        let st = next_start-Starting pos n start l r bl br e in
        let f = fold_region (length l + length r) start l r in
        let g : Folds n start l r f =
          fold_region-Folds (length l + length r) n start pos pos l r (omega arith) st.inside bl
            br in
        let fewer = fold-fewer n start l r f g st.meets in
        rw (e, sweep)
          (Swept-region pos n start l r f o _ st g bl br (
            sweep-Swept fuel f.region_end n f.left_l f.left_r _ (omega arith)
              (Between-left pos n f.region_end f.taken_l f.left_l
                (subst (Between pos n) (sym g.all_l) bl)
                (Starts-of_Beyond f.region_end f.left_l g.beyond_l))
              (Between-left pos n f.region_end f.taken_r f.left_r
                (subst (Between pos n) (sym g.all_r) br)
                (Starts-of_Beyond f.region_end f.left_r g.beyond_r))))
  ]
