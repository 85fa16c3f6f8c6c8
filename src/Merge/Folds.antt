-- ===== src/Merge/Folds.antt =====
-- plugin/src/core/Merge.cpp: a region takes all the edits that reach into it, and `build` writes what
-- they make of it.
use mathlib.Core.Path.{subst₂, ap₂}
use notepadpp_sync.Prelude.{
  ℕ, zero, suc, ◌+◌, ◌-◌, ◌≤◌, ◌<◌, ◌≡◌, refl, sym, ap, ◌∙◌, subst, true, false, ◌&&◌, List, [],
  ◌∷◌, ◌++◌, append_assoc, arith, leb, length, length-append, take, drop, take-append-drop, max,
  All, All-append, Bytes, Bool-cases, inl, inr,
}
use notepadpp_sync.Merge.Diff.{Edit}
use notepadpp_sync.Merge.Apply.{apply_edits, Between, Between-weaken}
use notepadpp_sync.Merge.Region.{slice, absorb, Fold, grow, fold_region, is_empty, build}

-- The edits to come begin behind the region.
abbrev pub Beyond : ℕ → List Edit → Type 0
Beyond k [] = Unit
Beyond k (e ∷ es) = k < e.a_start

-- The edits to come begin at line `k` or behind it.
abbrev pub Starts : ℕ → List Edit → Type 0
Starts k [] = Unit
Starts k (e ∷ es) = k ≤ e.a_start

pub Starts-of_Beyond : (k : ℕ) (es : List Edit) → Beyond k es → Starts k es
Starts-of_Beyond k [] h = tt
Starts-of_Beyond k (e ∷ es) h = omega arith

-- What `absorb` gives: nothing is lost, and what is left lies beyond the region's end.
abbrev Absorbs : ℕ → ℕ → List Edit → List Edit × List Edit × ℕ → Type 0
Absorbs n end' es r =
    (r.0 ++ r.1 ≡ es)
    × (end' ≤ r.2)
    × (r.2 ≤ n)
    × All (λ e. e.a_end ≤ r.2) r.0
    × Beyond r.2 r.1
    × (is_empty r.0 ≡ true → r.2 ≡ end')

All-end :
    (k k' : ℕ) (es : List Edit) → k ≤ k' → All (λ e. e.a_end ≤ k) es → All (λ e. e.a_end ≤ k') es
All-end k k' [] h a = tt
All-end k k' (e ∷ es) h (p, a) = (omega arith, All-end k k' es h a)

absorb-Absorbs :
    (n end' lo : ℕ) (es : List Edit)
    → end' ≤ n
    → Between lo n es
    → Absorbs n end' es (absorb end' es)
unfolding absorb is_empty
absorb-Absorbs n end' lo [] h b = (refl, omega arith, h, tt, tt, λ _. refl)
absorb-Absorbs n end' lo (e ∷ es) h (p, q, r, b) =
    let (j, ge, le, a, y, z) =
      absorb-Absorbs n (max end' e.a_end) (e.a_end + 1) es (omega arith) b in
    elim (Bool-cases (leb e.a_start end')) [
      | inl within ↦
          rw (within, absorb) (ap (λ t. e ∷ t) j, omega arith, le, (omega arith, a), y, λ q. cc)
      | inr beyond ↦ rw (beyond, absorb) (refl, omega arith, h, tt, ground arith, λ _. refl)
    ]

Between-later :
    (lo n : ℕ) (t es : List Edit) → Between lo n (t ++ es) → (lo' : ℕ) × Between lo' n es
Between-later lo n [] es b = (lo, b)
Between-later lo n (e ∷ t) es (p, q, r, b) = Between-later (e.a_end + 1) n t es b

-- What a region owes to the edits of the two sides.
pub record Folds (n start : ℕ) (l r : List Edit) (f : Fold) : Type 0 where
  pub all_l : f.taken_l ++ f.left_l ≡ l
  pub all_r : f.taken_r ++ f.left_r ≡ r
  pub from_start : start ≤ f.region_end
  pub in_range : f.region_end ≤ n
  pub ends_l : All (λ e. e.a_end ≤ f.region_end) f.taken_l
  pub ends_r : All (λ e. e.a_end ≤ f.region_end) f.taken_r
  pub beyond_l : Beyond f.region_end f.left_l
  pub beyond_r : Beyond f.region_end f.left_r

grow-Folds :
    (n start k : ℕ) (tl ll tr lr : List Edit) (f : Fold)
    → start ≤ k
    → All (λ e. e.a_end ≤ k) tl
    → All (λ e. e.a_end ≤ k) tr
    → Folds n k ll lr f
    → Folds n start (tl ++ ll) (tr ++ lr) (grow tl tr f)
unfolding grow
grow-Folds n start k tl ll tr lr f h al ar g = record {
  all_l = append_assoc tl f.taken_l f.left_l ∙ ap (λ t. tl ++ t) g.all_l;
  all_r = append_assoc tr f.taken_r f.left_r ∙ ap (λ t. tr ++ t) g.all_r;
  from_start = omega (arith, g.from_start);
  in_range = g.in_range;
  ends_l = All-append _ tl f.taken_l (All-end k f.region_end tl g.from_start al) g.ends_l;
  ends_r = All-append _ tr f.taken_r (All-end k f.region_end tr g.from_start ar) g.ends_r;
  beyond_l = g.beyond_l;
  beyond_r = g.beyond_r;
}

nothing_taken :
    (n k k' : ℕ) (l r : List Edit)
    → k ≤ n
    → Beyond k l
    → Beyond k r
    → Folds n k l r (record { taken_l = []; left_l = l; taken_r = []; left_r = r; region_end = k })
nothing_taken n k k' l r h bl br = record {
  all_l = refl;
  all_r = refl;
  from_start = omega arith;
  in_range = h;
  ends_l = tt;
  ends_r = tt;
  beyond_l = bl;
  beyond_r = br;
}

pub nil_of_empty : (t : List Edit) → is_empty t ≡ true → t ≡ []
unfolding is_empty
nil_of_empty [] h = refl
nil_of_empty (e ∷ t) h = cc

length_of_busy : (t s : List Edit) → (is_empty t && is_empty s) ≡ false → 0 < length t + length s
unfolding is_empty
length_of_busy [] [] h = cc
length_of_busy [] (e ∷ s) h = omega arith
length_of_busy (e ∷ t) s h = omega arith

-- A round that takes nothing leaves the edits and the region's end as they were.
idle-Beyond :
    (n k : ℕ) (es : List Edit)
    → Absorbs n k es (absorb k es)
    → is_empty (absorb k es).0 ≡ true
    → Beyond k es × ((absorb k es).2 ≡ k)
idle-Beyond n k es (j, ge, le, a, y, z) h = (
  subst (λ t. Beyond k t) (ap (λ t. t ++ (absorb k es).1) (sym (nil_of_empty _ h)) ∙ j)
      (subst (λ i. Beyond i (absorb k es).1) (z h) y),
  z h,
)

-- Enough rounds take every edit that reaches into the region.
pub fold_region-Folds :
    (fuel n start lo lo' : ℕ) (l r : List Edit)
    → length l + length r ≤ fuel
    → start ≤ n
    → Between lo n l
    → Between lo' n r
    → Folds n start l r (fold_region fuel start l r)
unfolding fold_region
fold_region-Folds zero n start lo lo' [] [] h s bl br = nothing_taken n start 0 [] [] s tt tt
fold_region-Folds zero n start lo lo' [] (_ ∷ _) h s bl br = absurd (omega arith)
fold_region-Folds zero n start lo lo' (_ ∷ _) r h s bl br = absurd (omega arith)
fold_region-Folds (suc fuel) n start lo lo' l r h s bl br =
    let (jl, gl, nl, al, yl, zl) = absorb-Absorbs n start lo l s bl in
    let (jr, gr, nr, ar, yr, zr) = absorb-Absorbs n (absorb start l).2 lo' r nl br in
    let tl = (absorb start l).0 in
    let tr = (absorb (absorb start l).2 r).0 in
    let ll = (absorb start l).1 in
    let lr = (absorb (absorb start l).2 r).1 in
    elim (Bool-cases (is_empty tl && is_empty tr)) [
      | inl idle ↦
          let (bl', el) = idle-Beyond n start l (absorb-Absorbs n start lo l s bl) (ground arith) in
          let (br', er) =
            idle-Beyond n (absorb start l).2 r (absorb-Absorbs n (absorb start l).2 lo' r nl br)
              (ground arith) in
          rw (idle, fold_region)
            (nothing_taken n start 0 l r s bl' (subst (λ i. Beyond i r) el br'))
      | inr busy ↦
          let (lo₁, b₁) = Between-later lo n tl ll (subst (Between lo n) (sym jl) bl) in
          let (lo₂, b₂) = Between-later lo' n tr lr (subst (Between lo' n) (sym jr) br) in
          let fewer : length ll + length lr ≤ fuel = omega (
            arith,
            length_of_busy tl tr busy,
            length-append tl ll,
            length-append tr lr,
            ap length jl,
            ap length jr,
          ) in
          rw (busy, fold_region)
            (subst₂
              (λ l' r'.
                Folds n start l' r'
                  (grow tl tr (fold_region fuel (absorb (absorb start l).2 r).2 ll lr)))
              jl jr
              (grow-Folds n start (absorb (absorb start l).2 r).2 tl ll tr lr _ (omega arith)
                (All-end _ _ tl gr al) ar
                (fold_region-Folds fuel n (absorb (absorb start l).2 r).2 lo₁ lo₂ ll lr fewer nr b₁
                  b₂)))
    ]

drop_none : (k : ℕ) → drop {A = Bytes} k [] ≡ []
drop_none zero = refl
drop_none (suc k) = refl

take_none : (k : ℕ) → take {A = Bytes} k [] ≡ []
take_none zero = refl
take_none (suc k) = refl

drop-drop : (a b : ℕ) (xs : List Bytes) → drop a (drop b xs) ≡ drop (b + a) xs
drop-drop a zero xs = ap (λ k. drop k xs) (let z : a ≡ 0 + a = omega arith in z)
drop-drop a (suc b) [] = drop_none a ∙ sym (drop_none (suc b + a))
drop-drop a (suc b) (x ∷ xs) =
    drop-drop a b xs
    ∙ ap (λ k. drop k (x ∷ xs)) (let z : suc (b + a) ≡ suc b + a = omega arith in z)

take_split : (a b : ℕ) (xs : List Bytes) → take (a + b) xs ≡ take a xs ++ take b (drop a xs)
take_split zero b xs = ap (λ k. take k xs) (let z : zero + b ≡ b = omega arith in z)
take_split (suc a) b [] = take_none (suc a + b) ∙ sym (take_none b)
take_split (suc a) b (x ∷ xs) =
    ap (λ k. take k (x ∷ xs)) (let z : suc a + b ≡ suc (a + b) = omega arith in z)
    ∙ ap (λ t. x ∷ t) (take_split a b xs)

module _ (base : List Bytes) where
  drop_on : (c k : ℕ) → c ≤ k → drop (k - c) (drop c base) ≡ drop k base
  drop_on c k h =
      drop-drop (k - c) c base ∙ ap (λ i. drop i base) (let z : c + (k - c) ≡ k = omega arith in z)

  slice_on : (c k s : ℕ) → c ≤ k → k ≤ s → slice base c s ≡ slice base c k ++ slice base k s
  slice_on c k s h h' =
      ap (λ i. take i (drop c base)) (let z : s - c ≡ (k - c) + (s - k) = omega arith in z)
      ∙ take_split (k - c) (s - k) (drop c base)
      ∙ ap (λ t. slice base c k ++ take (s - k) t) (drop_on c k h)

  -- The base is a slice and what follows it.
  pub drop-slice : (c k : ℕ) → c ≤ k → drop c base ≡ slice base c k ++ drop k base
  drop-slice c k h =
      sym (take-append-drop (k - c) (drop c base)) ∙ ap (λ t. slice base c k ++ t) (drop_on c k h)

  -- Lines that no edit touches come out as they are.
  pub apply_edits-slice :
      (c k n : ℕ) (es : List Edit)
      → c ≤ k
      → Starts k es
      → Between c n es
      → apply_edits c (drop c base) es ≡ slice base c k ++ apply_edits k (drop k base) es
  unfolding apply_edits
  apply_edits-slice c k n [] h y b = drop-slice c k h
  apply_edits-slice c k n (e ∷ es) h y (p, q, r, b) =
      ap₂ (λ s t. s ++ (e.lines ++ apply_edits e.a_end t es)) (slice_on c k e.a_start h y)
        (drop_on c e.a_end (omega arith) ∙ sym (drop_on k e.a_end (omega arith)))
      ∙ append_assoc (slice base c k) (slice base k e.a_start) _

  -- `build` writes the edited lines of the region.
  pub apply_edits-build :
      (c k n : ℕ) (t es : List Edit)
      → c ≤ k
      → All (λ e. e.a_end ≤ k) t
      → Starts k es
      → Between c n (t ++ es)
      → apply_edits c (drop c base) (t ++ es) ≡ build base c t k ++ apply_edits k (drop k base) es
  unfolding apply_edits build
  apply_edits-build c k n [] es h a y b = apply_edits-slice c k n es h y b
  apply_edits-build c k n (e ∷ t) es h (le, a) y (p, q, r, b) =
      ap (λ s. slice base c e.a_start ++ (e.lines ++ s))
        (ap (λ s. apply_edits e.a_end s (t ++ es)) (drop_on c e.a_end (omega arith))
          ∙ apply_edits-build e.a_end k n t es le a y
              (Between-weaken e.a_end (e.a_end + 1) n (t ++ es) (omega arith) b))
      ∙ ap (λ s. slice base c e.a_start ++ s)
          (sym (append_assoc e.lines (build base e.a_end t k) _))
      ∙ sym (append_assoc (slice base c e.a_start) (e.lines ++ build base e.a_end t k) _)

pub Between-left :
    (c n k : ℕ) (t es : List Edit) → Between c n (t ++ es) → Starts k es → Between k n es
Between-left c n k [] [] b y = tt
Between-left c n k [] (e ∷ es) (p, q, r, b) y = (y, q, r, b)
Between-left c n k (e ∷ t) es (p, q, r, b) y = Between-left (e.a_end + 1) n k t es b y
