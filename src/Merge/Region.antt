-- ===== src/Merge/Region.antt =====
-- plugin/src/core/Merge.cpp: the loop of `ThreeWayMerge::merge` over the edits of both sides. An index
-- into a list of edits is the list of the edits from there on.
use notepadpp_sync.Prelude.{
  ℕ, zero, suc, ◌+◌, ◌-◌, Bool, true, false, ◌&&◌, List, [], ◌∷◌, ◌++◌, leb, if◌then◌else◌, length,
  drop, take, Bytes, str_eq, min, max,
}
use notepadpp_sync.Merge.Diff.{Edit}

-- `MergeHunk`
pub record MergeHunk : Type 0 where
  pub local_lines : List Bytes
  pub remote_lines : List Bytes

-- `appendLines`
unfoldable pub append_lines : Bytes → Bytes → List Bytes → Bytes
append_lines eol out [] = out
append_lines eol out (l ∷ ls) = append_lines eol (out ++ (l ++ eol)) ls

unfoldable pub lines_eq : List Bytes → List Bytes → Bool
lines_eq [] [] = true
lines_eq [] (_ ∷ _) = false
lines_eq (_ ∷ _) [] = false
lines_eq (a ∷ as') (b ∷ bs) = str_eq a b && lines_eq as' bs

unfoldable pub is_empty : List Edit → Bool
is_empty [] = true
is_empty (_ ∷ _) = false

-- `baseSlice(a, b)`
abbrev pub slice : List Bytes → ℕ → ℕ → List Bytes
slice base a b = take (b - a) (drop a base)

-- One of the inner loops: the edits that start within the region, those left, and the region's end.
unfoldable pub absorb : ℕ → List Edit → List Edit × List Edit × ℕ
absorb region_end [] = ([], [], region_end)
absorb region_end (e ∷ es) =
    let (taken, left, k) = absorb (max region_end e.a_end) es in
    if leb e.a_start region_end then (e ∷ taken, left, k) else ([], e ∷ es, region_end)

-- A region and the edits behind it.
pub record Fold : Type 0 where
  pub taken_l : List Edit
  pub left_l : List Edit
  pub taken_r : List Edit
  pub left_r : List Edit
  pub region_end : ℕ

-- The edits of one round in front of those of the later rounds.
unfoldable pub grow : List Edit → List Edit → Fold → Fold
grow tl tr f = record f { taken_l = tl ++ f.taken_l; taken_r = tr ++ f.taken_r }

-- `for (;;)`: each round but the last takes an edit, so their number is enough.
unfoldable pub fold_region : ℕ → ℕ → List Edit → List Edit → Fold
fold_region zero end' l r = record {
  taken_l = [];
  left_l = l;
  taken_r = [];
  left_r = r;
  region_end = end';
}
fold_region (suc fuel) end' l r =
    let (tl, ll, k) = absorb end' l in
    let (tr, lr, k') = absorb k r in
    let more = grow tl tr (fold_region fuel k' ll lr) in
    if is_empty tl && is_empty tr
    then record { taken_l = []; left_l = l; taken_r = []; left_r = r; region_end = end' }
    else more

-- `build`
unfoldable pub build : List Bytes → ℕ → List Edit → ℕ → List Bytes
build base cursor [] region_end = slice base cursor region_end
build base cursor (e ∷ es) region_end =
    slice base cursor e.a_start ++ (e.lines ++ build base e.a_end es region_end)

-- `out`, `result.hunks` and `conflict`.
pub record Output : Type 0 where
  pub out : Bytes
  pub hunks : List MergeHunk
  pub conflict : Bool

unfoldable pub emit : Bytes → List Bytes → Output → Output
emit eol ls o = record o { out = append_lines eol o.out ls }

-- The choice between the two sides of a region.
unfoldable pub choose : Bytes → Bool → Bool → List Bytes → List Bytes → List Bytes → Output → Output
choose eol has_l has_r old rep_l rep_r o =
    if (if has_l then false else true) && (if has_r then false else true)
    then emit eol old o
    else if lines_eq rep_l rep_r
    then emit eol rep_l o
    else if (if has_r then false else true)
    then emit eol rep_l o
    else if (if has_l then false else true)
    then emit eol rep_r o
    else record o {
      conflict = true;
      hunks = o.hunks ++ (record { local_lines = rep_l; remote_lines = rep_r } ∷ []);
    }

-- `nextStart`: the least start of an edit to come. The last case is `SIZE_MAX`, which no edit has.
pub data NextStart : Type 0 where
  at_line : ℕ → NextStart
  size_max : NextStart

unfoldable pub next_start : List Edit → List Edit → NextStart
next_start [] [] = size_max
next_start [] (r ∷ _) = at_line r.a_start
next_start (l ∷ _) [] = at_line l.a_start
next_start (l ∷ _) (r ∷ _) = at_line (min l.a_start r.a_start)

-- The body of the loop for a region that starts at line `start`.
unfoldable pub region : Bytes → List Bytes → ℕ → Fold → Output → Output
region eol base start f o =
    let old = slice base start f.region_end in
    let has_l = if is_empty f.taken_l then false else true in
    let has_r = if is_empty f.taken_r then false else true in
    let rep_l = if has_l then build base start f.taken_l f.region_end else old in
    let rep_r = if has_r then build base start f.taken_r f.region_end else old in
    choose eol has_l has_r old rep_l rep_r o

-- The loop. Each round takes an edit or is the last, so the number of the edits is enough.
unfoldable pub sweep : ℕ → Bytes → List Bytes → ℕ → List Edit → List Edit → Output → Output
sweep zero eol base pos l r o = emit eol (slice base pos (length base)) o
sweep (suc fuel) eol base pos l r o = elim (next_start l r) [
  | size_max ↦ emit eol (slice base pos (length base)) o
  | at_line start ↦
      let f = fold_region (length l + length r) start l r in
      sweep fuel eol base f.region_end f.left_l f.left_r
        (region eol base start f (emit eol (slice base pos start) o))
]
