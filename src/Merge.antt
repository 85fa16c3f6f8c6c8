-- ===== src/Merge.antt =====
-- plugin/src/core/Merge.h and Merge.cpp: the three-way merge of texts by lines. A line is its bytes.
pub mod Diff
pub mod Apply
pub mod Folds
pub mod Laws
pub mod Lines
pub mod Region
pub mod Spec
pub mod Sweep
mod Tests
use notepadpp_sync.Prelude.{
  ℕ, zero, suc, ◌+◌, ◌-◌, ◌*◌, Bool, true, false, ◌&&◌, ◌||◌, Option, none, some, List, [], ◌∷◌,
  ◌++◌, ltb, leb, ◌==◌, if◌then◌else◌, length, drop, take, Bytes, str_eq, min, max,
}
use Diff.{Edit, diff_lines}
use Region.{MergeHunk, Output, sweep}

-- `MergeResult`
pub record MergeResult : Type 0 where
  pub clean : Bool
  pub merged : Bytes
  pub hunks : List MergeHunk

-- The count of `\r\n` and of lone `\n`; the flag is `text[i - 1] == '\r'`.
unfoldable pub count_eols : Bytes → Bool → ℕ → ℕ → ℕ × ℕ
count_eols [] cr crlf lf_only = (crlf, lf_only)
count_eols (c ∷ s) cr crlf lf_only =
    count_eols s (c == b'\r') (if c == b'\n' && cr then crlf + 1 else crlf)
      (if c == b'\n' && (if cr then false else true) then lf_only + 1 else lf_only)

-- The end of line that `splitLines` reports.
unfoldable pub dominant_eol : Bytes → Bytes
dominant_eol text =
    let (crlf, lf_only) = count_eols text false 0 0 in
    if leb lf_only crlf then b'\r' ∷ b'\n' ∷ [] else b'\n' ∷ []

-- A line without the `\r` at its end.
unfoldable pub drop_cr : Bytes → Bytes
drop_cr [] = []
drop_cr (c ∷ []) = if c == b'\r' then [] else c ∷ []
drop_cr (c ∷ d ∷ s) = c ∷ drop_cr (d ∷ s)

-- `text.substr(start, i - start)` is `cur`.
unfoldable pub split_loop : Bytes → Bytes → List Bytes
split_loop [] [] = []
split_loop [] (d ∷ cur) = (d ∷ cur) ∷ []
split_loop (c ∷ s) cur =
    let cut = drop_cr cur ∷ split_loop s [] in
    let go_on = split_loop s (cur ++ c ∷ []) in if c == b'\n' then cut else go_on

-- The lines that `splitLines` returns.
unfoldable pub split_lines : Bytes → List Bytes
split_lines text = split_loop text []

-- The merge of the lines, from the edits of both sides.
unfoldable pub merge_lines : Bytes → List Bytes → List Edit → List Edit → MergeResult
merge_lines eol base l r =
    let o =
      sweep (length l + length r) eol base 0 l r
        (record { out = []; hunks = []; conflict = false }) in
    if o.conflict
    then record { clean = false; merged = []; hunks = o.hunks }
    else record { clean = true; merged = o.out; hunks = o.hunks }

abbrev pub clean_result : Bytes → MergeResult
clean_result text = record { clean = true; merged = text; hunks = [] }

abbrev pub too_large : MergeResult
too_large = record { clean = false; merged = []; hunks = [] }

unfoldable pub merge_edits :
    Bytes → List Bytes → Option (List Edit) → Option (List Edit) → MergeResult
merge_edits eol base none r = too_large
merge_edits eol base (some l) none = too_large
merge_edits eol base (some l) (some r) = merge_lines eol base l r

-- `ThreeWayMerge::merge`
unfoldable pub merge : Bytes → Bytes → Bytes → MergeResult
merge base local remote =
    if str_eq local remote
    then clean_result local
    else if str_eq local base
    then clean_result remote
    else if str_eq remote base
    then clean_result local
    else let base_lines = split_lines base in
      merge_edits (dominant_eol base) base_lines (diff_lines base_lines (split_lines local))
        (diff_lines base_lines (split_lines remote))
