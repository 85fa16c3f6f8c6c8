-- ===== src/Merge/Diff.antt =====
-- plugin/src/core/Merge.cpp: `diffLines`. The table `dp` holds, at row `i` and column `j`, a value that
-- depends on the lines behind `i` and `j` only: `lcs` of those suffixes.
use notepadpp_sync.Prelude.{
  ℕ, ◌+◌, ◌*◌, ◌&&◌, Option, none, some, List, [], ◌∷◌, ◌++◌, ltb, leb, if◌then◌else◌, length, drop,
  get_or, replicate, Bytes, str_eq, max, ◌%◌, ◌^◌,
}

-- `base[a_start, a_end)` is replaced by `lines`.
pub record Edit : Type 0 where
  pub a_start : ℕ
  pub a_end : ℕ
  pub lines : List Bytes

-- `kMaxAutoMergeCells`
abbrev pub max_cells : ℕ
max_cells = 16000000

-- Row `i` of the table from the row below it. The cells are `uint32_t`.
unfoldable pub next_row : Bytes → List Bytes → List ℕ → List ℕ
next_row x [] below = 0 ∷ []
next_row x (y ∷ ys) below =
    let rest = next_row x ys (drop 1 below) in
    (if str_eq x y
      then (get_or below 1 0 + 1) % 2 ^ 32
      else max (get_or below 0 0) (get_or rest 0 0))
    ∷ rest

-- The rows from `i` on.
unfoldable pub table : List Bytes → List Bytes → List (List ℕ)
table [] to = replicate (length to + 1) 0 ∷ []
table (x ∷ from) to = let rows = table from to in next_row x to (get_or rows 0 []) ∷ rows

-- `at(i, j)`
unfoldable pub at : List (List ℕ) → ℕ → ℕ → ℕ
at dp i j = get_or (get_or dp i []) j 0

-- `if (!open) { open = true; cur.aStart = i; }`, where `none` stands for a region that is not open.
unfoldable pub enter : Option Edit → ℕ → Edit
enter none i = record { a_start = i; a_end = 0; lines = [] }
enter (some cur) i = cur

-- `closeRegion`, before the edits that are pushed later.
unfoldable pub close_region : Option Edit → ℕ → List Edit → List Edit
close_region none i later = later
close_region (some cur) i later = record cur { a_end = i } ∷ later

unfoldable pub insert_lines : Edit → List Bytes → Edit
insert_lines cur ls = record cur { lines = cur.lines ++ ls }

-- What follows the loop: the deletions and insertions that are left.
unfoldable pub delete_rest : Option Edit → ℕ → List Bytes → Option Edit
delete_rest cur i [] = cur
delete_rest cur i (_ ∷ _) = some (enter cur i)

unfoldable pub insert_rest : Option Edit → ℕ → List Bytes → Option Edit
insert_rest cur i [] = cur
insert_rest cur i (y ∷ ys) = some (insert_lines (enter cur i) (y ∷ ys))

unfoldable pub finish : ℕ → List Bytes → List Bytes → Option Edit → List Edit
finish i from to cur =
    let n = i + length from in close_region (insert_rest (delete_rest cur i from) n to) n []

-- The backtracking loop at `(i, j)`, where `from` and `to` are the lines from there on. The result is
-- the list of the edits that are pushed from there on.
unfoldable pub walk : List (List ℕ) → ℕ → ℕ → List Bytes → List Bytes → Option Edit → List Edit
walk dp i j [] to cur = finish i [] to cur
walk dp i j (x ∷ from) [] cur = finish i (x ∷ from) [] cur
walk dp i j (x ∷ from) (y ∷ to) cur =
    let same = close_region cur i (walk dp (i + 1) (j + 1) from to none) in
    let delete = walk dp (i + 1) j from (y ∷ to) (some (enter cur i)) in
    let insert = walk dp i (j + 1) (x ∷ from) to (some (insert_lines (enter cur i) (y ∷ []))) in
    if str_eq x y then same else if leb (at dp i (j + 1)) (at dp (i + 1) j) then delete else insert

-- `diffLines`; `none` where it sets `ok` to false.
unfoldable pub diff_lines : List Bytes → List Bytes → Option (List Edit)
diff_lines from to =
    if ltb 0 (length from) && ltb 0 (length to) && ltb max_cells (length from * length to)
    then none
    else some (walk (table from to) 0 0 from to none)
