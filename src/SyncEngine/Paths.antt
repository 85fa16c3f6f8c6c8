-- ===== src/SyncEngine/Paths.antt =====
-- plugin/src/SyncEngine.cpp: `fileNameOf`, `dirOf`, `absPathForRel`, and the key of a remote file.
use notepadpp_sync.Prelude.{
  Bool, false, ◌&&◌, ◌||◌, Option, none, some, List, [], ◌∷◌, ◌++◌, ◌==◌, if◌then◌else◌, Bytes,
  codes, str_eq,
}
use notepadpp_sync.PathUtil.{join_inside_root}
use notepadpp_sync.LocalDb.{LocalDb, LocalFileState, select_row, list_sync_roots, list_sync_files}
use notepadpp_sync.SyncEngine.{Env}

unfoldable pub has_separator : Bytes → Bool
has_separator [] = false
has_separator (c ∷ s) = c == b'\\' || c == b'/' || has_separator s

-- `fileNameOf`
unfoldable pub file_name_of : Bytes → Bytes
unfolding has_separator
file_name_of [] = []
file_name_of (c ∷ s) =
    let rest = file_name_of s in
    if has_separator s then rest else if c == b'\\' || c == b'/' then s else c ∷ s

-- `dirOf`
unfoldable pub dir_of : Bytes → Bytes
unfolding has_separator
dir_of [] = []
dir_of (c ∷ s) =
    let rest = dir_of s in
    if has_separator s then c ∷ rest else if c == b'\\' || c == b'/' then [] else c ∷ s

-- The text before the first colon and behind it.
unfoldable pub split_colon : Bytes → Option (Bytes × Bytes)
split_colon [] = none
split_colon (c ∷ s) =
    let rest = split_colon s in
    if c == b':' then some ([], s) else elim rest [ none ↦ none | some (a, b) ↦ some (c ∷ a, b) ]

module _ (env : Env) where
  -- The two loops of `absPathForRel`.
  unfoldable pub abs_of_parts : LocalDb → Bytes → Bytes → Option Bytes
  abs_of_parts db root_id rel =
      elim (select_row (λ (id, _). str_eq id root_id) (list_sync_roots db)) [
        | some (_, root) ↦ join_inside_root env.towlower env.utf8_to_wide root rel
        | none ↦
            elim (select_row
              (λ (_, f).
                str_eq root_id (codes "file") && str_eq (env.wide_to_utf8 (file_name_of f)) rel)
              (list_sync_files db)) [ none ↦ none | some (_, f) ↦ some f ]
      ]

  -- `absPathForRel`
  unfoldable pub abs_path_for_rel : LocalDb → Bytes → Option Bytes
  abs_path_for_rel db key = elim (split_colon key) [
    | none ↦ none
    | some (root_id, rel) ↦ abs_of_parts db root_id rel
  ]

  -- The loop over the known files: the first key that has the path behind its colon.
  unfoldable pub known_key : List LocalFileState → Bytes → Option Bytes
  known_key [] norm = none
  known_key (f ∷ fs) norm =
      let rest = known_key fs norm in
      elim (split_colon f.rel_path) [
        | none ↦ rest
        | some (_, rel) ↦ if str_eq rel norm then some f.rel_path else rest
      ]

  -- `chosen`: the id of the first root that the path can be joined to, else empty.
  unfoldable pub first_joining : List (Bytes × Bytes) → Bytes → Bytes
  first_joining [] norm = []
  first_joining ((id, root) ∷ roots) norm =
      let rest = first_joining roots norm in
      elim (join_inside_root env.towlower env.utf8_to_wide root norm) [ none ↦ rest | some _ ↦ id ]

  -- The key of a file that is not known; `none` without roots.
  unfoldable pub new_key : List (Bytes × Bytes) → Bytes → Option Bytes
  new_key [] norm = none
  new_key ((id, root) ∷ roots) norm =
      let chosen = first_joining ((id, root) ∷ roots) norm in
      some ((if str_eq chosen [] then id else chosen) ++ b':' ∷ norm)
