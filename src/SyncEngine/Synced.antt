-- ===== src/SyncEngine/Synced.antt =====
-- plugin/src/SyncEngine.cpp: `applyRemoteFile` writes to the user's folders and files only.
use mathlib.Core.Option.{some-injective}
use notepadpp_sync.Prelude.{
  map, ◌≢◌, ap, ◌++◌, replace, ◌≡◌, ◌⊎◌, sym, ◌∙◌, subst, Bool, true, ◌&&◌, some, List, [], ◌∷◌,
  arith, Bytes, codes, str_eq, All, All-mono, Option-cases, Bool-cases, inl, inr,
}
use notepadpp_sync.PathUtil.Segments.{below, IsSafe-segments, replace-join_segments}
use notepadpp_sync.PathUtil.Normal.{IsSafe, normalize_relative-IsSafe}
use notepadpp_sync.PathUtil.{join_segments, is_inside_root, join_inside_root}
use notepadpp_sync.PathUtil.Roots.{trimmed, join_inside_root_lem}
use notepadpp_sync.LocalDb.{LocalDb, select_row, list_sync_roots, list_sync_files}
use notepadpp_sync.SyncEngine.{Env, Answer, Outcome}
use notepadpp_sync.SyncEngine.Paths.{split_colon, abs_of_parts, abs_path_for_rel, file_name_of}
use notepadpp_sync.SyncEngine.Apply.{conflict_copy, apply_remote_file}
use notepadpp_sync.SyncEngine.Safety.{target, Mapped, AllMapped, holds_of, answer_mapped}

-- A row of a list.
abbrev pub Member : Bytes × Bytes → List (Bytes × Bytes) → Type 0
Member x [] = ⊥
Member x (y ∷ ys) = (y ≡ x) ⊎ Member x ys

-- The path is the folder's and one or more segments, each with a backslash before it. Each is the conversion of one of a
-- normal path and is itself neither empty nor `.` nor `..` and has no separator, colon or control character. Of a path
-- that the conversion refuses, only the folder's with a backslash is left. By `isInsideRoot` the path lies in the
-- folder.
abbrev pub IsBelow : Env → Bytes → Bytes → Type 0
IsBelow env root abs =
    (is_inside_root env.towlower root abs ≡ true)
    × ((abs ≡ trimmed root ++ b'\\' ∷ [])
        ⊎ ((segs : List Bytes) × (segs ≢ [])
            × All IsSafe segs
            × All IsSafe (map env.utf8_to_wide segs)
            × (abs ≡ trimmed root ++ below (map env.utf8_to_wide segs))))

-- A path below one of the user's folders, or one of the user's single files.
abbrev pub IsSynced : Env → LocalDb → Bytes → Type 0
IsSynced env db abs =
    ((root : Bytes × Bytes) × Member root (list_sync_roots db) × IsBelow env root.1 abs)
    ⊎ ((file : Bytes × Bytes) × Member file (list_sync_files db) × (file.1 ≡ abs))

select_row-Member :
    (p : Bytes × Bytes → Bool) (rows : List (Bytes × Bytes)) {r : Bytes × Bytes}
    → select_row p rows ≡ some r
    → Member r rows
unfolding select_row
select_row-Member p [] e = cc
select_row-Member p (x ∷ rows) e = elim (Bool-cases (p x)) [
  | inl t ↦ inl (ground arith)
  | inr n ↦ inr (select_row-Member p rows (ground arith))
]

module _ (env : Env) (keeps : env.towlower b'\\' ≡ b'\\') (keeps' : env.towlower b'/' ≡ b'/')
    (IsUtf8 : Bytes → Type 0) (converts : (a : Bytes) → IsUtf8 a ⊎ (env.utf8_to_wide a ≡ []))
    (splits : (a b : Bytes)
      → IsUtf8 (a ++ b'/' ∷ b)
      → IsUtf8 a
        × IsUtf8 b
        × (env.utf8_to_wide (a ++ b'/' ∷ b) ≡ env.utf8_to_wide a ++ b'/' ∷ env.utf8_to_wide b))
    (keeps_safe : (seg : Bytes) → IsUtf8 seg → IsSafe seg → IsSafe (env.utf8_to_wide seg))
    (db : LocalDb) where
  joined : Bytes → Bytes → Bytes
  joined root wide = trimmed root ++ b'\\' ∷ replace b'/' b'\\' wide

  IsBelow-of_normal :
      (root norm : Bytes) (segs : List Bytes)
      → segs ≢ []
      → norm ≡ join_segments segs
      → All IsSafe segs
      → is_inside_root env.towlower root (joined root (env.utf8_to_wide norm)) ≡ true
      → IsBelow env root (joined root (env.utf8_to_wide norm))
  unfolding joined replace
  IsBelow-of_normal root norm segs ne n safe inside = elim (converts norm) [
    | inr refused ↦ (inside, inl (ap (joined root) refused))
    | inl valid ↦
        let v : IsUtf8 (join_segments segs) = subst IsUtf8 n valid in
        (
          inside,
          inr (
            segs,
            ne,
            safe,
            IsSafe-segments env.utf8_to_wide IsUtf8 splits keeps_safe segs v safe,
            ap (λ x. joined root (env.utf8_to_wide x)) n
                ∙ ap (λ x. trimmed root ++ x)
                    (replace-join_segments env.utf8_to_wide IsUtf8 splits keeps_safe segs ne v
                      safe),
          ),
        )
  ]

  joined_inside :
      (root rel abs : Bytes)
      → join_inside_root env.towlower env.utf8_to_wide root rel ≡ some abs
      → IsBelow env root abs
  unfolding joined
  joined_inside root rel abs e =
      elim (join_inside_root_lem env.towlower keeps keeps' env.utf8_to_wide root rel) [
        | inl (_, n) ↦ ground arith
        | inr (norm, q, j, inside) ↦
            let (segs, ne, n, safe) = normalize_relative-IsSafe rel norm q in
            subst (IsBelow env root) (some-injective _ abs (sym j ∙ e))
              (IsBelow-of_normal root norm segs ne n safe inside)
      ]

  parts-IsSynced :
      (root_id rel abs : Bytes) → abs_of_parts env db root_id rel ≡ some abs → IsSynced env db abs
  unfolding abs_of_parts
  parts-IsSynced root_id rel abs e =
      elim (Option-cases (select_row (λ (id, _). str_eq id root_id) (list_sync_roots db))) [
        | inr ((id, root), q) ↦ inl (
          (id, root),
          select_row-Member _ (list_sync_roots db) q,
          joined_inside root rel abs (ground arith),
        )
        | inl n ↦
            elim (Option-cases (
              select_row
                (λ (_, f).
                  str_eq root_id (codes "file") && str_eq (env.wide_to_utf8 (file_name_of f)) rel)
                (list_sync_files db))) [
                  | inl n' ↦ ground arith
                  | inr ((id, f), q) ↦
                      inr ((id, f), select_row-Member _ (list_sync_files db) q, ground arith)
                ]
      ]

  key-IsSynced : (key abs : Bytes) → abs_path_for_rel env db key ≡ some abs → IsSynced env db abs
  unfolding abs_path_for_rel
  key-IsSynced key abs e = elim (Option-cases (split_colon key)) [
    | inl n ↦ ground arith
    | inr ((root_id, rel), q) ↦ parts-IsSynced root_id rel abs (ground arith)
  ]

  -- Where `towlower` keeps both slashes, and the conversion to UTF-16 gives nothing for a text that is not UTF-8, and of one
  -- that is converts the sides of a slash by themselves and makes no segment empty, `.` or `..` and brings no separator,
  -- colon or control character into one: whatever the server answers, where `applyRemoteFile` returns, each write,
  -- deletion, backup, new folder and notification of it is about a path P or about the conflict copy beside it, where
  -- P is one of the user's single files, or lies by `isInsideRoot` in one of the user's folders and is that folder and
  -- one or more segments, each with a backslash before it, none of them empty, `.` or `..` or with a separator, a colon
  -- or a control character, or, for a text that is not UTF-8, that folder and a backslash.
  pub apply_remote_file-IsSynced :
      (file_id : Bytes) (a : Answer) (out : Outcome)
      → apply_remote_file env file_id a db ≡ some out
      → All
          (λ e.
            (abs : Bytes) × IsSynced env db abs
            × ((target e ≡ abs) ⊎ (target e ≡ conflict_copy abs)))
          out.effects
  apply_remote_file-IsSynced file_id a out e =
      All-mono (Mapped env db)
        (λ e.
          (abs : Bytes) × IsSynced env db abs × ((target e ≡ abs) ⊎ (target e ≡ conflict_copy abs)))
        (λ f (key, abs, m, t). (abs, key-IsSynced key abs m, t)) out.effects
        (holds_of (AllMapped env db) (apply_remote_file env file_id a db) out
          (answer_mapped env file_id a db) e)
