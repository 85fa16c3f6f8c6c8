-- ===== src/LocalDb/Texts.antt =====
-- plugin/src/LocalDb.cpp: `Stmt::bind` hands SQLite a C string and `colText` reads one, so a text is cut at its first NUL.
use notepadpp_sync.Prelude.{
  ◌≡◌, refl, ap, ◌∙◌, Option, none, some, [], ◌∷◌, ◌==◌, if◌then◌else◌, Bytes, str_eq, Bool-cases,
  inl, inr,
}
use notepadpp_sync.Prelude.Map.{IsSorted}
use notepadpp_sync.VersionVector.Json.{to_json}
use notepadpp_sync.VersionVector.RoundTrip.{IsWritable}
use notepadpp_sync.LocalDb.{LocalFileState, FileRow, LocalDb, upsert, upsert_file, get_file}
use notepadpp_sync.LocalDb.Files.{get_file-upsert_file}

-- What SQLite is given of a text.
unfoldable pub bound : Bytes → Bytes
bound [] = []
bound (c ∷ s) = let rest = bound s in if c == 0 then [] else c ∷ rest

-- The state of which SQLite is given every text whole.
unfoldable pub bound_state : LocalFileState → LocalFileState
bound_state f = record f {
  file_id = bound f.file_id;
  sync_root = bound f.sync_root;
  rel_path = bound f.rel_path;
  local_hash = bound f.local_hash;
  remote_hash = bound f.remote_hash;
}

-- `upsertFile` of any state.
unfoldable pub bound_upsert_file : LocalFileState → LocalDb → LocalDb
bound_upsert_file f db =
    let row : FileRow = record {
      state = bound_state f;
      vector_text = bound (to_json f.version_vector);
    } in
    record db {
      files = upsert (λ r. str_eq r.state.rel_path (bound f.rel_path)) (λ _. row) row db.files;
    }

-- The row that was found, under the path that was asked for.
unfoldable pub under_path : Bytes → Option LocalFileState → Option LocalFileState
under_path path none = none
under_path path (some f) = some (record f { rel_path = path })

-- `getFile` of any path.
unfoldable pub bound_get_file : LocalDb → Bytes → Option LocalFileState
bound_get_file db path = under_path path (get_file db (bound path))

upsert_bound :
    (f : LocalFileState) (db : LocalDb)
    → bound (to_json f.version_vector) ≡ to_json f.version_vector
    → bound_upsert_file f db ≡ upsert_file (bound_state f) db
unfolding bound_upsert_file upsert_file bound_state
upsert_bound f db e = rw (bound_upsert_file, e) refl

-- After `upsertFile` of a state whose vector has its keys in order and can be written as a text without a NUL, `getFile`
-- of any path that agrees with the state's up to the first NUL returns the state under the path that was
-- asked for, each of its other texts cut at its first NUL; for any other path it returns what it returned before.
pub bound_get_file-bound_upsert_file :
    (f : LocalFileState) (db : LocalDb) (path : Bytes)
    → IsSorted f.version_vector
    → IsWritable f.version_vector
    → bound (to_json f.version_vector) ≡ to_json f.version_vector
    → bound_get_file (bound_upsert_file f db) path ≡ (
        if str_eq (bound path) (bound f.rel_path)
        then some (record (bound_state f) { rel_path = path })
        else bound_get_file db path)
unfolding bound_get_file bound_state under_path
bound_get_file-bound_upsert_file f db path sorted writable whole =
    ap (λ d. under_path path (get_file d (bound path))) (upsert_bound f db whole)
    ∙ ap (under_path path) (get_file-upsert_file (bound_state f) db (bound path) sorted writable)
    ∙ choice
  where
    choice :
        under_path path (
          if str_eq (bound path) (bound f.rel_path)
          then some (bound_state f)
          else get_file db (bound path))
        ≡ (if str_eq (bound path) (bound f.rel_path)
            then some (record (bound_state f) { rel_path = path })
            else under_path path (get_file db (bound path)))
    choice = elim (Bool-cases (str_eq (bound path) (bound f.rel_path))) [
      | inl e ↦ rw e refl
      | inr e ↦ rw e refl
    ]
