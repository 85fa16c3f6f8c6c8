-- ===== src/LocalDb/Files.antt =====
-- plugin/src/LocalDb.cpp: what is read from `files` after a write.
use notepadpp_sync.Prelude.{
  ◌≡◌, refl, Bool, none, some, List, [], ◌∷◌, arith, if◌then◌else◌, Bytes, str_eq, str_eq_iff,
}
use notepadpp_sync.Prelude.Map.{IsSorted}
use notepadpp_sync.VersionVector.Json.{to_json}
use notepadpp_sync.VersionVector.RoundTrip.{IsWritable, from_json-to_json}
use notepadpp_sync.LocalDb.{
  LocalFileState, FileRow, LocalDb, upsert, select_row, delete_rows, read_row, upsert_file,
  get_file, remove_file,
}

abbrev has_path : Bytes → FileRow → Bool
has_path path r = str_eq r.state.rel_path path

select_row-upsert :
    (path key : Bytes) (row : FileRow) (rows : List FileRow)
    → row.state.rel_path ≡ key
    → select_row (has_path path) (upsert (has_path key) (λ _. row) row rows)
      ≡ (if str_eq path key then some row else select_row (has_path path) rows)
unfolding select_row upsert
select_row-upsert path key row [] e =
    ground (arith, str_eq_iff path key, str_eq_iff row.state.rel_path path)
select_row-upsert path key row (r ∷ rows) e = ground (
  arith,
  str_eq_iff path key,
  str_eq_iff row.state.rel_path path,
  str_eq_iff r.state.rel_path path,
  str_eq_iff r.state.rel_path key,
  select_row-upsert path key row rows e,
)

select_row-delete_rows :
    (path key : Bytes) (rows : List FileRow)
    → select_row (has_path path) (delete_rows (has_path key) rows)
      ≡ (if str_eq path key then none else select_row (has_path path) rows)
unfolding select_row delete_rows
select_row-delete_rows path key [] = ground arith
select_row-delete_rows path key (r ∷ rows) = ground (
  arith,
  str_eq_iff path key,
  str_eq_iff r.state.rel_path path,
  str_eq_iff r.state.rel_path key,
  select_row-delete_rows path key rows,
)

read_written :
    (f : LocalFileState)
    → IsSorted f.version_vector
    → IsWritable f.version_vector
    → read_row (record { state = f; vector_text = to_json f.version_vector }) ≡ some f
unfolding read_row
read_written f h w = rw (read_row, from_json-to_json f.version_vector h w)

-- After `upsertFile` of a state whose vector has its keys in order and can be written as text, `getFile`
-- returns that state for its path, and for every other path what it returned before.
pub get_file-upsert_file :
    (f : LocalFileState) (db : LocalDb) (path : Bytes)
    → IsSorted f.version_vector
    → IsWritable f.version_vector
    → get_file (upsert_file f db) path
      ≡ (if str_eq path f.rel_path then some f else get_file db path)
unfolding get_file upsert_file
get_file-upsert_file f db path h w = ground (
  arith,
  select_row-upsert path f.rel_path (record { state = f; vector_text = to_json f.version_vector })
      db.files refl,
  read_written f h w,
)

-- After `removeFile`, `getFile` returns nothing for that path, and what it returned before for the others.
pub get_file-remove_file :
    (key : Bytes) (db : LocalDb) (path : Bytes)
    → get_file (remove_file key db) path ≡ (if str_eq path key then none else get_file db path)
unfolding get_file remove_file
get_file-remove_file key db path = ground (arith, select_row-delete_rows path key db.files)
