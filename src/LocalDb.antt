-- ===== src/LocalDb.antt =====
-- plugin/src/LocalDb.h and LocalDb.cpp: the local state. A table is the list of its rows in the order of
-- their row ids; SQLite is taken by what its statements are documented to do, and a statement that fails
-- is not modelled. The clock is an argument. A text is kept as a C string: the operations here are those of texts that
-- hold no NUL.
pub mod Files
pub mod Texts
pub mod Queue
pub mod Rows
pub mod Reachable
mod Tests
use notepadpp_sync.Prelude.{
  ℕ, ◌+◌, Bool, true, false, ◌&&◌, not, Option, none, some, List, [], ◌∷◌, ◌++◌, ◌==◌,
  if◌then◌else◌, length, Bytes, codes, str_eq, leb,
}
use notepadpp_sync.VersionVector.{VersionVector}
use notepadpp_sync.VersionVector.Json.{val_max, to_json, from_json, to_string}
use notepadpp_sync.Integers.{ℤ, pos, int_of}

-- `LocalFileState`
pub record LocalFileState : Type 0 where
  pub file_id : Bytes
  pub sync_root : Bytes
  pub rel_path : Bytes
  pub local_hash : Bytes
  pub remote_hash : Bytes
  pub remote_version : ℕ
  pub version_vector : VersionVector
  pub deleted : Bool
  pub modified_at_local : ℕ

-- A row of `files`: the vector is stored as its text, behind the rest of the state.
pub record FileRow : Type 0 where
  pub state : LocalFileState
  pub vector_text : Bytes

-- `PendingOp`
pub record PendingOp : Type 0 where
  pub id : ℕ
  pub kind : Bytes
  pub op_path : Bytes
  pub new_rel_path : Bytes
  pub queued_at : ℕ
  pub retry_count : ℕ
  pub last_error : Bytes

-- `ConflictState`
pub record ConflictState : Type 0 where
  pub conflict_file : Bytes
  pub conflict_path : Bytes
  pub conflict_version : ℕ
  pub local_copy_path : Bytes
  pub remote_blob_hash : Bytes
  pub detected_at : ℕ

-- A row of `sync_roots`.
pub record SyncRoot : Type 0 where
  pub root_id : Bytes
  pub abs_path : Bytes
  pub is_folder : Bool

-- The tables. `next_id` is the next id of `pending_ops`, whose key is AUTOINCREMENT.
pub record LocalDb : Type 0 where
  pub meta : List (Bytes × Bytes)
  pub sync_roots : List SyncRoot
  pub files : List FileRow
  pub pending_ops : List PendingOp
  pub next_id : ℕ
  pub conflicts : List ConflictState

module _ {ℓ} {A : Type ℓ} where
  -- `INSERT ... ON CONFLICT(key) DO UPDATE`: the row with the key is changed, or a row is added.
  unfoldable pub upsert : (A → Bool) → (A → A) → A → List A → List A
  upsert is_key change row [] = row ∷ []
  upsert is_key change row (r ∷ rows) =
      let rest = upsert is_key change row rows in if is_key r then change r ∷ rows else r ∷ rest

  -- `SELECT ... WHERE key=?`: the first row.
  unfoldable pub select_row : (A → Bool) → List A → Option A
  select_row is_key [] = none
  select_row is_key (r ∷ rows) =
      let rest = select_row is_key rows in if is_key r then some r else rest

  -- `DELETE ... WHERE`
  unfoldable pub delete_rows : (A → Bool) → List A → List A
  delete_rows goes [] = []
  delete_rows goes (r ∷ rows) =
      let rest = delete_rows goes rows in if goes r then rest else r ∷ rest

  -- `UPDATE ... WHERE`
  unfoldable pub update_rows : (A → Bool) → (A → A) → List A → List A
  update_rows is_key change [] = []
  update_rows is_key change (r ∷ rows) =
      (if is_key r then change r else r) ∷ update_rows is_key change rows

-- `setMeta`
unfoldable pub set_meta : Bytes → Bytes → LocalDb → LocalDb
set_meta key value db = record db {
  meta = upsert (λ (k, _). str_eq k key) (λ (k, _). (k, value)) (key, value) db.meta;
}

-- `getMeta`
unfoldable pub get_meta : LocalDb → Bytes → Option Bytes
get_meta db key = elim (select_row (λ (k, _). str_eq k key) db.meta) [
  | none ↦ none
  | some (k, v) ↦ some v
]

-- `addSyncRoot`, with the path as it is read back from UTF-8: a root that is there keeps `is_folder`.
unfoldable pub add_sync_root : Bytes → Bytes → Bool → LocalDb → LocalDb
add_sync_root id path folder db = record db {
  sync_roots =
      upsert (λ r. str_eq r.root_id id) (λ r. record r { abs_path = path })
        (record { root_id = id; abs_path = path; is_folder = folder }) db.sync_roots;
}

-- `removeSyncRoot`
unfoldable pub remove_sync_root : Bytes → LocalDb → LocalDb
remove_sync_root id db = record db {
  sync_roots = delete_rows (λ r. str_eq r.root_id id) db.sync_roots;
}

unfoldable pub roots_where : Bool → List SyncRoot → List (Bytes × Bytes)
roots_where folder [] = []
roots_where folder (r ∷ rows) =
    let rest = roots_where folder rows in
    if (if r.is_folder then folder else not folder) then (r.root_id, r.abs_path) ∷ rest else rest

-- `listSyncRoots` and `listSyncFiles`
unfoldable pub list_sync_roots : LocalDb → List (Bytes × Bytes)
list_sync_roots db = roots_where true db.sync_roots

unfoldable pub list_sync_files : LocalDb → List (Bytes × Bytes)
list_sync_files db = roots_where false db.sync_roots

-- `upsertFile` of a state whose texts hold no NUL; those of others are cut first, as in LocalDb/Texts.
unfoldable pub upsert_file : LocalFileState → LocalDb → LocalDb
upsert_file f db =
    let row : FileRow = record { state = f; vector_text = to_json f.version_vector } in
    record db { files = upsert (λ r. str_eq r.state.rel_path f.rel_path) (λ _. row) row db.files }

-- A row as it is read: the vector comes from its text, `none` where a counter overflows.
unfoldable pub read_row : FileRow → Option LocalFileState
read_row r = elim (from_json r.vector_text) [
  | none ↦ none
  | some vv ↦ some (record r.state { version_vector = vv })
]

-- `getFile`
unfoldable pub get_file : LocalDb → Bytes → Option LocalFileState
get_file db path = elim (select_row (λ r. str_eq r.state.rel_path path) db.files) [
  | none ↦ none
  | some r ↦ read_row r
]

unfoldable pub read_rows : List FileRow → Option (List LocalFileState)
read_rows [] = some []
read_rows (r ∷ rows) =
    let rest = read_rows rows in
    elim (read_row r) [ none ↦ none | some f ↦ elim rest [ none ↦ none | some fs ↦ some (f ∷ fs) ] ]

-- `allFiles`
unfoldable pub all_files : LocalDb → Option (List LocalFileState)
all_files db = read_rows db.files

-- `removeFile`
unfoldable pub remove_file : Bytes → LocalDb → LocalDb
remove_file path db = record db { files = delete_rows (λ r. str_eq r.state.rel_path path) db.files }

-- `updateRemoteState`
unfoldable pub update_remote_state : Bytes → Bytes → ℕ → VersionVector → LocalDb → LocalDb
update_remote_state path hash version vv db = record db {
  files =
      update_rows (λ r. str_eq r.state.rel_path path)
        (λ r. record {
          state = record r.state {
            remote_hash = hash;
            remote_version = version;
            version_vector = vv;
          };
          vector_text = to_json vv;
        })
        db.files;
}

-- `updateLocalHash`
unfoldable pub update_local_hash : Bytes → Bytes → ℕ → LocalDb → LocalDb
update_local_hash path hash mtime db = record db {
  files =
      update_rows (λ r. str_eq r.state.rel_path path)
        (λ r. record r { state = record r.state { local_hash = hash; modified_at_local = mtime } })
        db.files;
}

-- The rows that `enqueueOp` deletes: same path and same kind.
unfoldable pub same_op : Bytes → Bytes → PendingOp → Bool
same_op kind path o = str_eq o.op_path path && str_eq o.kind kind

-- `enqueueOp` of an operation of a kind on a path, at a time.
unfoldable pub enqueue_op : Bytes → Bytes → Bytes → ℕ → LocalDb → LocalDb
enqueue_op kind path new_path now db = record db {
  pending_ops =
      delete_rows (same_op kind path) db.pending_ops
      ++ record {
        id = db.next_id;
        kind = kind;
        op_path = path;
        new_rel_path = new_path;
        queued_at = now;
        retry_count = 0;
        last_error = [];
      }
        ∷ [];
  next_id = db.next_id + 1;
}

-- `removeOp`
unfoldable pub remove_op : ℕ → LocalDb → LocalDb
remove_op id db = record db { pending_ops = delete_rows (λ o. o.id == id) db.pending_ops }

-- `markOpFailed`
unfoldable pub mark_op_failed : ℕ → Bytes → LocalDb → LocalDb
mark_op_failed id err db = record db {
  pending_ops =
      update_rows (λ o. o.id == id)
        (λ o. record o { retry_count = o.retry_count + 1; last_error = err }) db.pending_ops;
}

-- `pendingOpCount`
unfoldable pub pending_op_count : LocalDb → ℕ
pending_op_count db = length db.pending_ops

-- `addConflict`: a conflict that is there keeps its path.
unfoldable pub add_conflict : ConflictState → ℕ → LocalDb → LocalDb
add_conflict c now db = record db {
  conflicts =
      upsert (λ r. str_eq r.conflict_file c.conflict_file)
        (λ r. record c { conflict_path = r.conflict_path; detected_at = now })
        (record c { detected_at = now }) db.conflicts;
}

-- `resolveConflict`
unfoldable pub resolve_conflict : Bytes → LocalDb → LocalDb
resolve_conflict file db = record db {
  conflicts = delete_rows (λ r. str_eq r.conflict_file file) db.conflicts;
}

-- `conflictCount`
unfoldable pub conflict_count : LocalDb → ℕ
conflict_count db = length db.conflicts

-- `setLastChangeSeq`
unfoldable pub set_last_change_seq : ℕ → LocalDb → LocalDb
set_last_change_seq seq db = set_meta (codes "last_change_seq") (to_string seq) db

-- `pendingOps`: the ids rise along the table.
unfoldable pub list_pending_ops : LocalDb → List PendingOp
list_pending_ops db = db.pending_ops

-- `lastChangeSeq`: 0 where there is none or `std::stoll` throws.
unfoldable pub last_change_seq : LocalDb → ℤ
last_change_seq db = elim (get_meta db (codes "last_change_seq")) [
  | none ↦ pos 0
  | some v ↦ elim (int_of val_max v) [ none ↦ pos 0 | some n ↦ n ]
]

-- `ORDER BY detected_at DESC`; of conflicts at one time the order is open, here that of the table.
unfoldable pub insert_conflict : ConflictState → List ConflictState → List ConflictState
insert_conflict c [] = c ∷ []
insert_conflict c (d ∷ ds) =
    let rest = insert_conflict c ds in
    if leb d.detected_at c.detected_at then c ∷ d ∷ ds else d ∷ rest

unfoldable pub latest_first : List ConflictState → List ConflictState
latest_first [] = []
latest_first (c ∷ cs) = insert_conflict c (latest_first cs)

-- `conflicts`
unfoldable pub list_conflicts : LocalDb → List ConflictState
list_conflicts db = latest_first db.conflicts
