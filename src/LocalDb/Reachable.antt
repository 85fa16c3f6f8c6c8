-- ===== src/LocalDb/Reachable.antt =====
-- plugin/src/LocalDb.cpp: the databases that calls in any order lead to.
use notepadpp_sync.Prelude.{ℕ, Bool, [], Bytes}
use notepadpp_sync.VersionVector.{VersionVector}
use notepadpp_sync.LocalDb.{
  LocalFileState, ConflictState, LocalDb, set_meta, add_sync_root, remove_sync_root, upsert_file,
  remove_file, update_remote_state, update_local_hash, enqueue_op, remove_op, mark_op_failed,
  add_conflict, resolve_conflict, set_last_change_seq,
}
use notepadpp_sync.LocalDb.Queue.{
  IsQueue, enqueue_op-IsQueue, remove_op-IsQueue, mark_op_failed-IsQueue,
}

-- The tables as `kSchema` makes them; the first id that AUTOINCREMENT gives is 1.
abbrev pub fresh_db : LocalDb
fresh_db = record {
  meta = [];
  sync_roots = [];
  files = [];
  pending_ops = [];
  next_id = 1;
  conflicts = [];
}

-- A call that changes the database.
pub data Call (db : LocalDb) : LocalDb → Type 0 where
  calls_meta : (key value : Bytes) → Call db (set_meta key value db)
  calls_add_root : (id path : Bytes) (folder : Bool) → Call db (add_sync_root id path folder db)
  calls_remove_root : (id : Bytes) → Call db (remove_sync_root id db)
  calls_upsert : (f : LocalFileState) → Call db (upsert_file f db)
  calls_remove_file : (path : Bytes) → Call db (remove_file path db)
  calls_remote :
      (path hash : Bytes) (version : ℕ) (vv : VersionVector)
      → Call db (update_remote_state path hash version vv db)
  calls_local : (path hash : Bytes) (mtime : ℕ) → Call db (update_local_hash path hash mtime db)
  calls_enqueue :
      (kind path new_path : Bytes) (now : ℕ) → Call db (enqueue_op kind path new_path now db)
  calls_remove_op : (id : ℕ) → Call db (remove_op id db)
  calls_failed : (id : ℕ) (err : Bytes) → Call db (mark_op_failed id err db)
  calls_conflict : (c : ConflictState) (now : ℕ) → Call db (add_conflict c now db)
  calls_resolve : (file : Bytes) → Call db (resolve_conflict file db)
  calls_seq : (seq : ℕ) → Call db (set_last_change_seq seq db)

pub data Reachable : LocalDb → Type 0 where
  opened : Reachable fresh_db
  after_call : {db db' : LocalDb} → Reachable db → Call db db' → Reachable db'

Call-IsQueue : (db db' : LocalDb) → Call db db' → IsQueue db → IsQueue db'
unfolding set_meta add_sync_root remove_sync_root upsert_file remove_file update_remote_state
    update_local_hash add_conflict resolve_conflict set_last_change_seq
Call-IsQueue db _ (calls_enqueue kind path new_path now) q =
    enqueue_op-IsQueue kind path new_path now db q
Call-IsQueue db _ (calls_remove_op id) q = remove_op-IsQueue id db q
Call-IsQueue db _ (calls_failed id err) q = mark_op_failed-IsQueue id err db q
Call-IsQueue db _ (calls_meta key value) q = q
Call-IsQueue db _ (calls_add_root id path folder) q = q
Call-IsQueue db _ (calls_remove_root id) q = q
Call-IsQueue db _ (calls_upsert f) q = q
Call-IsQueue db _ (calls_remove_file path) q = q
Call-IsQueue db _ (calls_remote path hash version vv) q = q
Call-IsQueue db _ (calls_local path hash mtime) q = q
Call-IsQueue db _ (calls_conflict c now) q = q
Call-IsQueue db _ (calls_resolve file) q = q
Call-IsQueue db _ (calls_seq seq) q = q

-- Whatever calls were made since the database was created, in whatever order, the ids of the queue rise and
-- are below the next one, and no path has two operations of one kind.
pub Reachable-IsQueue : {db : LocalDb} → Reachable db → IsQueue db
Reachable-IsQueue opened = (tt, tt)
Reachable-IsQueue (after_call {db} {db'} r c) = Call-IsQueue db db' c (Reachable-IsQueue r)
