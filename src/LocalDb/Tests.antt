-- ===== src/LocalDb/Tests.antt =====
-- plugin/src/LocalDb.cpp on concrete rows.
use notepadpp_sync.Prelude.{
  refl, ◌++◌, ◌≡◌, arith, false, some, [], ◌∷◌, if◌then◌else◌, codes, str_eq,
}
use notepadpp_sync.LocalDb.{
  LocalFileState, PendingOp, LocalDb, enqueue_op, remove_op, mark_op_failed,
}
use notepadpp_sync.VersionVector.Json.{to_json, to_string}
use notepadpp_sync.LocalDb.Texts.{
  bound, bound_state, bound_upsert_file, bound_get_file, bound_get_file-bound_upsert_file,
}
use notepadpp_sync.LocalDb.Queue.{IsQueue}
use notepadpp_sync.LocalDb.Reachable.{
  fresh_db, opened, after_call, calls_enqueue, calls_failed, calls_remove_op, Reachable-IsQueue,
}

abbrev upload_a : PendingOp
upload_a = record {
  id = 1;
  kind = codes "upload";
  op_path = codes "a";
  new_rel_path = [];
  queued_at = 5;
  retry_count = 0;
  last_error = [];
}

abbrev upload_b : PendingOp
upload_b = record upload_a { id = 2; op_path = codes "b" }

abbrev two_ops : LocalDb
two_ops = record {
  meta = [];
  sync_roots = [];
  files = [];
  pending_ops = upload_a ∷ upload_b ∷ [];
  next_id = 3;
  conflicts = [];
}

Reachable-IsQueue_example :
    IsQueue
      (remove_op 1 (mark_op_failed 1 [] (enqueue_op (codes "upload") (codes "a") [] 9 fresh_db)))
Reachable-IsQueue_example = Reachable-IsQueue (
    after_call
      (after_call (after_call opened (calls_enqueue (codes "upload") (codes "a") [] 9))
        (calls_failed 1 []))
      (calls_remove_op 1))

abbrev note : LocalFileState
note = record {
  file_id = codes "f1";
  sync_root = codes "r";
  rel_path = codes "r:n.txt";
  local_hash = codes "h";
  remote_hash = codes "h";
  remote_version = 3;
  version_vector = (codes "d", 2) ∷ [];
  deleted = false;
  modified_at_local = 0;
}

-- A state whose path goes on behind a NUL.
abbrev cut_note : LocalFileState
cut_note = record note { rel_path = codes "r:n.txt" ++ 0 ∷ codes "x" }

cut_vector : bound (to_json note.version_vector) ≡ to_json note.version_vector
unfolding bound to_json to_string
cut_vector = refl

bound_get_file-bound_upsert_file_example :
    bound_get_file (bound_upsert_file cut_note two_ops) (codes "r:n.txt") ≡ (
      if str_eq (bound (codes "r:n.txt")) (bound cut_note.rel_path)
      then some (record (bound_state cut_note) { rel_path = codes "r:n.txt" })
      else bound_get_file two_ops (codes "r:n.txt"))
bound_get_file-bound_upsert_file_example =
    bound_get_file-bound_upsert_file cut_note two_ops (codes "r:n.txt") tt
      ((((λ q. omega arith), tt), omega arith), tt) cut_vector
