-- ===== src/SyncEngine/Worker.antt =====
-- plugin/src/SyncEngine.cpp: `processPendingOp` and a pass of `workerLoop` over the queue. Each operation
-- comes with what the engine is given when its turn comes. The requests of `deleteRemote`, the pauses and the
-- status are left out.
use notepadpp_sync.Prelude.{
  Bool, true, false, Option, none, some, List, [], ◌∷◌, ltb, if◌then◌else◌, Bytes, codes, str_eq,
}
use notepadpp_sync.LocalDb.{LocalDb, PendingOp, remove_op, mark_op_failed, list_pending_ops}
use notepadpp_sync.SyncEngine.{Env, Effect}
use notepadpp_sync.SyncEngine.Paths.{abs_path_for_rel}
use notepadpp_sync.SyncEngine.Deletes.{DeleteAnswer, DeleteResult, delete_remote}
use notepadpp_sync.SyncEngine.Payload.{Draws}
use notepadpp_sync.SyncEngine.Upload.{Request, Server, Upload}
use notepadpp_sync.SyncEngine.UploadFile.{upload_file}

-- What the engine is given at the turn of an operation.
pub record World : Type 0 where
  pub env : Env
  pub draws : Draws
  pub server : Server
  pub on_delete : Bytes → DeleteAnswer

-- What `processPendingOp` returns and leaves.
pub record Step : Type 0 where
  pub finished : Bool
  pub online : Bool
  pub db : LocalDb
  pub effects : List Effect
  pub shadows : List (Bytes × Bytes)
  pub requests : List Request

-- `removeOp` and `return true`
abbrev pub op_done : PendingOp → Upload → Step
op_done op u = record {
  finished = true;
  online = u.online;
  db = remove_op op.id u.db;
  effects = u.effects;
  shadows = u.shadows;
  requests = u.requests;
}

-- From the test for "offline" on.
unfoldable pub op_failed : PendingOp → Upload → Step
op_failed op u = record {
  finished = false;
  online = if str_eq u.error_out (codes "offline") then false else u.online;
  db =
      if str_eq u.error_out (codes "offline")
      then u.db
      else if ltb 25 op.retry_count
      then remove_op op.id (mark_op_failed op.id u.error_out u.db)
      else mark_op_failed op.id u.error_out u.db;
  effects = u.effects;
  shadows = u.shadows;
  requests = u.requests;
}

abbrev pub op_result : PendingOp → Upload → Step
op_result op u = if u.ok then op_done op u else op_failed op u

-- An operation that does nothing.
abbrev pub idle : Bool → LocalDb → Upload
idle online db = record {
  ok = true;
  error_out = [];
  online = online;
  db = db;
  effects = [];
  shadows = [];
  requests = [];
}

-- `deleteRemote` in the form of an upload's result.
abbrev pub of_delete : DeleteResult → Upload
of_delete r = record {
  ok = r.done;
  error_out = r.error_out;
  online = r.online;
  db = r.after;
  effects = [];
  shadows = [];
  requests = [];
}

-- The call that the kind of the operation selects; `none` where the code throws.
unfoldable pub run_op : World → PendingOp → Bool → LocalDb → Option Upload
run_op w op online db =
    let upload : Option Upload = elim (abs_path_for_rel w.env db op.op_path) [
      | none ↦ some (idle online db)
      | some abs ↦ upload_file w.env w.draws w.server op.op_path abs db online
    ] in
    let delete : Option Upload = elim (delete_remote w.on_delete online op.op_path db) [
      | none ↦ none
      | some r ↦ some (of_delete r)
    ] in
    if str_eq op.kind (codes "upload")
    then upload
    else if str_eq op.kind (codes "delete")
    then delete
    else some (idle online db)

-- `processPendingOp`
unfoldable pub process_pending_op : World → PendingOp → Bool → LocalDb → Option Step
process_pending_op w op online db = elim (run_op w op online db) [
  | none ↦ none
  | some u ↦ some (op_result op u)
]

-- The loop over the operations, which stops as soon as the server cannot be reached.
unfoldable pub process_ops :
    (PendingOp → World) → List PendingOp → Bool → LocalDb → Option (Bool × LocalDb)
process_ops world [] online db = some (online, db)
process_ops world (op ∷ ops) online db =
    let next : Option (Bool × LocalDb) = elim (process_pending_op (world op) op online db) [
      | none ↦ none
      | some s ↦ process_ops world ops s.online s.db
    ] in
    if online then next else some (online, db)

-- A pass of `workerLoop`; `ready` is not paused, signed in and with a master key.
unfoldable pub worker_pass : (PendingOp → World) → Bool → Bool → LocalDb → Option (Bool × LocalDb)
worker_pass world ready online db =
    let pass = process_ops world (list_pending_ops db) online db in
    if ready then pass else some (online, db)
