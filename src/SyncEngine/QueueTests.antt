-- ===== src/SyncEngine/QueueTests.antt =====
-- plugin/src/SyncEngine.cpp: the worker on a queue with the deletion of a file that is not known.
use notepadpp_sync.Prelude.{
  ◌≡◌, refl, ℕ, zero, suc, true, false, none, some, [], ◌∷◌, codes, str_eq, cmp, arith,
}
use notepadpp_sync.LocalDb.{
  LocalDb, PendingOp, select_row, delete_rows, get_file, remove_file, remove_op, list_pending_ops,
}
use notepadpp_sync.LocalDb.Queue.{IsQueue}
use notepadpp_sync.SyncEngine.{Env, refused}
use notepadpp_sync.SyncEngine.Deletes.{no_transport, delete_remote}
use notepadpp_sync.SyncEngine.Upload.{no_reply}
use notepadpp_sync.SyncEngine.Worker.{World, run_op, process_pending_op, process_ops, worker_pass}
use notepadpp_sync.SyncEngine.Drain.{Passes, no_pass, pass, Passes-drain}

abbrev quiet_env : Env
quiet_env = record {
  towlower = λ c. c;
  utf8_to_wide = λ s. s;
  wide_to_utf8 = λ s. s;
  sha256_hex = λ s. s;
  gcm_open = λ key nonce ct aad tag. none;
  parse_path = λ s. none;
  ignored = λ s d. false;
  read_file = λ p. none;
  exists = λ p. false;
  write_ok = λ p d. true;
  master_key = [];
  now = 0;
}

abbrev quiet_world : PendingOp → World
quiet_world op = record {
  env = quiet_env;
  draws = record {
    gcm_seal = λ key nonce text aad. none;
    content_nonce = [];
    metadata_nonce = [];
    uuid_bytes = [];
    dump_path = λ p. none;
    reprint = λ s. none;
    device_id = [];
  };
  server = record {
    on_create = λ p. no_reply;
    on_update = λ id p. no_reply;
    on_read = λ id. refused;
    read_shadow = λ k. none;
    max_file_bytes = 0;
    device_name = [];
  };
  on_delete = λ id. no_transport;
}

abbrev drained : LocalDb
drained = record {
  meta = [];
  sync_roots = [];
  files = [];
  pending_ops = [];
  next_id = 2;
  conflicts = [];
}

abbrev one_delete : LocalDb
one_delete = record drained {
  pending_ops =
      record {
        id = 1;
        kind = codes "delete";
        op_path = codes "k";
        new_rel_path = [];
        queued_at = 0;
        retry_count = 0;
        last_error = [];
      }
      ∷ [];
}

one_delete-IsQueue : IsQueue one_delete
one_delete-IsQueue = ((omega arith, tt), (tt, tt))

delete_test : worker_pass quiet_world true true one_delete ≡ some (true, drained)
unfolding worker_pass process_ops process_pending_op run_op list_pending_ops delete_remote get_file
    select_row remove_file remove_op delete_rows str_eq cmp
delete_test = refl

empty_test : worker_pass quiet_world true true drained ≡ some (true, drained)
unfolding worker_pass process_ops list_pending_ops
empty_test = refl

idle-Passes : (n : ℕ) → Passes n drained drained
idle-Passes zero = no_pass drained
idle-Passes (suc n) = pass quiet_world empty_test (idle-Passes n)

Passes-drain_example : drained.pending_ops ≡ []
Passes-drain_example =
    Passes-drain one_delete drained one_delete-IsQueue
      (pass quiet_world delete_test (idle-Passes 26))
