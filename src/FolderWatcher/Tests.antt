-- ===== src/FolderWatcher/Tests.antt =====
-- plugin/src/FolderWatcher.cpp and the queue on a rename below a root.
use notepadpp_sync.Prelude.{
  ◌≡◌, refl, true, false, none, some, List, [], ◌∷◌, Bytes, codes, drop_back, str_eq, cmp, getlines,
  attach, contains, replace, lower, to_lower, after_last,
}
use notepadpp_sync.PathUtil.{
  push_segment, resolve, join_segments, is_illegal, any_illegal, ends_badly, has_illegal_chars,
  before_dot, is_one_of, any_reserved, has_reserved_name, is_rooted, accept, normalize_slashed,
  normalize_relative, is_inside_root, wlower, has_prefix,
}
use notepadpp_sync.LocalDb.{
  LocalDb, enqueue_op, same_op, delete_rows, list_sync_roots, list_sync_files, roots_where,
}
use notepadpp_sync.SyncEngine.{Env}
use notepadpp_sync.SyncEngine.Events.{
  drop_separators, locate_in_files, locate_in_folders, locate_in_roots, queue_upload, on_inside,
  on_fs_event,
}
use notepadpp_sync.FolderWatcher.{
  renamed_old_name, renamed_new_name, unknown, Round, timed_out, overflowed, result_failed, filled,
  kind_of, full_path, paired, emit, translate, pump,
}
use notepadpp_sync.FolderWatcher.Changes.{
  renames, other, events_of, GoesOn, all_notes, notes_of, pump-events_of,
}
use notepadpp_sync.FolderWatcher.Queued.{on_fs_events}

abbrev still_env : Env
still_env = record {
  towlower = λ c. c;
  utf8_to_wide = λ s. s;
  wide_to_utf8 = λ s. s;
  sha256_hex = λ s. s;
  gcm_open = λ key nonce ct aad tag. none;
  parse_path = λ s. some (some s);
  ignored = λ s d. false;
  read_file = λ p. none;
  exists = λ p. false;
  write_ok = λ p d. true;
  master_key = [];
  now = 0;
}

abbrev notes_db : LocalDb
notes_db = record {
  meta = [];
  sync_roots = record { root_id = codes "r"; abs_path = codes "C:\\n"; is_folder = true } ∷ [];
  files = [];
  pending_ops = [];
  next_id = 1;
  conflicts = [];
}

abbrev dir : Bytes
dir = codes "C:\\n"

-- A rename whose notes lie in two buffers, with a buffer that overflowed between them.
abbrev rounds : List Round
rounds =
    filled (
      record { action = unknown; name = [] }
      ∷ record { action = renamed_old_name; name = codes "a" }
      ∷ [])
    ∷ overflowed
    ∷ timed_out
    ∷ result_failed true
    ∷ filled (record { action = renamed_new_name; name = codes "b" } ∷ [])
    ∷ []

pump-events_of_example :
    pump dir [] rounds ≡ events_of dir (other [] ∷ renames (codes "a") (codes "b") ∷ [])
unfolding GoesOn all_notes notes_of
pump-events_of_example =
    pump-events_of dir rounds (other [] ∷ renames (codes "a") (codes "b") ∷ []) (refl, tt) refl

-- Of a rename inside a root only an upload of the new path is queued: the old one stays on the server.
rename_test :
    (on_fs_events still_env
      (λ n. true)
      (λ n. false)
      (λ n. 5)
      0
      (pump dir [] rounds)
      notes_db).pending_ops
    ≡ record {
      id = 1;
      kind = codes "upload";
      op_path = codes "r:b";
      new_rel_path = [];
      queued_at = 5;
      retry_count = 0;
      last_error = [];
    }
      ∷ []
unfolding on_fs_events pump translate emit kind_of full_path paired on_fs_event on_inside
    queue_upload enqueue_op same_op delete_rows locate_in_roots locate_in_folders locate_in_files
    drop_separators list_sync_roots list_sync_files roots_where is_inside_root normalize_relative
    normalize_slashed resolve push_segment getlines attach accept has_illegal_chars any_illegal
    is_illegal contains ends_badly after_last has_reserved_name any_reserved is_one_of before_dot
    lower to_lower is_rooted join_segments replace str_eq cmp drop_back wlower has_prefix
rename_test = refl
