-- ===== src/SyncEngine/WatchTests.antt =====
-- plugin/src/SyncEngine.cpp: the roots, their rules, the scanner and opened files on a concrete disk.
use notepadpp_sync.Prelude.{
  ◌≡◌, refl, ℕ, true, false, Option, none, some, List, [], ◌∷◌, ◌++◌, arith, if◌then◌else◌, Bytes,
  codes, drop_back, str_eq, cmp, getlines, attach, contains, replace, lower, to_lower, after_last,
}
use notepadpp_sync.PathUtil.{
  push_segment, resolve, join_segments, is_illegal, any_illegal, ends_badly, has_illegal_chars,
  before_dot, is_one_of, any_reserved, has_reserved_name, is_rooted, accept, normalize_slashed,
  normalize_relative, is_inside_root, wlower, has_prefix,
}
use notepadpp_sync.LocalDb.{
  LocalDb, PendingOp, enqueue_op, same_op, delete_rows, select_row, get_file, list_sync_roots,
  list_sync_files, roots_where,
}
use notepadpp_sync.SyncEngine.{Env}
use notepadpp_sync.SyncEngine.Paths.{split_colon}
use notepadpp_sync.SyncEngine.Events.{
  drop_separators, locate_in_files, locate_in_folders, locate_in_roots, queue_upload,
}
use notepadpp_sync.SyncEngine.Rules.{
  refresh_ignore_rules, root_ignored, Distinct, any_excludes, all_rules,
  root_ignored-refresh_ignore_rules,
}
use notepadpp_sync.SyncEngine.Scanner.{
  Entry, is_dots, child, norm_of, scan_key, scan_file, scan_entries, scan_stack, scan_roots,
  scanner_pass,
}
use notepadpp_sync.SyncEngine.Scanner.Walk.{
  Tree, nothing_more, a_file, a_folder, folders, scan_files, files_of_roots, HasBelow, entries_of,
  scanner_pass-files_of_roots,
}
use notepadpp_sync.SyncEngine.Notices.{on_file_opened, scan_file-on_file_opened}

abbrev disk_env : Env
disk_env = record {
  towlower = λ c. c;
  utf8_to_wide = λ s. s;
  wide_to_utf8 = λ s. s;
  sha256_hex = λ s. b'0' ∷ s;
  gcm_open = λ key nonce ct aad tag. none;
  parse_path = λ s. some (some s);
  ignored = λ s d. str_eq s (codes "s/b");
  read_file = λ p. none;
  exists = λ p. false;
  write_ok = λ p d. true;
  master_key = [];
  now = 0;
}

abbrev scanned_db : LocalDb
scanned_db = record {
  meta = [];
  sync_roots = record { root_id = codes "r"; abs_path = codes "N"; is_folder = true } ∷ [];
  files = [];
  pending_ops = [];
  next_id = 1;
  conflicts = [];
}

-- A folder "s" with the files "a" and "b", beside the file "a".
abbrev sub : Tree
sub = a_file (codes "a") (a_file (codes "b") nothing_more)

abbrev tree : Tree
tree = a_folder (codes "s") sub (a_file (codes "a") nothing_more)

abbrev dots : List Entry
dots = record { name = codes "."; is_dir = true } ∷ record { name = codes ".."; is_dir = true } ∷ []

abbrev listing : Bytes → Option (List Entry)
listing dir =
    if str_eq dir (codes "N")
    then some (
        dots
        ++ record { name = codes "s"; is_dir = true }
          ∷ record { name = codes "a"; is_dir = false }
          ∷ [])
    else if str_eq dir (codes "N\\s")
    then some (
        dots
        ++ record { name = codes "a"; is_dir = false }
          ∷ record { name = codes "b"; is_dir = false }
          ∷ [])
    else none

abbrev upload : ℕ → Bytes → PendingOp
upload id path = record {
  id = id;
  kind = codes "upload";
  op_path = path;
  new_rel_path = [];
  queued_at = 5;
  retry_count = 0;
  last_error = [];
}

scan_test :
    scanner_pass disk_env 5 listing true 2 scanned_db
    ≡ some (record scanned_db {
      pending_ops = upload 1 (codes "r:a") ∷ upload 2 (codes "r:s/a") ∷ [];
      next_id = 3;
    })
unfolding scanner_pass scan_roots scan_stack scan_entries scan_file scan_key norm_of split_colon
    is_dots child enqueue_op same_op delete_rows locate_in_roots locate_in_folders locate_in_files
    drop_separators list_sync_roots list_sync_files roots_where is_inside_root normalize_relative
    normalize_slashed resolve push_segment getlines attach accept get_file select_row queue_upload
    has_illegal_chars any_illegal is_illegal contains ends_badly after_last has_reserved_name
    any_reserved is_one_of before_dot lower to_lower is_rooted join_segments replace str_eq cmp
    drop_back wlower has_prefix
scan_test = refl

scanner_pass-files_of_roots_example :
    scanner_pass disk_env 5 listing true 2 scanned_db
    ≡ some (
        scan_files listing disk_env 5
          (files_of_roots listing disk_env 5 (λ root. tree) (list_sync_roots scanned_db))
          scanned_db)
unfolding list_sync_roots roots_where folders HasBelow is_dots child str_eq cmp entries_of
scanner_pass-files_of_roots_example =
    scanner_pass-files_of_roots listing disk_env 5 (λ root. tree) 2 scanned_db
      (
        (
          (
            (dots, (refl, (refl, tt)), refl),
            (refl, (dots, (refl, (refl, tt)), refl), (refl, (refl, tt)), (refl, tt)),
          ),
          omega arith,
        ),
        tt,
      )

located_test : locate_in_roots disk_env scanned_db (codes "N\\a") ≡ some (codes "r:a")
unfolding locate_in_roots locate_in_folders locate_in_files drop_separators list_sync_roots
    list_sync_files roots_where is_inside_root normalize_relative normalize_slashed resolve
    push_segment getlines attach accept has_illegal_chars any_illegal is_illegal contains ends_badly
    after_last has_reserved_name any_reserved is_one_of before_dot lower to_lower is_rooted
    join_segments replace str_eq cmp drop_back wlower has_prefix
located_test = refl

scan_file-on_file_opened_example :
    scan_file disk_env 5 (codes "N\\a") (on_file_opened disk_env true (codes "N\\a") scanned_db)
    ≡ on_file_opened disk_env true (codes "N\\a") scanned_db
scan_file-on_file_opened_example =
    scan_file-on_file_opened disk_env 5 (codes "N\\a") (codes "r:a") scanned_db located_test

abbrev two_roots : List (Bytes × Bytes)
two_roots = (codes "r", codes "N") ∷ (codes "q", codes "M") ∷ []

-- The rules of one root only.
abbrev one_file : Bytes → Option Bytes
one_file path = if str_eq path (codes "M\\.npsyncignore") then some (codes "*.bak\n") else none

root_ignored-refresh_ignore_rules_example :
    root_ignored (refresh_ignore_rules [] one_file two_roots) (codes "a.bak") false
    ≡ some
        (any_excludes (codes "a.bak") false (all_rules (codes "a.bak") false [] one_file two_roots))
unfolding Distinct
root_ignored-refresh_ignore_rules_example =
    root_ignored-refresh_ignore_rules (codes "a.bak") false [] one_file two_roots
      ((λ e. ground arith), ((λ e. ground arith), tt), ((λ e. ground arith), tt, tt))
