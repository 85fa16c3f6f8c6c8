-- ===== src/SyncEngine/Tests.antt =====
-- plugin/src/SyncEngine.cpp on a concrete tombstone. The cipher of this test adds nothing.
use notepadpp_sync.Prelude.{
  inl, ◌≡◌, ◌⊎◌, refl, true, false, none, some, [], ◌∷◌, replicate, Bytes, codes, All, str_eq, cmp,
  getlines, attach, contains, replace, lower, to_lower, after_last, drop_back,
}
use notepadpp_sync.Crypto.Base64.{
  symbol, base64_url_encode, val, feed, decode_loop, base64_url_decode,
}
use notepadpp_sync.Crypto.Envelope.{envelope, decrypt}
use notepadpp_sync.PathUtil.{
  push_segment, resolve, join_segments, is_illegal, any_illegal, ends_badly, has_illegal_chars,
  before_dot, is_one_of, any_reserved, has_reserved_name, is_rooted, accept, normalize_slashed,
  normalize_relative, wlower, has_prefix, is_inside_root, join_inside_root,
}
use notepadpp_sync.VersionVector.Json.{from_json}
use notepadpp_sync.LocalDb.{
  read_row, get_file, LocalDb, select_row, roots_where, list_sync_roots, list_sync_files, read_rows,
  all_files, get_file,
}
use notepadpp_sync.SyncEngine.{Env, FileBody, refused, fetched, Outcome, backup, remove}
use notepadpp_sync.SyncEngine.Paths.{
  split_colon, abs_of_parts, abs_path_for_rel, known_key, first_joining, new_key,
}
use notepadpp_sync.SyncEngine.Apply.{
  blank_state, conflict_copy, is_current, apply_delete, apply_state, apply_key, apply_norm,
  apply_meta, apply_body, apply_remote_file,
}
use notepadpp_sync.SyncEngine.Pull.{Change}
use notepadpp_sync.SyncEngine.Deletes.{
  DeleteAnswer, status, after_answer, delete_remote, delete_remote_lem, forgotten, Settled,
}
use notepadpp_sync.SyncEngine.Safety.{target}
use notepadpp_sync.SyncEngine.Synced.{IsSynced, apply_remote_file-IsSynced}

abbrev plain_env : Env
plain_env = record {
  towlower = λ c. c;
  utf8_to_wide = λ s. s;
  wide_to_utf8 = λ s. s;
  sha256_hex = λ s. s;
  gcm_open = λ key nonce ct aad tag. some ct;
  parse_path = λ s. some (some s);
  ignored = λ s d. false;
  read_file = λ p. none;
  exists = λ p. false;
  write_ok = λ p d. true;
  master_key = [];
  now = 0;
}

abbrev one_root : LocalDb
one_root = record {
  meta = [];
  sync_roots = record { root_id = codes "r"; abs_path = codes "C:\\n"; is_folder = true } ∷ [];
  files = [];
  pending_ops = [];
  next_id = 1;
  conflicts = [];
}

abbrev tombstone : FileBody
tombstone = record {
  version = 2;
  is_deleted = true;
  encrypted_metadata =
      base64_url_encode (envelope (replicate 12 0) (replicate 16 7) (codes "a.md"));
  encrypted_content = [];
  content_hash = [];
  vector_json = [];
}

abbrev file_a : Bytes
file_a = codes "C:\\n\\a.md"

abbrev removed : Outcome
removed = record {
  ok = true;
  error_out = [];
  online = true;
  db = one_root;
  effects = backup file_a ∷ remove file_a ∷ [];
  shadows = [];
}

tombstone_test : apply_remote_file plain_env (codes "f") (fetched tombstone) one_root ≡ some removed
unfolding apply_remote_file apply_body apply_meta apply_norm apply_key apply_state apply_delete
    is_current symbol base64_url_encode val feed decode_loop base64_url_decode decrypt
    normalize_relative normalize_slashed resolve push_segment getlines attach accept
    has_illegal_chars any_illegal is_illegal contains ends_badly after_last has_reserved_name
    any_reserved is_one_of before_dot lower to_lower is_rooted join_segments replace str_eq cmp
    drop_back wlower has_prefix is_inside_root join_inside_root select_row roots_where
    list_sync_roots list_sync_files read_rows all_files get_file split_colon abs_of_parts
    abs_path_for_rel known_key first_joining new_key
tombstone_test = refl

apply_remote_file-IsSynced_example :
    All
      (λ e.
        (abs : Bytes) × IsSynced plain_env one_root abs
        × ((target e ≡ abs) ⊎ (target e ≡ conflict_copy abs)))
      removed.effects
apply_remote_file-IsSynced_example =
    apply_remote_file-IsSynced plain_env refl refl (λ s. Unit) (λ s. inl tt)
      (λ a b v. (tt, tt, refl)) (λ seg v h. h) one_root (codes "f") (fetched tombstone) removed
      tombstone_test

-- A change whose file cannot be fetched.
abbrev failing : Change
failing = record {
  origin_device_id = codes "e";
  change_file_id = codes "f";
  given = plain_env;
  answer = refused;
}

abbrev known_file : LocalDb
known_file = record one_root {
  files =
      record {
        state = record blank_state { file_id = codes "f"; rel_path = codes "r:a.md" };
        vector_text = codes "{}";
      }
      ∷ [];
}

abbrev answers_gone : Bytes → DeleteAnswer
answers_gone id = status 404 none

gone_test :
    delete_remote answers_gone true (codes "r:a.md") known_file
    ≡ some (forgotten true (codes "r:a.md") known_file)
unfolding delete_remote after_answer get_file select_row read_row from_json str_eq cmp
gone_test = refl

delete_remote_lem_example :
    Settled answers_gone (codes "r:a.md") known_file (forgotten true (codes "r:a.md") known_file)
delete_remote_lem_example =
    delete_remote_lem answers_gone (codes "r:a.md") known_file true
      (forgotten true (codes "r:a.md") known_file) gone_test
