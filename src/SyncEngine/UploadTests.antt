-- ===== src/SyncEngine/UploadTests.antt =====
-- plugin/src/SyncEngine.cpp: an upload of a new file that the server accepts, one that it refuses because of
-- a conflict, and one for which it cannot be reached. The cipher and the hash of these tests add nothing.
use notepadpp_sync.Prelude.{
  ◌≡◌, refl, true, false, none, some, [], ◌∷◌, replicate, codes, str_eq, cmp,
}
use notepadpp_sync.Crypto.Base64.{
  symbol, base64_url_encode, val, feed, decode_loop, base64_url_decode,
}
use notepadpp_sync.Crypto.Envelope.{envelope, encrypt, decrypt}
use notepadpp_sync.Merge.{merge}
use notepadpp_sync.VersionVector.{bump, touch}
use notepadpp_sync.VersionVector.Json.{
  to_string, to_json, skip_ws, read_key, skip_char, starts_minus, read_digits, read_value,
  read_entry, put, read_entries, read_object, from_json,
}
use notepadpp_sync.LocalDb.{LocalDb, select_row, get_file, upsert_file}
use notepadpp_sync.SyncEngine.{Env, fetched, refused, write, backup, notify}
use notepadpp_sync.SyncEngine.Payload.{
  Payload, Draws, uuid_text, payload_id, payload_vector, payload_meta, build_file_payload,
}
use notepadpp_sync.SyncEngine.Upload.{
  Current, no_reply, reply, create_file, update_file, read_remote, Server, Upload, upload_failed,
  handle_conflict, conflict_fetched, conflict_body, merge_texts, upload_merged, merge_answered,
  merged_state,
}
use notepadpp_sync.SyncEngine.UploadFile.{
  unchanged, base_of, uploaded_state, upload_accepted, upload_answered, upload_payload,
  upload_changed, upload_content, upload_file,
}
use notepadpp_sync.SyncEngine.Resolve.{act, Resolution}
use notepadpp_sync.SyncEngine.Conflicts.{Handled, handle_conflict-Handled}
use notepadpp_sync.SyncEngine.Uploads.{IsUntouched, upload_file-IsUntouched, upload_file_again}

abbrev disk_env : Env
disk_env = record {
  towlower = λ c. c;
  utf8_to_wide = λ s. s;
  wide_to_utf8 = λ s. s;
  sha256_hex = λ s. s;
  gcm_open = λ key nonce ct aad tag. some ct;
  parse_path = λ s. some (some s);
  ignored = λ s d. false;
  read_file = λ p. some (codes "text");
  exists = λ p. true;
  write_ok = λ p d. true;
  master_key = replicate 32 7;
  now = 0;
}

abbrev fixed_draws : Draws
fixed_draws = record {
  gcm_seal = λ key nonce text aad. some (text, replicate 16 1);
  content_nonce = replicate 12 2;
  metadata_nonce = replicate 12 3;
  uuid_bytes = replicate 16 4;
  dump_path = λ p. some p;
  reprint = λ s. some s;
  device_id = codes "d";
}

abbrev head_version : Current
head_version = record { cur_file_id = codes "f"; cur_version = 3; cur_vector = []; cur_hash = [] }

abbrev accepting : Server
accepting = record {
  on_create = λ p. reply 201 (some 1) none head_version;
  on_update = λ id p. no_reply;
  on_read = λ id. refused;
  read_shadow = λ k. none;
  max_file_bytes = 100;
  device_name = codes "pc";
}

abbrev empty_db : LocalDb
empty_db = record {
  meta = [];
  sync_roots = [];
  files = [];
  pending_ops = [];
  next_id = 1;
  conflicts = [];
}

abbrev first_payload : Payload
first_payload = record {
  file_id = uuid_text (replicate 16 4);
  encrypted_metadata = base64_url_encode (envelope (replicate 12 3) (replicate 16 1) (codes "k"));
  encrypted_content = base64_url_encode (envelope (replicate 12 2) (replicate 16 1) (codes "text"));
  content_hash = envelope (replicate 12 2) (replicate 16 1) (codes "text");
  base_version = 0;
  version_vector = codes "{\"d\":1}";
  size = 37;
  modified_at = [];
  idempotency_key = codes "k0text";
}

abbrev uploaded : Upload
uploaded = record {
  ok = true;
  error_out = [];
  online = true;
  db =
      upsert_file
        (uploaded_state none (codes "k") (codes "text") first_payload (some 1)
          ((codes "d", 1) ∷ []))
        empty_db;
  effects = [];
  shadows = (codes "k", codes "text") ∷ [];
  requests = create_file first_payload ∷ [];
}

payload_test :
    build_file_payload disk_env fixed_draws (codes "k") (codes "text") 0 [] none
    ≡ some first_payload
unfolding build_file_payload payload_vector payload_meta payload_id uuid_text encrypt envelope
    to_json to_string bump touch
payload_test = refl

upload_test :
    upload_file disk_env fixed_draws accepting (codes "k") (codes "a") empty_db true ≡ some uploaded
unfolding upload_file upload_content upload_changed upload_payload upload_answered upload_accepted
    unchanged base_of get_file select_row build_file_payload payload_vector payload_meta payload_id
    uuid_text encrypt to_json to_string bump touch from_json read_object read_entries read_entry
    read_value read_digits read_key skip_ws skip_char starts_minus put
upload_test = refl

upload_file_again_example :
    upload_file disk_env fixed_draws accepting (codes "k") (codes "a") uploaded.db true
    ≡ some (record uploaded { shadows = []; requests = [] })
upload_file_again_example =
    upload_file_again disk_env fixed_draws accepting true (codes "k") (codes "a") empty_db uploaded
      upload_test refl refl

-- A server that cannot be reached.
abbrev silent : Server
silent = record accepting { on_create = λ p. no_reply }

offline_test :
    upload_file disk_env fixed_draws silent (codes "k") (codes "a") empty_db true
    ≡ some (upload_failed false empty_db (codes "offline") (create_file first_payload ∷ []))
unfolding upload_file upload_content upload_changed upload_payload upload_answered unchanged base_of
    get_file select_row build_file_payload payload_vector payload_meta payload_id uuid_text encrypt
    to_json to_string bump touch
offline_test = refl

upload_file-IsUntouched_example :
    IsUntouched empty_db
      (upload_failed false empty_db (codes "offline") (create_file first_payload ∷ []))
upload_file-IsUntouched_example =
    upload_file-IsUntouched disk_env fixed_draws silent true (codes "k") (codes "a") empty_db
      (upload_failed false empty_db (codes "offline") (create_file first_payload ∷ [])) offline_test
      refl

-- The server has a newer text, and the user's text is the one both had at last.
abbrev newer : Server
newer = record accepting {
  on_update = λ id p. reply 200 (some 4) none head_version;
  on_read = λ id. fetched (record {
    version = 3;
    is_deleted = false;
    encrypted_metadata = [];
    encrypted_content =
        base64_url_encode (envelope (replicate 12 5) (replicate 16 6) (codes "theirs"));
    content_hash = [];
    vector_json = [];
  });
  read_shadow = λ k. some (codes "text");
}

abbrev second_payload : Payload
second_payload = record first_payload {
  encrypted_content =
      base64_url_encode (envelope (replicate 12 2) (replicate 16 1) (codes "theirs"));
  content_hash = envelope (replicate 12 2) (replicate 16 1) (codes "theirs");
  base_version = 3;
  size = 39;
  idempotency_key = codes "k3theirs";
}

abbrev both : Upload
both = record {
  ok = true;
  error_out = [];
  online = true;
  db =
      upsert_file
        (record {
          rel_path = codes "k";
          file_id = codes "f";
          sync_root = [];
          local_hash = codes "theirs";
          remote_hash = codes "theirs";
          remote_version = 4;
          version_vector = (codes "d", 1) ∷ [];
          deleted = false;
          modified_at_local = 0;
        })
        empty_db;
  effects = write (codes "a") (codes "theirs") ∷ backup (codes "a") ∷ notify (codes "a") ∷ [];
  shadows = (codes "k", codes "theirs") ∷ [];
  requests = read_remote (codes "f") ∷ update_file (codes "f") second_payload ∷ [];
}

conflict_test :
    handle_conflict disk_env fixed_draws newer true (codes "k") (codes "a") empty_db head_version
    ≡ some both
unfolding handle_conflict conflict_fetched conflict_body merge_texts upload_merged merge_answered
    merged_state merge decrypt base64_url_decode base64_url_encode symbol val feed decode_loop
    get_file select_row build_file_payload payload_vector payload_meta payload_id uuid_text encrypt
    to_json to_string bump touch from_json read_object read_entries read_entry read_value
    read_digits read_key skip_ws skip_char starts_minus put str_eq cmp
conflict_test = refl

handle_conflict-Handled_example :
    Handled disk_env fixed_draws newer true (codes "k") (codes "a") empty_db head_version both
handle_conflict-Handled_example =
    handle_conflict-Handled disk_env fixed_draws newer true (codes "k") (codes "a") empty_db
      head_version both conflict_test

-- A conflict of a single file.
abbrev conflict_db : LocalDb
conflict_db = record empty_db {
  sync_roots = record { root_id = codes "i"; abs_path = codes "k"; is_folder = false } ∷ [];
  conflicts =
      record {
        conflict_file = codes "f";
        conflict_path = codes "file:k";
        conflict_version = 3;
        local_copy_path = codes "c";
        remote_blob_hash = [];
        detected_at = 0;
      }
      ∷ [];
}

abbrev theirs_kept : Resolution
theirs_kept = record {
  ok = true;
  error_out = [];
  db = record conflict_db { conflicts = [] };
  actions =
      act (backup (codes "k"))
      ∷ act (write (codes "k") (codes "theirs"))
      ∷ act (notify (codes "k"))
      ∷ [];
  shadows = [];
}
