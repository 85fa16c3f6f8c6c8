-- ===== src/SyncEngine/Apply.antt =====
-- plugin/src/SyncEngine.cpp: `applyRemoteFile`, in the stages of its body. The whole is `none` where it
-- throws: where a counter of a version vector passes the largest `int64_t`, or the metadata is JSON of another shape.
use notepadpp_sync.Prelude.{
  ℕ, Bool, true, false, ◌&&◌, not, Option, none, some, List, [], ◌∷◌, ◌++◌, leb, if◌then◌else◌,
  Bytes, codes, str_eq,
}
use notepadpp_sync.Crypto.Base64.{base64_url_decode}
use notepadpp_sync.Crypto.Envelope.{decrypt}
use notepadpp_sync.PathUtil.{normalize_relative}
use notepadpp_sync.VersionVector.Json.{from_json}
use notepadpp_sync.LocalDb.{
  LocalDb, LocalFileState, upsert_file, get_file, all_files, add_conflict, list_sync_roots,
}
use notepadpp_sync.SyncEngine.{
  written, Env, FileBody, Answer, unreachable, refused, fetched, Effect, Outcome, backup, remove,
  make_dirs, notify, write,
}
use notepadpp_sync.SyncEngine.Paths.{file_name_of, dir_of, abs_path_for_rel, known_key, new_key}

-- `return false` with a message.
abbrev pub fail : LocalDb → Bytes → List Effect → Option Outcome
fail db message es =
    some (record {
      ok = false;
      error_out = message;
      online = true;
      db = db;
      effects = es;
      shadows = [];
    })

-- `return true`
abbrev pub success : LocalDb → List Effect → List (Bytes × Bytes) → Option Outcome
success db es shadows =
    some (record {
      ok = true;
      error_out = [];
      online = true;
      db = db;
      effects = es;
      shadows = shadows;
    })

-- `LocalFileState{}`
abbrev pub blank_state : LocalFileState
blank_state = record {
  file_id = [];
  sync_root = [];
  rel_path = [];
  local_hash = [];
  remote_hash = [];
  remote_version = 0;
  version_vector = [];
  deleted = false;
  modified_at_local = 0;
}

abbrev pub conflict_copy : Bytes → Bytes
conflict_copy abs =
    dir_of abs ++ b'\\' ∷ (file_name_of abs ++ codes " (conflict - local unsaved).bak")

-- `st && st->remoteVersion >= remoteVersion`
unfoldable pub is_current : Option LocalFileState → ℕ → Bool
is_current none version = false
is_current (some s) version = leb version s.remote_version

module _ (env : Env) (file_id : Bytes) (f : FileBody) (db : LocalDb) (key abs : Bytes)
    (st : Option LocalFileState) where
  -- A tombstone.
  unfoldable pub apply_delete : Option Outcome
  apply_delete = elim st [
    | none ↦ success db (backup abs ∷ remove abs ∷ []) []
    | some s ↦
        success (upsert_file (record s { deleted = true; remote_version = f.version }) db)
          (backup abs ∷ remove abs ∷ []) []
  ]

  -- The local edits that were not uploaded, where there are any.
  unfoldable pub unsynchronized : Option Bytes
  unsynchronized = elim (env.read_file abs) [
    | none ↦ none
    | some current ↦ elim st [
      | none ↦ none
      | some s ↦
          if not (str_eq s.local_hash [])
            && not (str_eq (env.sha256_hex current) s.local_hash)
            && not (str_eq (env.sha256_hex current) s.remote_hash)
          then some current
          else none
    ]
  ]

  -- The local edits are kept in a copy beside the file, whether or not its write succeeds.
  unfoldable pub record_conflict : Bytes → Option Outcome
  record_conflict current =
      success
        (add_conflict
          (record {
            conflict_file = file_id;
            conflict_path = key;
            conflict_version = f.version;
            local_copy_path = env.wide_to_utf8 (conflict_copy abs);
            remote_blob_hash = f.content_hash;
            detected_at = 0;
          })
          env.now db)
        (written env (conflict_copy abs) current ∷ []) []

  -- `nf`
  unfoldable pub stored_state : Bytes → Option LocalFileState
  stored_state plain = elim (from_json f.vector_json) [
    | none ↦ none
    | some vv ↦
        let s : LocalFileState = elim st [ none ↦ blank_state | some s ↦ s ] in
        some (record s {
          rel_path = key;
          file_id = file_id;
          local_hash = env.sha256_hex plain;
          remote_hash = env.sha256_hex plain;
          remote_version = f.version;
          version_vector = vv;
          deleted = false;
        })
  ]

  -- From the directories on.
  unfoldable pub replace_file : Bytes → Option Outcome
  replace_file plain =
      let before = make_dirs abs ∷ (if env.exists abs then backup abs ∷ [] else []) in
      if not (env.write_ok abs plain)
      then fail db (codes "write failed") before
      else elim (stored_state plain) [
        | none ↦ none
        | some nf ↦
            success (upsert_file nf db) (before ++ write abs plain ∷ notify abs ∷ [])
              ((key, plain) ∷ [])
      ]

  unfoldable pub apply_plain : Bytes → Option Outcome
  apply_plain plain = elim unsynchronized [
    | none ↦ replace_file plain
    | some current ↦ record_conflict current
  ]

  -- The content, checked before the disk is touched.
  unfoldable pub apply_content : Option Outcome
  apply_content = elim (base64_url_decode f.encrypted_content) [
    | none ↦ fail db (codes "bad content") []
    | some enc ↦
        if not (str_eq (env.sha256_hex enc) f.content_hash)
        then fail db (codes "hash mismatch") []
        else elim (decrypt env.gcm_open env.master_key enc (codes "file")) [
          | none ↦ fail db (codes "decrypt failed") []
          | some plain ↦ apply_plain plain
        ]
  ]

  unfoldable pub apply_state : Option Outcome
  apply_state =
      if is_current st f.version
      then success db [] []
      else if f.is_deleted
      then apply_delete
      else apply_content

module _ (env : Env) (file_id : Bytes) (f : FileBody) (db : LocalDb) where
  unfoldable pub apply_key : Bytes → Bytes → Option Outcome
  apply_key norm key = elim (abs_path_for_rel env db key) [
    | none ↦ fail db (codes "path mapping failed") []
    | some abs ↦
        if env.ignored norm false
        then success db [] []
        else apply_state env file_id f db key abs (get_file db key)
  ]

  unfoldable pub apply_norm : Bytes → Option Outcome
  apply_norm norm = elim (all_files db) [
    | none ↦ none
    | some all ↦ elim (known_key env all norm) [
      | some key ↦ apply_key norm key
      | none ↦ elim (new_key env (list_sync_roots db) norm) [
        | none ↦ fail db (codes "no sync roots") []
        | some key ↦ apply_key norm key
      ]
    ]
  ]

  unfoldable pub apply_meta : Bytes → Option Outcome
  apply_meta meta = elim (env.parse_path meta) [
    | none ↦ fail db (codes "bad metadata") []
    | some path ↦ elim path [
      | none ↦ none
      | some rel ↦ elim (normalize_relative rel) [
        | none ↦ fail db (codes "remote path rejected") []
        | some norm ↦ apply_norm norm
      ]
    ]
  ]

  unfoldable pub apply_body : Option Outcome
  apply_body = elim (base64_url_decode f.encrypted_metadata) [
    | none ↦ fail db (codes "cannot decrypt metadata") []
    | some enc ↦ elim (decrypt env.gcm_open env.master_key enc (codes "metadata")) [
      | none ↦ fail db (codes "cannot decrypt metadata") []
      | some meta ↦ apply_meta meta
    ]
  ]

-- `applyRemoteFile`
unfoldable pub apply_remote_file : Env → Bytes → Answer → LocalDb → Option Outcome
apply_remote_file env file_id unreachable db = some (record {
  ok = false;
  error_out = codes "offline";
  online = false;
  db = db;
  effects = [];
  shadows = [];
})
apply_remote_file env file_id refused db = fail db (codes "fetch failed") []
apply_remote_file env file_id (fetched f) db = apply_body env file_id f db
