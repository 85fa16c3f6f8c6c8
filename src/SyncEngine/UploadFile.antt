-- ===== src/SyncEngine/UploadFile.antt =====
-- plugin/src/SyncEngine.cpp: `uploadFile`. A body that is not an object, where the JSON library throws, is
-- not modelled.
use notepadpp_sync.Prelude.{
  ℕ, Bool, true, false, ◌&&◌, ◌||◌, Option, none, some, [], ◌∷◌, ltb, ◌==◌, if◌then◌else◌, length,
  Bytes, codes, str_eq,
}
use notepadpp_sync.VersionVector.{VersionVector}
use notepadpp_sync.VersionVector.Json.{from_json}
use notepadpp_sync.LocalDb.{LocalDb, LocalFileState, upsert_file, get_file}
use notepadpp_sync.SyncEngine.{Env}
use notepadpp_sync.SyncEngine.Payload.{Payload, Draws, build_file_payload}
use notepadpp_sync.SyncEngine.Upload.{
  UploadAnswer, no_reply, reply, Request, create_file, update_file, Server, Upload, upload_failed,
  or_else, handle_conflict,
}

-- `st && st->localHash == plainHash && st->remoteHash == plainHash`
unfoldable pub unchanged : Option LocalFileState → Bytes → Bool
unchanged none plain_hash = false
unchanged (some st) plain_hash = str_eq st.local_hash plain_hash && str_eq st.remote_hash plain_hash

-- The version that the upload is based on, and its vector.
unfoldable pub base_of : Option LocalFileState → ℕ × VersionVector
base_of none = (0, [])
base_of (some st) = (st.remote_version, st.version_vector)

-- The state behind an accepted upload.
unfoldable pub uploaded_state :
    Option LocalFileState → Bytes → Bytes → Payload → Option ℕ → VersionVector → LocalFileState
uploaded_state st key plain_hash p version vv = record {
  file_id = p.file_id;
  sync_root = elim st [ none ↦ [] | some f ↦ f.sync_root ];
  rel_path = key;
  local_hash = plain_hash;
  remote_hash = plain_hash;
  remote_version = or_else version 1;
  version_vector = vv;
  deleted = false;
  modified_at_local = 0;
}

module _ (env : Env) (draws : Draws) (server : Server) (key abs : Bytes) (db : LocalDb) where
  abbrev pub prepend_request : Request → Option Upload → Option Upload
  prepend_request r none = none
  prepend_request r (some u) = some (record u { requests = r ∷ u.requests })

  -- A status of 200 or 201.
  unfoldable pub upload_accepted : Bytes → Payload → Request → Option ℕ → Option Upload
  upload_accepted plaintext p r version = elim (from_json p.version_vector) [
    | none ↦ none
    | some vv ↦ some (record {
      ok = true;
      error_out = [];
      online = true;
      db =
          upsert_file (uploaded_state (get_file db key) key (env.sha256_hex plaintext) p version vv)
            db;
      effects = [];
      shadows = (key, plaintext) ∷ [];
      requests = r ∷ [];
    })
  ]

  unfoldable pub upload_answered : Bytes → Payload → Request → UploadAnswer → Option Upload
  upload_answered plaintext p r no_reply = some (upload_failed false db (codes "offline") (r ∷ []))
  upload_answered plaintext p r (reply status version message cur) =
      let accepted = upload_accepted plaintext p r version in
      let conflict = prepend_request r (handle_conflict env draws server true key abs db cur) in
      if status == 200 || status == 201
      then accepted
      else if status == 409
      then conflict
      else some (upload_failed true db (or_else message (codes "upload failed")) (r ∷ []))

  -- `createFile` or `updateFile`.
  unfoldable pub upload_payload : Bytes → ℕ → Payload → Option Upload
  upload_payload plaintext base p =
      if base == 0
      then upload_answered plaintext p (create_file p) (server.on_create p)
      else upload_answered plaintext p (update_file p.file_id p) (server.on_update p.file_id p)

  unfoldable pub upload_changed : Bytes → Option Upload
  upload_changed plaintext =
      let (base, vv) = base_of (get_file db key) in
      elim (build_file_payload env draws key plaintext base vv (get_file db key)) [
        | none ↦ none
        | some p ↦ upload_payload plaintext base p
      ]

  -- From the content on.
  unfoldable pub upload_content : Bool → Bytes → Option Upload
  upload_content online plaintext =
      let changed = upload_changed plaintext in
      if ltb server.max_file_bytes (length plaintext)
      then some (upload_failed online db (codes "file exceeds max size") [])
      else if unchanged (get_file db key) (env.sha256_hex plaintext)
      then some (record {
        ok = true;
        error_out = [];
        online = online;
        db = db;
        effects = [];
        shadows = [];
        requests = [];
      })
      else changed

  -- `uploadFile`
  unfoldable pub upload_file : Bool → Option Upload
  upload_file online =
      let read : Option Upload = elim (env.read_file abs) [
        | none ↦ some (upload_failed online db (codes "cannot read file") [])
        | some plaintext ↦ upload_content online plaintext
      ] in
      if length env.master_key == 32
      then read
      else some (upload_failed online db (codes "encryption not set up") [])
