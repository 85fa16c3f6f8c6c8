-- ===== src/SyncEngine/Upload.antt =====
-- plugin/src/SyncEngine.cpp: `uploadFile` and `handleConflict`. The whole is `none` where the code throws,
-- or where a counter of a version vector passes the largest `int64_t`.
use notepadpp_sync.Prelude.{
  ℕ, ◌+◌, Bool, true, false, not, Option, none, some, List, [], ◌∷◌, ◌++◌, ◌==◌, if◌then◌else◌,
  Bytes, codes, str_eq,
}
use notepadpp_sync.Crypto.Base64.{base64_url_decode}
use notepadpp_sync.Crypto.Envelope.{decrypt}
use notepadpp_sync.Merge.{merge}
use notepadpp_sync.VersionVector.Json.{from_json}
use notepadpp_sync.LocalDb.{LocalDb, LocalFileState, upsert_file, get_file, add_conflict}
use notepadpp_sync.SyncEngine.{
  written, Env, FileBody, Answer, fetched, unreachable, refused, Effect, backup, notify, write,
}
use notepadpp_sync.SyncEngine.Apply.{blank_state}
use notepadpp_sync.SyncEngine.Payload.{Payload, Draws, build_file_payload}

-- "current" of a 409 answer; a field that is missing has its default.
pub record Current : Type 0 where
  pub cur_file_id : Bytes
  pub cur_version : ℕ
  pub cur_vector : Bytes
  pub cur_hash : Bytes

-- `ApiResponse` of `createFile` and `updateFile`: no transport, or the status, "version" and "message", if
-- the body has them, and "current".
pub data UploadAnswer : Type 0 where
  no_reply : UploadAnswer
  reply : ℕ → Option ℕ → Option Bytes → Current → UploadAnswer

-- The requests of an upload, in their order.
pub data Request : Type 0 where
  create_file : Payload → Request
  update_file : Bytes → Payload → Request
  read_remote : Bytes → Request

-- The server, the settings and the shadow copies at the call.
pub record Server : Type 0 where
  pub on_create : Payload → UploadAnswer
  pub on_update : Bytes → Payload → UploadAnswer
  pub on_read : Bytes → Answer
  pub read_shadow : Bytes → Option Bytes
  pub max_file_bytes : ℕ
  pub device_name : Bytes

pub record Upload : Type 0 where
  pub ok : Bool
  pub error_out : Bytes
  pub online : Bool
  pub db : LocalDb
  pub effects : List Effect
  pub shadows : List (Bytes × Bytes)
  pub requests : List Request

abbrev pub upload_failed : Bool → LocalDb → Bytes → List Request → Upload
upload_failed online db message rs = record {
  ok = false;
  error_out = message;
  online = online;
  db = db;
  effects = [];
  shadows = [];
  requests = rs;
}

abbrev pub or_else {ℓ} : {A : Type ℓ} → Option A → A → A
or_else none d = d
or_else (some a) d = a

-- The state that `st.value_or(LocalFileState{})` begins with.
abbrev pub state_or_blank : Option LocalFileState → LocalFileState
state_or_blank st = or_else st blank_state

module _ (env : Env) (draws : Draws) (server : Server) (online : Bool) (key abs : Bytes)
    (db : LocalDb) where
  -- The name of the conflict copy.
  abbrev pub bak_copy : Bytes
  bak_copy =
      abs ++ (codes " (conflict - " ++ (env.utf8_to_wide server.device_name ++ codes ").bak"))

  -- The end of `handleConflict`: the local text is kept in a copy, whether or not its write succeeds. What the merge did before comes first.
  unfoldable pub keep_local : Current → Bytes → List Effect → List Request → Upload
  keep_local cur local_text es rs = record {
    ok = true;
    error_out = [];
    online = online;
    db =
        add_conflict
          (record {
            conflict_file = cur.cur_file_id;
            conflict_path = key;
            conflict_version = cur.cur_version;
            local_copy_path = env.wide_to_utf8 bak_copy;
            remote_blob_hash = cur.cur_hash;
            detected_at = 0;
          })
          env.now db;
    effects = es ++ written env bak_copy local_text ∷ [];
    shadows = [];
    requests = rs;
  }

  -- The state behind an accepted merge.
  unfoldable pub merged_state : Current → Bytes → Bytes → Option ℕ → Option LocalFileState
  merged_state cur text vector version = elim (from_json vector) [
    | none ↦ none
    | some vv ↦ some (record (state_or_blank (get_file db key)) {
      rel_path = key;
      file_id = cur.cur_file_id;
      local_hash = env.sha256_hex text;
      remote_hash = env.sha256_hex text;
      remote_version = or_else version (cur.cur_version + 1);
      version_vector = vv;
    })
  ]

  abbrev pub merge_effects : Bytes → List Effect
  merge_effects text = write abs text ∷ backup abs ∷ notify abs ∷ []

  -- The answer to the upload of the merged text.
  unfoldable pub merge_answered : Current → Bytes → Bytes → Payload → UploadAnswer → Option Upload
  merge_answered cur local_text text p no_reply = some (
      keep_local cur local_text (merge_effects text)
        (read_remote cur.cur_file_id ∷ update_file cur.cur_file_id p ∷ []))
  merge_answered cur local_text text p (reply status version message c) =
      let rs = read_remote cur.cur_file_id ∷ update_file cur.cur_file_id p ∷ [] in
      let accepted : Option Upload = elim (merged_state cur text p.version_vector version) [
        | none ↦ none
        | some f ↦ some (record {
          ok = true;
          error_out = [];
          online = online;
          db = upsert_file f db;
          effects = merge_effects text;
          shadows = (key, text) ∷ [];
          requests = rs;
        })
      ] in
      if status == 200 then accepted else some (keep_local cur local_text (merge_effects text) rs)

  -- A clean merge: written, then uploaded over the server's head.
  unfoldable pub upload_merged : Current → Bytes → Bytes → Option Upload
  upload_merged cur local_text text =
      let rs = read_remote cur.cur_file_id ∷ [] in
      let sent : Option Upload = elim (from_json cur.cur_vector) [
        | none ↦ none
        | some vv ↦
            elim (build_file_payload env draws key text cur.cur_version vv (get_file db key)) [
              | none ↦ none
              | some p ↦ merge_answered cur local_text text p (server.on_update cur.cur_file_id p)
            ]
      ] in
      if not (env.write_ok abs text)
      then some (upload_failed online db (codes "cannot write merged file") rs)
      else sent

  -- From the texts on.
  unfoldable pub merge_texts : Current → Bytes → Bytes → Bytes → Option Upload
  merge_texts cur base_text local_text remote_text =
      let m = merge base_text local_text remote_text in
      let merged = upload_merged cur local_text m.merged in
      if m.clean
      then merged
      else some (keep_local cur local_text [] (read_remote cur.cur_file_id ∷ []))

  unfoldable pub conflict_body : Current → FileBody → Option Upload
  conflict_body cur f =
      let rs = read_remote cur.cur_file_id ∷ [] in
      elim (base64_url_decode f.encrypted_content) [
        | none ↦ some (upload_failed online db (codes "bad remote payload") rs)
        | some enc ↦ elim (decrypt env.gcm_open env.master_key enc (codes "file")) [
          | none ↦ some (upload_failed online db (codes "cannot decrypt remote version") rs)
          | some remote_text ↦
              merge_texts cur (or_else (server.read_shadow key) []) (or_else (env.read_file abs) [])
                remote_text
        ]
      ]

  unfoldable pub conflict_fetched : Current → Answer → Option Upload
  conflict_fetched cur unreachable = some (
      upload_failed online db (codes "cannot fetch remote version")
        (read_remote cur.cur_file_id ∷ []))
  conflict_fetched cur refused = some (
      upload_failed online db (codes "cannot fetch remote version")
        (read_remote cur.cur_file_id ∷ []))
  conflict_fetched cur (fetched f) = conflict_body cur f

  -- `handleConflict`
  unfoldable pub handle_conflict : Current → Option Upload
  handle_conflict cur =
      if str_eq cur.cur_file_id []
      then some (upload_failed online db (codes "conflict without file id") [])
      else conflict_fetched cur (server.on_read cur.cur_file_id)
