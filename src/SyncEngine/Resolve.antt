-- ===== src/SyncEngine/Resolve.antt =====
-- plugin/src/SyncEngine.cpp: `resolveConflict`. The date of the conflict copy is an argument, and a body
-- without a "version", or one that is not an object, is not modelled. The whole is `none` where the code throws.
use notepadpp_sync.Prelude.{
  ℕ, ◌+◌, Bool, true, false, Option, none, some, List, [], ◌∷◌, ◌++◌, ◌==◌, if◌then◌else◌, Bytes,
  codes, str_eq, contains,
}
use notepadpp_sync.Crypto.Base64.{base64_url_decode}
use notepadpp_sync.Crypto.Envelope.{decrypt}
use notepadpp_sync.VersionVector.Json.{from_json}
use notepadpp_sync.LocalDb.{
  LocalDb, LocalFileState, ConflictState, select_row, upsert_file, get_file, resolve_conflict,
}
use notepadpp_sync.SyncEngine.{
  written, Env, FileBody, Answer, fetched, unreachable, refused, Effect, backup, notify, write,
}
use notepadpp_sync.SyncEngine.Paths.{abs_path_for_rel, file_name_of, dir_of}
use notepadpp_sync.SyncEngine.Payload.{Draws, build_file_payload}
use notepadpp_sync.SyncEngine.Upload.{UploadAnswer, no_reply, reply, Server, or_else}
use notepadpp_sync.SyncEngine.UploadFile.{base_of}

-- What the code does to the disk: an effect, or `MoveFileExW`.
pub data Action : Type 0 where
  act : Effect → Action
  move : Bytes → Bytes → Action

pub record Resolution : Type 0 where
  pub ok : Bool
  pub error_out : Bytes
  pub db : LocalDb
  pub actions : List Action
  pub shadows : List (Bytes × Bytes)

abbrev pub unresolved : LocalDb → Bytes → List Action → Resolution
unresolved db message acts = record {
  ok = false;
  error_out = message;
  db = db;
  actions = acts;
  shadows = [];
}

-- `name.find_last_of(L'.')`: the stem, and the extension with its dot.
unfoldable pub split_extension : Bytes → Bytes × Bytes
split_extension [] = ([], [])
split_extension (c ∷ s) =
    let (stem, ext) = split_extension s in
    if contains b'.' s then (c ∷ stem, ext) else if c == b'.' then ([], c ∷ s) else (c ∷ s, [])

module _ (env : Env) (draws : Draws) (server : Server) (date file : Bytes) (db : LocalDb) where
  -- The name that "keepBoth" gives to the local copy.
  unfoldable pub both_name : Bytes → Bytes
  both_name abs =
      let (stem, ext) = split_extension (file_name_of abs) in
      dir_of abs
      ++ (codes "\\"
          ++ (stem
              ++ (codes " (conflict - "
                  ++ (env.utf8_to_wide server.device_name
                      ++ (codes " - " ++ (env.utf8_to_wide date ++ (codes ")" ++ ext)))))))

  -- The end: the state is stored, if there was one, and the conflict is no longer on record.
  unfoldable pub settle : Bytes → Bytes → Option LocalFileState → List Action → Resolution
  settle key text none acts = record {
    ok = true;
    error_out = [];
    db = resolve_conflict file db;
    actions = acts;
    shadows = [];
  }
  settle key text (some f) acts = record {
    ok = true;
    error_out = [];
    db = resolve_conflict file (upsert_file f db);
    actions = acts;
    shadows = (key, text) ∷ [];
  }

  -- The stored state with the hashes of a text and a version.
  abbrev pub resolved_state : Bytes → ℕ → LocalFileState → LocalFileState
  resolved_state text version st = record st {
    local_hash = env.sha256_hex text;
    remote_hash = env.sha256_hex text;
    remote_version = version;
  }

  abbrev pub state_with : Option LocalFileState → Bytes → ℕ → Option LocalFileState
  state_with none text version = none
  state_with (some st) text version = some (resolved_state text version st)

  -- The answer to the upload of "keepLocal", which does not look at what the write of the file returned. Where
  -- the server cannot be reached the body is null, and its `value` throws.
  unfoldable pub keep_local_answered :
      ConflictState → Bytes → Bytes → UploadAnswer → Option Resolution
  keep_local_answered c abs text no_reply = none
  keep_local_answered c abs text (reply status version message cur) =
      if status == 200
      then some (
          settle c.conflict_path text
            (state_with (get_file db c.conflict_path) text
              (or_else version (c.conflict_version + 1)))
            (act (written env abs text) ∷ []))
      else some (
          unresolved db (or_else message (codes "upload failed")) (act (written env abs text) ∷ []))

  -- "keepLocal"
  unfoldable pub resolve_local : ConflictState → Bytes → Option Resolution
  resolve_local c abs = elim (env.read_file (env.utf8_to_wide c.local_copy_path)) [
    | none ↦ some (unresolved db (codes "local copy missing") [])
    | some text ↦
        elim (build_file_payload env draws c.conflict_path text c.conflict_version
          (base_of (get_file db c.conflict_path)).1 (get_file db c.conflict_path)) [
            | none ↦ none
            | some p ↦ keep_local_answered c abs text (server.on_update file p)
          ]
  ]

  -- The text of the server's file.
  unfoldable pub remote_plain : FileBody → Option Bytes
  remote_plain f = elim (base64_url_decode f.encrypted_content) [
    | none ↦ none
    | some enc ↦ decrypt env.gcm_open env.master_key enc (codes "file")
  ]

  -- `writeFileAtomic` of the server's text and what follows; `acts` were done before.
  unfoldable pub write_remote :
      Bytes → Bytes → Bytes → Option LocalFileState → List Action → Resolution
  write_remote key abs text f acts =
      if env.write_ok abs text
      then settle key text f
          (acts ++ act (backup abs) ∷ act (write abs text) ∷ act (notify abs) ∷ [])
      else unresolved db (codes "write failed") (acts ++ act (backup abs) ∷ [])

  -- "keepRemote" from the text on: the stored vector becomes the server's.
  unfoldable pub remote_text_kept : ConflictState → Bytes → FileBody → Bytes → Option Resolution
  remote_text_kept c abs f text = elim (get_file db c.conflict_path) [
    | none ↦ some (write_remote c.conflict_path abs text none [])
    | some st ↦ elim (from_json f.vector_json) [
      | none ↦
          if env.write_ok abs text
          then none
          else some (write_remote c.conflict_path abs text none [])
      | some vv ↦ some (
          write_remote c.conflict_path abs text
            (some (record (resolved_state text f.version st) { version_vector = vv })) [])
    ]
  ]

  -- "keepBoth" from the text on: the local copy gets its dated name first.
  unfoldable pub both_texts_kept : ConflictState → Bytes → FileBody → Bytes → Option Resolution
  both_texts_kept c abs f text = some (
      write_remote c.conflict_path abs text
        (state_with (get_file db c.conflict_path) text f.version)
        (move (env.utf8_to_wide c.local_copy_path) (both_name abs) ∷ []))

  -- What "keepRemote" and "keepBoth" begin with.
  unfoldable pub fetch_remote : (FileBody → Bytes → Option Resolution) → Answer → Option Resolution
  fetch_remote next unreachable = some (unresolved db (codes "cannot fetch remote") [])
  fetch_remote next refused = some (unresolved db (codes "cannot fetch remote") [])
  fetch_remote next (fetched f) = elim (remote_plain f) [
    | none ↦ some (unresolved db (codes "cannot decrypt remote") [])
    | some text ↦ next f text
  ]

  -- From the path on.
  unfoldable pub resolve_at : Bytes → ConflictState → Bytes → Option Resolution
  resolve_at strategy c abs =
      let keep = resolve_local c abs in
      let replace_it = fetch_remote (remote_text_kept c abs) (server.on_read file) in
      let both = fetch_remote (both_texts_kept c abs) (server.on_read file) in
      if str_eq strategy (codes "keepLocal")
      then keep
      else if str_eq strategy (codes "keepRemote")
      then replace_it
      else if str_eq strategy (codes "keepBoth")
      then both
      else some (unresolved db (codes "unknown strategy") [])

  -- `resolveConflict`; at most one conflict is on record for a file.
  unfoldable pub resolve_by : Bytes → Option Resolution
  resolve_by strategy = elim (select_row (λ c. str_eq c.conflict_file file) db.conflicts) [
    | none ↦ some (unresolved db (codes "conflict not found") [])
    | some c ↦ elim (abs_path_for_rel env db c.conflict_path) [
      | none ↦ some (unresolved db (codes "cannot map path") [])
      | some abs ↦ resolve_at strategy c abs
    ]
  ]
