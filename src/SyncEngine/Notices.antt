-- ===== src/SyncEngine/Notices.antt =====
-- plugin/src/SyncEngine.cpp: `onFileOpened`, `onWsEvent`, and the device list's renaming and revoking. The status
-- line is left out.
use notepadpp_sync.Prelude.{
  ◌≡◌, refl, ◌∙◌, ℕ, Bool, true, false, not, ◌||◌, ◌==◌, Option, none, some, [], arith,
  if◌then◌else◌, Bytes, codes, str_eq, str_eq_refl,
}
use notepadpp_sync.LocalDb.{
  LocalDb, LocalFileState, get_file, upsert_file, list_sync_roots, list_sync_files,
}
use notepadpp_sync.LocalDb.Files.{get_file-upsert_file}
use notepadpp_sync.SyncEngine.{Env, Answer}
use notepadpp_sync.SyncEngine.Paths.{split_colon}
use notepadpp_sync.SyncEngine.Apply.{apply_remote_file}
use notepadpp_sync.SyncEngine.Pull.{Feed, pull_changes}
use notepadpp_sync.SyncEngine.Events.{locate_in_roots}
use notepadpp_sync.SyncEngine.Keys.{Response}
use notepadpp_sync.SyncEngine.Account.{Account, sign_out}
use notepadpp_sync.SyncEngine.Scanner.{scan_key, scan_file}

-- `s.substr(0, s.find(':'))`
unfoldable pub root_of : Bytes → Bytes
root_of key = elim (split_colon key) [ none ↦ key | some (id, rel) ↦ id ]

-- The state of a file that is not known yet.
unfoldable pub opened_state : Bytes → LocalFileState
opened_state key = record {
  file_id = [];
  sync_root = root_of key;
  rel_path = key;
  local_hash = [];
  remote_hash = [];
  remote_version = 0;
  version_vector = [];
  deleted = false;
  modified_at_local = 0;
}

-- The device event of the web socket, with "" for what it lacks.
pub record WsEvent : Type 0 where
  pub event_type : Bytes
  pub origin_device_id : Bytes
  pub event_file_id : Bytes
  pub event_device_id : Bytes

-- What `onWsEvent` works on.
pub record Session : Type 0 where
  pub account : Account
  pub session_db : LocalDb

module _ (env : Env) where
  unfoldable pub opened_key : Bytes → LocalDb → LocalDb
  opened_key key db = elim (get_file db key) [
    | none ↦ upsert_file (opened_state key) db
    | some st ↦ db
  ]

  -- `onFileOpened`
  unfoldable pub on_file_opened : Bool → Bytes → LocalDb → LocalDb
  on_file_opened signed_in abs db =
      let located : LocalDb = elim (locate_in_roots env db abs) [
        | none ↦ db
        | some key ↦ opened_key key db
      ] in
      if signed_in then located else db

  -- A changed or deleted file: of this device, without an id, or to be fetched; where that fails, all changes are
  -- asked for.
  unfoldable pub on_file_event : Bytes → WsEvent → Answer → Feed → LocalDb → Option LocalDb
  on_file_event device ev answer feed db =
      let fetched : Option LocalDb = elim (apply_remote_file env ev.event_file_id answer db) [
        | none ↦ none
        | some o ↦ if o.ok then some o.db else pull_changes device feed o.db
      ] in
      if str_eq ev.origin_device_id device
      then some db
      else if str_eq ev.event_file_id []
      then some db
      else fetched

  -- `onWsEvent`, for a client with tokens and a master key; `none` where `applyRemoteFile` throws. `deletes`
  -- tells which secrets can be deleted.
  unfoldable pub on_ws_event : (Bytes → Bool) → WsEvent → Answer → Feed → Session → Option Session
  on_ws_event deletes ev answer feed s =
      let device : Bytes = s.account.device_id in
      let changed : Option Session = elim (on_file_event device ev answer feed s.session_db) [
        | none ↦ none
        | some db ↦ some (record s { session_db = db })
      ] in
      if str_eq ev.event_type (codes "file_changed") || str_eq ev.event_type (codes "file_deleted")
      then changed
      else if str_eq ev.event_type (codes "device_revoked")
      then some (
          if str_eq ev.event_device_id device
          then record s { account = sign_out deletes s.account }
          else s)
      else some s

-- `revokeDeviceById`: the error, `none` for success. The whole is `none` where it throws.
unfoldable pub revoke_device_by_id : Response → Option (Option Bytes)
revoke_device_by_id r =
    let refused : Option (Option Bytes) = elim (r.text (codes "message") (codes "revoke failed")) [
      | none ↦ none
      | some message ↦ some (some message)
    ] in
    if not (r.status == 200) then refused else some none

-- `renameDeviceById`: the error, and the account behind it; `none` where it throws.
unfoldable pub rename_device_by_id :
    Response → Bytes → Bytes → Account → Option (Option Bytes × Account)
rename_device_by_id r id name a =
    let refused : Option (Option Bytes × Account) =
      elim (r.text (codes "message") (codes "rename failed")) [
        | none ↦ none
        | some message ↦ some (some message, a)
      ] in
    if not (r.status == 200)
    then refused
    else some (none, if str_eq id a.device_id then record a { device_name = name } else a)

module _ (env : Env) (now : ℕ) where
  get_file_known :
      (key : Bytes) (db : LocalDb) (o : Option LocalFileState)
      → get_file db key ≡ o
      → (st : LocalFileState) × (get_file (opened_key env key db) key ≡ some st)
  unfolding opened_key opened_state
  get_file_known key db (some st) e = (st, rw (opened_key, e) e)
  get_file_known key db none e = (
    opened_state key,
    rw (opened_key, e)
        (get_file-upsert_file (opened_state key) db key tt tt ∙ rw (str_eq_refl key) refl),
  )

  locate-opened_key :
      (abs key : Bytes) (db : LocalDb) (o : Option LocalFileState)
      → get_file db key ≡ o
      → locate_in_roots env (opened_key env key db) abs ≡ locate_in_roots env db abs
  unfolding opened_key locate_in_roots list_sync_roots list_sync_files upsert_file
  locate-opened_key abs key db (some st) e = rw (opened_key, e) refl
  locate-opened_key abs key db none e = rw (opened_key, e) refl

  scan_key-known :
      (key : Bytes) (db : LocalDb) (st : LocalFileState)
      → get_file db key ≡ some st
      → scan_key env now key db ≡ db
  unfolding scan_key
  scan_key-known key db st e = rw (scan_key, e) (ground arith)

  -- A file in a root that was opened in the editor of a user who is signed in is passed over by the scanner
  -- right behind `onFileOpened`, whether or not it was ever uploaded.
  pub scan_file-on_file_opened :
      (abs key : Bytes) (db : LocalDb)
      → locate_in_roots env db abs ≡ some key
      → scan_file env now abs (on_file_opened env true abs db) ≡ on_file_opened env true abs db
  unfolding on_file_opened scan_file
  scan_file-on_file_opened abs key db e =
      let (st, known) = get_file_known key db (get_file db key) refl in
      let located = locate-opened_key abs key db (get_file db key) refl ∙ e in
      rw (on_file_opened, e)
        (rw (scan_file, located) (scan_key-known key (opened_key env key db) st known))
