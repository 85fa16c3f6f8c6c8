-- ===== src/SyncEngine/Uploads.antt =====
-- plugin/src/SyncEngine.cpp: what `uploadFile` leaves behind.
use notepadpp_sync.Prelude.{
  ◌≡◌, inl, inr, refl, sym, ◌∙◌, ap, subst, ℕ, Bool, true, false, Option, some, [], ◌∷◌, ◌==◌, ltb,
  if◌then◌else◌, length, length-append, Bytes, str_eq, str_eq_refl, arith,
}
use notepadpp_sync.VersionVector.{VersionVector}
use notepadpp_sync.VersionVector.Json.{from_json}
use notepadpp_sync.VersionVector.Sorted.{from_json-IsSorted}
use notepadpp_sync.VersionVector.Canonical.{from_json-IsWritable}
use notepadpp_sync.LocalDb.{LocalDb, LocalFileState, upsert_file, get_file, add_conflict}
use notepadpp_sync.LocalDb.Files.{get_file-upsert_file}
use notepadpp_sync.SyncEngine.{Env, written}
use notepadpp_sync.SyncEngine.Payload.{Payload, Draws}
use notepadpp_sync.SyncEngine.Upload.{Current, Server, Upload, bak_copy}
use notepadpp_sync.SyncEngine.UploadFile.{unchanged, uploaded_state, upload_content, upload_file}
use notepadpp_sync.SyncEngine.Conflicts.{local_text, Handled, handle_conflict-Handled}
use notepadpp_sync.SyncEngine.UploadCases.{by_changed, by_content, by_file}

-- The queue is what it was.
abbrev pub SameQueue : LocalDb → LocalDb → Type 0
SameQueue db db' = (db'.pending_ops ≡ db.pending_ops) × (db'.next_id ≡ db.next_id)

SameQueue-of : (db x y : LocalDb) → x ≡ y → SameQueue db y → SameQueue db x
SameQueue-of db x y e h = subst (SameQueue db) (sym e) h

-- `uploadFile` leaves the queue alone.
pub upload_file-SameQueue :
    (env : Env) (draws : Draws) (server : Server) (online : Bool) (key abs : Bytes) (db : LocalDb)
    (u : Upload)
    → upload_file env draws server key abs db online ≡ some u
    → SameQueue db u.db
unfolding upsert_file add_conflict
upload_file-SameQueue env draws server online key abs db u =
    by_file env draws server key abs db (λ v. SameQueue db v.db) u online (λ _. (refl, refl))
      (λ text _ _.
        by_content env draws server key abs db (λ v. SameQueue db v.db) u online text (refl, refl)
          (λ _ _. (refl, refl))
          (λ _.
            by_changed env draws server key abs db (λ v. SameQueue db v.db) u
              (λ _ _ _. (refl, refl))
              (λ r cur c e.
                conflict cur c (handle_conflict-Handled env draws server true key abs db cur c e))
              text (λ _ _ _ _ _. (refl, refl))))
  where
    conflict :
        (cur : Current) (c : Upload)
        → Handled env draws server true key abs db cur c
        → SameQueue db c.db
    conflict cur c (inl (_, same, _, _)) = SameQueue-of db c.db db same (refl, refl)
    conflict cur c (inr (inl (_, _, _, _, _, _, _, _, _, _, _, _, _, f, _, stored))) =
        SameQueue-of db c.db (upsert_file f db) stored (refl, refl)
    conflict cur c (inr (inr (_, _, _, _, k, _, recorded, _, _, _, _, _))) =
        SameQueue-of db c.db (add_conflict k env.now db) recorded (refl, refl)

-- Nothing but the connection changed.
abbrev pub IsUntouched : LocalDb → Upload → Type 0
IsUntouched db u = (u.db ≡ db) × (u.effects ≡ []) × (u.shadows ≡ [])

abbrev FailsUntouched : LocalDb → Upload → Type 0
FailsUntouched db u = u.ok ≡ false → IsUntouched db u

-- Where `uploadFile` returns and has failed, the database and the shadow copies are as before and nothing
-- was written to the disk.
pub upload_file-IsUntouched :
    (env : Env) (draws : Draws) (server : Server) (online : Bool) (key abs : Bytes) (db : LocalDb)
    (u : Upload)
    → upload_file env draws server key abs db online ≡ some u
    → u.ok ≡ false
    → IsUntouched db u
upload_file-IsUntouched env draws server online key abs db u =
    by_file env draws server key abs db (FailsUntouched db) u online (λ _ _. (refl, refl, refl))
      (λ text _ _.
        by_content env draws server key abs db (FailsUntouched db) u online text
          (λ _. (refl, refl, refl)) (λ _ _ e. cc)
          (λ _.
            by_changed env draws server key abs db (FailsUntouched db) u
              (λ _ _ _ _. (refl, refl, refl))
              (λ r cur c e.
                conflict cur c (handle_conflict-Handled env draws server true key abs db cur c e))
              text (λ _ _ _ _ _ e. cc)))
  where
    conflict :
        (cur : Current) (c : Upload)
        → Handled env draws server true key abs db cur c
        → FailsUntouched db c
    conflict cur c (inl (_, stays, nothing, no_shadow)) e = (stays, nothing, no_shadow)
    conflict cur c (inr (inl (_, _, _, _, _, _, _, _, _, _, _, _, ok, _, _, _))) e = cc
    conflict cur c (inr (inr (_, _, _, _, _, _, _, _, _, _, _, ok))) e = cc

-- A result that neither failed nor wrote to the disk, after which the same call sends nothing.
abbrev Repeats : Env → Draws → Server → Bytes → Bytes → Upload → Type 0
Repeats env draws server key abs u =
    u.ok ≡ true
    → u.effects ≡ []
    → upload_file env draws server key abs u.db u.online
      ≡ some (record {
        ok = true;
        error_out = [];
        online = u.online;
        db = u.db;
        effects = [];
        shadows = [];
        requests = [];
      })

again :
    (env : Env) (draws : Draws) (server : Server) (online : Bool) (key abs plaintext : Bytes)
    (db : LocalDb)
    → length env.master_key == 32 ≡ true
    → env.read_file abs ≡ some plaintext
    → ltb server.max_file_bytes (length plaintext) ≡ false
    → unchanged (get_file db key) (env.sha256_hex plaintext) ≡ true
    → upload_file env draws server key abs db online
      ≡ some (record {
        ok = true;
        error_out = [];
        online = online;
        db = db;
        effects = [];
        shadows = [];
        requests = [];
      })
unfolding upload_file upload_content
again env draws server online key abs plaintext db keyed read fits same =
    rw (keyed, read, fits, same) refl

-- A state that is found under its path is unchanged against its own hash.
unchanged_of :
    (f : LocalFileState) (hash key : Bytes) (found rest : Option LocalFileState)
    → found ≡ (if str_eq key f.rel_path then some f else rest)
    → f.rel_path ≡ key
    → f.local_hash ≡ hash
    → f.remote_hash ≡ hash
    → unchanged found hash ≡ true
unfolding unchanged
unchanged_of f hash key found rest e at_key local remote =
    rw (e, at_key, str_eq_refl key, local, remote, str_eq_refl hash) refl

-- Where `uploadFile` succeeds and made no call that changes the disk, the same call after it, on the same file, sends
-- no request, changes nothing and succeeds.
pub upload_file_again :
    (env : Env) (draws : Draws) (server : Server) (online : Bool) (key abs : Bytes) (db : LocalDb)
    (u : Upload)
    → upload_file env draws server key abs db online ≡ some u
    → u.ok ≡ true
    → u.effects ≡ []
    → upload_file env draws server key abs u.db u.online
      ≡ some (record {
        ok = true;
        error_out = [];
        online = u.online;
        db = u.db;
        effects = [];
        shadows = [];
        requests = [];
      })
unfolding uploaded_state
upload_file_again env draws server online key abs db u =
    by_file env draws server key abs db (Repeats env draws server key abs) u online (λ _ e. cc)
      (λ text keyed read.
        by_content env draws server key abs db (Repeats env draws server key abs) u online text
          (λ e. cc)
          (λ fits same _ _. again env draws server online key abs text db keyed read fits same)
          (λ fits.
            by_changed env draws server key abs db (Repeats env draws server key abs) u
              (λ _ _ _ e. cc)
              (λ r cur c e.
                conflict cur c (handle_conflict-Handled env draws server true key abs db cur c e))
              text
              (λ p r version vv e _ _.
                again env draws server true key abs text _ keyed read fits
                  (stored text p version vv e))))
  where
    conflict :
        (cur : Current) (c : Upload)
        → Handled env draws server true key abs db cur c
        → Repeats env draws server key abs c
    conflict cur c (inl (failed, _, _, _)) e _ = cc
    conflict cur c (inr (inl (_, _, _, _, _, _, _, _, _, _, wrote, _, _, _, _, _))) e none_written =
        cc
    conflict cur c (inr (inr (_, _, es, _, _, wrote, _, _, _, _, _, _))) e none_written = absurd (
        omega (
          arith,
          ap length (sym wrote ∙ none_written),
          length-append es (
              written env (bak_copy env draws server true key abs db)
                (local_text env draws server true key abs db)
              ∷ []),
        ))

    stored :
        (text : Bytes) (p : Payload) (version : Option ℕ) (vv : VersionVector)
        → from_json p.version_vector ≡ some vv
        → unchanged
            (get_file
              (upsert_file
                (uploaded_state (get_file db key) key (env.sha256_hex text) p version vv)
                db)
              key)
            (env.sha256_hex text)
          ≡ true
    stored text p version vv e =
        unchanged_of (uploaded_state (get_file db key) key (env.sha256_hex text) p version vv)
          (env.sha256_hex text) key _ _
          (get_file-upsert_file
            (uploaded_state (get_file db key) key (env.sha256_hex text) p version vv) db key
            (from_json-IsSorted p.version_vector vv e) (from_json-IsWritable p.version_vector vv e))
          refl refl refl
