-- ===== src/SyncEngine/Resolved.antt =====
-- plugin/src/SyncEngine.cpp: what `resolveConflict` leaves behind.
use notepadpp_sync.Prelude.{◌≡◌, ◌⊎◌, true, false, some, List, [], ◌∷◌, Bytes, codes, str_eq}
use notepadpp_sync.LocalDb.{LocalDb, ConflictState, select_row, delete_rows}
use notepadpp_sync.SyncEngine.{written, Env, FileBody, fetched, backup, notify, write}
use notepadpp_sync.SyncEngine.Paths.{abs_path_for_rel}
use notepadpp_sync.SyncEngine.Payload.{Draws}
use notepadpp_sync.SyncEngine.Upload.{Server}
use notepadpp_sync.SyncEngine.Resolve.{move, both_name, Action, act, Resolution, remote_plain}

module _ (env : Env) (draws : Draws) (server : Server) (date file : Bytes) (db : LocalDb) where
  -- The conflict of the file is no longer on record, and the queue, the roots and the other conflicts are as before.
  abbrev pub IsForgotten : LocalDb → Type 0
  IsForgotten db' =
      (db'.conflicts ≡ delete_rows (λ c. str_eq c.conflict_file file) db.conflicts)
      × (db'.pending_ops ≡ db.pending_ops)
      × (db'.sync_roots ≡ db.sync_roots)

  -- The text of the server's file.
  abbrev pub IsServers : Bytes → Type 0
  IsServers text =
      (f : FileBody) × (server.on_read file ≡ fetched f)
      × (remote_plain env draws server date file db f ≡ some text)

  -- What replaces the file.
  abbrev pub replaced_by : Bytes → Bytes → List Action
  replaced_by abs text = act (backup abs) ∷ act (write abs text) ∷ act (notify abs) ∷ []

  -- By "keepLocal" the user's text from the conflict copy was written to the path, if that write succeeds; by
  -- "keepRemote" the server's text; by "keepBoth" too, once the copy had its dated name.
  abbrev pub IsKept : Bytes → ConflictState → Bytes → List Action → Type 0
  IsKept strategy c abs acts =
      (text : Bytes) × (((strategy ≡ codes "keepLocal")
          × (env.read_file (env.utf8_to_wide c.local_copy_path) ≡ some text)
          × (acts ≡ act (written env abs text) ∷ []))
        ⊎ ((strategy ≡ codes "keepRemote")
            × IsServers text
            × (env.write_ok abs text ≡ true)
            × (acts ≡ replaced_by abs text))
        ⊎ ((strategy ≡ codes "keepBoth")
            × IsServers text
            × (env.write_ok abs text ≡ true)
            × (acts
                ≡ move (env.utf8_to_wide c.local_copy_path)
                    (both_name env draws server date file db abs)
                  ∷ replaced_by abs text)))

  abbrev pub IsResolved : Bytes → Resolution → Type 0
  IsResolved strategy r =
      (r.ok ≡ true)
      × IsForgotten r.db
      × (c : ConflictState) × (select_row (λ k. str_eq k.conflict_file file) db.conflicts ≡ some c)
      × (abs : Bytes) × (abs_path_for_rel env db c.conflict_path ≡ some abs)
      × IsKept strategy c abs r.actions

  abbrev pub Answered : Bytes → Resolution → Type 0
  Answered strategy r = ((r.ok ≡ false) × (r.db ≡ db)) ⊎ IsResolved strategy r
