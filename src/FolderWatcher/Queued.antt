-- ===== src/FolderWatcher/Queued.antt =====
-- plugin/src/FolderWatcher.cpp and SyncEngine.cpp: the events of the watcher in the hands of `onFsEvent`.
use notepadpp_sync.Prelude.{ℕ, suc, Bool, List, [], ◌∷◌}
use notepadpp_sync.LocalDb.{LocalDb}
use notepadpp_sync.SyncEngine.{Env}
use notepadpp_sync.SyncEngine.Events.{on_fs_event}
use notepadpp_sync.FolderWatcher.{FsEvent}

-- For the n-th event: whether the engine is ready, whether the path is a directory, and the time.
module _ (env : Env) (ready is_dir : ℕ → Bool) (clock : ℕ → ℕ) where
  -- The calls of `onFsEvent` for events in turn, from the n-th on.
  unfoldable pub on_fs_events : ℕ → List FsEvent → LocalDb → LocalDb
  on_fs_events n [] db = db
  on_fs_events n (e ∷ es) db =
      on_fs_events (suc n) es
        (on_fs_event env (ready n) e.kind (is_dir n) (clock n) e.abs_path e.old_abs_path db)
