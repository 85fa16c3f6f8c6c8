-- ===== src/SyncEngine/Roots.antt =====
-- plugin/src/SyncEngine.cpp: `addSyncRootPath`, `removeSyncRootPath`, and the ids of the roots.
use notepadpp_sync.Prelude.{Bool, Bytes, take}
use notepadpp_sync.LocalDb.{LocalDb, add_sync_root, remove_sync_root}
use notepadpp_sync.SyncEngine.{Env}

module _ (env : Env) where
  -- The first 16 digits of the hash of the path.
  unfoldable pub root_id_of : Bytes → Bytes
  root_id_of path = take 16 (env.sha256_hex (env.wide_to_utf8 path))

  -- The database behind `addSyncRootPath`. The path is kept in UTF-8 and is read back from it.
  unfoldable pub add_sync_root_path : Bytes → Bool → LocalDb → LocalDb
  add_sync_root_path path is_folder db =
      add_sync_root (root_id_of path) (env.utf8_to_wide (env.wide_to_utf8 path)) is_folder db

-- The database behind `removeSyncRootPath`.
unfoldable pub remove_sync_root_path : Bytes → LocalDb → LocalDb
remove_sync_root_path id db = remove_sync_root id db
