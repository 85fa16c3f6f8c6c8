-- ===== src/SyncEngine/Events.antt =====
-- plugin/src/SyncEngine.cpp: what a saved file and the events of the folder watcher put into the queue, and
-- `deleteRemote`. The clock and the ready state, not paused and signed in, are arguments.
use notepadpp_sync.Prelude.{
  ℕ, Bool, true, false, ◌||◌, Option, none, some, List, [], ◌∷◌, ◌++◌, ◌==◌, if◌then◌else◌, length,
  drop, map, Bytes, codes, str_eq,
}
use notepadpp_sync.PathUtil.{normalize_relative, is_inside_root}
use notepadpp_sync.LocalDb.{LocalDb, enqueue_op, list_sync_roots, list_sync_files}
use notepadpp_sync.LocalDb.Queue.{IsQueue, enqueue_op-IsQueue}
use notepadpp_sync.SyncEngine.{Env}
use notepadpp_sync.SyncEngine.Paths.{file_name_of}

-- `while (!rel.empty() && (rel.front() == L'\\' || rel.front() == L'/')) rel.erase(rel.begin())`
unfoldable pub drop_separators : Bytes → Bytes
drop_separators [] = []
drop_separators (c ∷ s) =
    let rest = drop_separators s in if c == b'\\' || c == b'/' then rest else c ∷ s

module _ (env : Env) where
  -- The loop over the single files: the key of the first that is the path, case folded.
  unfoldable pub locate_in_files : List (Bytes × Bytes) → Bytes → Option Bytes
  locate_in_files [] abs = none
  locate_in_files ((id, f) ∷ files) abs =
      let rest = locate_in_files files abs in
      if str_eq (map env.towlower f) (map env.towlower abs)
      then some (codes "file:" ++ env.wide_to_utf8 (file_name_of f))
      else rest

  -- The loop over the folders; `otherwise` is what follows it.
  unfoldable pub locate_in_folders : List (Bytes × Bytes) → Bytes → Option Bytes → Option Bytes
  locate_in_folders [] abs otherwise = otherwise
  locate_in_folders ((id, root) ∷ roots) abs otherwise =
      let rest = locate_in_folders roots abs otherwise in
      let here : Option Bytes =
        elim (normalize_relative (env.wide_to_utf8 (drop_separators (drop (length root) abs)))) [
          | none ↦ none
          | some norm ↦ some (id ++ b':' ∷ norm)
        ] in
      if is_inside_root env.towlower root abs then here else rest

  -- The key that `locateInRoots` returns.
  unfoldable pub locate_in_roots : LocalDb → Bytes → Option Bytes
  locate_in_roots db abs =
      locate_in_folders (list_sync_roots db) abs (locate_in_files (list_sync_files db) abs)

  -- `queueUpload`
  unfoldable pub queue_upload : ℕ → Bytes → LocalDb → LocalDb
  queue_upload now key db = enqueue_op (codes "upload") key [] now db

  -- `onFileSaved`
  unfoldable pub on_file_saved : Bool → ℕ → Bytes → LocalDb → LocalDb
  on_file_saved ready now abs db =
      let queued : LocalDb = elim (locate_in_roots db abs) [
        | none ↦ db
        | some key ↦ queue_upload now key db
      ] in
      if ready then queued else db

-- `FsEvent::Kind`
pub data Kind : Type 0 where
  created modified deleted_file renamed_from renamed_to : Kind

module _ (env : Env) where
  -- A path that no root holds: the other end of a rename may be in one.
  unfoldable pub on_outside : Kind → ℕ → Bytes → LocalDb → LocalDb
  on_outside renamed_to now old_abs db =
      let moved : LocalDb = elim (locate_in_roots env db old_abs) [
        | none ↦ db
        | some key ↦ enqueue_op (codes "delete") key [] now db
      ] in
      if str_eq old_abs [] then db else moved
  on_outside created now old_abs db = db
  on_outside modified now old_abs db = db
  on_outside deleted_file now old_abs db = db
  on_outside renamed_from now old_abs db = db

  -- The `switch`; `is_dir` is what `GetFileAttributesW` says of the path.
  unfoldable pub on_inside : Kind → Bool → ℕ → Bytes → LocalDb → LocalDb
  on_inside created is_dir now key db = if is_dir then db else queue_upload env now key db
  on_inside modified is_dir now key db = if is_dir then db else queue_upload env now key db
  on_inside deleted_file is_dir now key db = enqueue_op (codes "delete") key [] now db
  on_inside renamed_from is_dir now key db = db
  on_inside renamed_to is_dir now key db = queue_upload env now key db

  -- `onFsEvent`
  unfoldable pub on_fs_event : Bool → Kind → Bool → ℕ → Bytes → Bytes → LocalDb → LocalDb
  on_fs_event ready kind is_dir now abs old_abs db =
      let handled : LocalDb = elim (locate_in_roots env db abs) [
        | none ↦ on_outside kind now old_abs db
        | some key ↦ on_inside kind is_dir now key db
      ] in
      if ready then handled else db

  inside-IsQueue :
      (kind : Kind) (is_dir : Bool) (now : ℕ) (key : Bytes) (db : LocalDb)
      → IsQueue db
      → IsQueue (on_inside kind is_dir now key db)
  unfolding on_inside queue_upload
  inside-IsQueue created true now key db q = q
  inside-IsQueue created false now key db q = enqueue_op-IsQueue (codes "upload") key [] now db q
  inside-IsQueue modified true now key db q = q
  inside-IsQueue modified false now key db q = enqueue_op-IsQueue (codes "upload") key [] now db q
  inside-IsQueue deleted_file is_dir now key db q =
      enqueue_op-IsQueue (codes "delete") key [] now db q
  inside-IsQueue renamed_from is_dir now key db q = q
  inside-IsQueue renamed_to is_dir now key db q =
      enqueue_op-IsQueue (codes "upload") key [] now db q

  queued_or_same :
      (o : Option Bytes) (db : LocalDb) (g : Bytes → LocalDb)
      → IsQueue db
      → ((key : Bytes) → IsQueue (g key))
      → IsQueue (elim o [ none ↦ db | some key ↦ g key ])
  queued_or_same none db g q h = q
  queued_or_same (some key) db g q h = h key

  if-IsQueue : (b : Bool) (x y : LocalDb) → IsQueue x → IsQueue y → IsQueue (if b then x else y)
  if-IsQueue true x y p q = p
  if-IsQueue false x y p q = q

  outside-IsQueue :
      (kind : Kind) (now : ℕ) (old_abs : Bytes) (db : LocalDb)
      → IsQueue db
      → IsQueue (on_outside kind now old_abs db)
  unfolding on_outside
  outside-IsQueue renamed_to now old_abs db q = if-IsQueue (str_eq old_abs []) db _ q (
      queued_or_same (locate_in_roots env db old_abs) db
        (λ key. enqueue_op (codes "delete") key [] now db) q
        (λ key. enqueue_op-IsQueue (codes "delete") key [] now db q))
  outside-IsQueue created now old_abs db q = q
  outside-IsQueue modified now old_abs db q = q
  outside-IsQueue deleted_file now old_abs db q = q
  outside-IsQueue renamed_from now old_abs db q = q

  -- Whatever the event of the folder watcher, `onFsEvent` keeps the ids of the queue rising and below the
  -- next one, and no path with two operations of one kind.
  pub on_fs_event-IsQueue :
      (ready : Bool) (kind : Kind) (is_dir : Bool) (now : ℕ) (abs old_abs : Bytes) (db : LocalDb)
      → IsQueue db
      → IsQueue (on_fs_event ready kind is_dir now abs old_abs db)
  unfolding on_fs_event
  on_fs_event-IsQueue ready kind is_dir now abs old_abs db q =
      if-IsQueue ready _ db (handled (locate_in_roots env db abs)) q
    where
      handled :
          (o : Option Bytes)
          → IsQueue (elim o [
            | none ↦ on_outside kind now old_abs db
            | some key ↦ on_inside kind is_dir now key db
          ])
      handled none = outside-IsQueue kind now old_abs db q
      handled (some key) = inside-IsQueue kind is_dir now key db q
