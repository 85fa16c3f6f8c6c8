-- ===== src/FolderWatcher.antt =====
-- plugin/src/FolderWatcher.h and FolderWatcher.cpp: `pump`, on what ReadDirectoryChangesW brings for one root.
pub mod Changes
pub mod Queued
mod Tests
use notepadpp_sync.Prelude.{
  Bool, true, false, not, ◌&&◌, Option, none, some, List, [], ◌∷◌, ◌++◌, if◌then◌else◌, Bytes,
  str_eq,
}
use notepadpp_sync.SyncEngine.Events.{
  Kind, created, modified, deleted_file, renamed_from, renamed_to,
}

-- `FsEvent`
pub record FsEvent : Type 0 where
  pub kind : Kind
  pub abs_path : Bytes
  pub old_abs_path : Bytes

-- `FILE_ACTION_…`
pub data Action : Type 0 where
  added removed changed renamed_old_name renamed_new_name unknown : Action

-- `FILE_NOTIFY_INFORMATION`
pub record Note : Type 0 where
  pub action : Action
  pub name : Bytes

-- A pass of the loop: the call fails, times out, brings nothing (with whether the watcher still runs where that
-- is an error), or fills the buffer.
pub data Round : Type 0 where
  read_failed timed_out overflowed : Round
  result_failed : Bool → Round
  filled : List Note → Round

unfoldable pub kind_of : Action → Option Kind
kind_of added = some created
kind_of removed = some deleted_file
kind_of changed = some modified
kind_of renamed_old_name = some renamed_from
kind_of renamed_new_name = some renamed_to
kind_of unknown = none

unfoldable pub full_path : Bytes → Bytes → Bytes
full_path dir name = dir ++ b'\\' ∷ name

-- The event of a kind and a path, and the name that then waits for its new one.
unfoldable pub paired : Kind → Bytes → Bytes → FsEvent × Bytes
paired renamed_from full pending =
    (record { kind = renamed_from; abs_path = full; old_abs_path = [] }, full)
paired renamed_to full pending =
    if not (str_eq pending [])
    then (record { kind = renamed_to; abs_path = full; old_abs_path = pending }, [])
    else (record { kind = renamed_to; abs_path = full; old_abs_path = [] }, pending)
paired created full pending =
    (record { kind = created; abs_path = full; old_abs_path = [] }, pending)
paired modified full pending =
    (record { kind = modified; abs_path = full; old_abs_path = [] }, pending)
paired deleted_file full pending =
    (record { kind = deleted_file; abs_path = full; old_abs_path = [] }, pending)

unfoldable pub emit : Option Kind → Bytes → Bytes → List FsEvent × Bytes
emit none full pending = ([], pending)
emit (some k) full pending = ((paired k full pending).0 ∷ [], (paired k full pending).1)

-- The loop over the buffer: the calls of `cb` in turn, and `pendingOldName` behind it.
unfoldable pub translate : Bytes → Bytes → List Note → List FsEvent × Bytes
translate dir pending [] = ([], pending)
translate dir pending (n ∷ notes) =
    let (es, next) = emit (kind_of n.action) (full_path dir n.name) pending in
    let (rest, last) = translate dir next notes in (es ++ rest, last)

-- `pump`, until the watcher stops.
unfoldable pub pump : Bytes → Bytes → List Round → List FsEvent
pump dir pending [] = []
pump dir pending (read_failed ∷ rounds) = []
pump dir pending (timed_out ∷ rounds) = pump dir pending rounds
pump dir pending (overflowed ∷ rounds) = pump dir pending rounds
pump dir pending (result_failed running ∷ rounds) =
    let rest = pump dir pending rounds in if running then rest else []
pump dir pending (filled notes ∷ rounds) =
    let (es, next) = translate dir pending notes in es ++ pump dir next rounds
