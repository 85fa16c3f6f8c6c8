-- ===== src/SyncEngine/Scanner.antt =====
-- plugin/src/SyncEngine.cpp: a pass of `scannerLoop` over the roots. The listing of a directory is an argument,
-- `none` where FindFirstFileW fails; the loop on the stack has fuel, for a disk may have cycles.
pub mod Walk
use notepadpp_sync.Prelude.{
  ℕ, zero, suc, Bool, true, false, ◌||◌, Option, none, some, List, [], ◌∷◌, ◌++◌, ◌==◌,
  if◌then◌else◌, Bytes, codes, str_eq,
}
use notepadpp_sync.LocalDb.{LocalDb, get_file, list_sync_roots}
use notepadpp_sync.SyncEngine.{Env}
use notepadpp_sync.SyncEngine.Paths.{split_colon}
use notepadpp_sync.SyncEngine.Events.{locate_in_roots, queue_upload}

-- `WIN32_FIND_DATAW`
pub record Entry : Type 0 where
  pub name : Bytes
  pub is_dir : Bool

unfoldable pub is_dots : Bytes → Bool
is_dots name = str_eq name (codes ".") || str_eq name (codes "..")

unfoldable pub child : Bytes → Bytes → Bytes
child dir name = dir ++ b'\\' ∷ name

-- `s.substr(s.find(':') + 1)`: the whole text where it has no colon.
unfoldable pub norm_of : Bytes → Bytes
norm_of key = elim (split_colon key) [ none ↦ key | some (id, rel) ↦ rel ]

module _ (env : Env) (now : ℕ) where
  -- A file: one that is in no root, is excluded or is known is passed over.
  unfoldable pub scan_key : Bytes → LocalDb → LocalDb
  scan_key key db =
      let known : LocalDb = elim (get_file db key) [
        | none ↦ queue_upload env now key db
        | some st ↦ db
      ] in
      if env.ignored (norm_of key) false then db else known

  unfoldable pub scan_file : Bytes → LocalDb → LocalDb
  scan_file full db = elim (locate_in_roots env db full) [ none ↦ db | some key ↦ scan_key key db ]

  -- The loop over the entries of a directory; the top of the stack is its head.
  unfoldable pub scan_entries : Bytes → List Entry → List Bytes → LocalDb → List Bytes × LocalDb
  scan_entries dir [] stack db = (stack, db)
  scan_entries dir (e ∷ es) stack db =
      let skipped = scan_entries dir es stack db in
      let pushed = scan_entries dir es (child dir e.name ∷ stack) db in
      let scanned = scan_entries dir es stack (scan_file (child dir e.name) db) in
      if is_dots e.name then skipped else if e.is_dir then pushed else scanned

  module _ (listing : Bytes → Option (List Entry)) where
    -- The loop on the stack; `none` where the fuel is gone.
    unfoldable pub scan_stack : ℕ → List Bytes → LocalDb → Option LocalDb
    scan_stack fuel [] db = some db
    scan_stack zero (dir ∷ stack) db = none
    scan_stack (suc fuel) (dir ∷ stack) db = elim (listing dir) [
      | none ↦ scan_stack fuel stack db
      | some es ↦ scan_stack fuel (scan_entries dir es stack db).0 (scan_entries dir es stack db).1
    ]

    -- The loop over the roots.
    unfoldable pub scan_roots : ℕ → List (Bytes × Bytes) → LocalDb → Option LocalDb
    scan_roots fuel [] db = some db
    scan_roots fuel ((id, root) ∷ roots) db = elim (scan_stack fuel (root ∷ []) db) [
      | none ↦ none
      | some db' ↦ scan_roots fuel roots db'
    ]

    -- A pass; `ready` is not paused, signed in and with a master key.
    unfoldable pub scanner_pass : Bool → ℕ → LocalDb → Option LocalDb
    scanner_pass ready fuel db =
        let scanned = scan_roots fuel (list_sync_roots db) db in if ready then scanned else some db
