-- ===== src/SyncEngine/Scanner/Walk.antt =====
-- plugin/src/SyncEngine.cpp: the scanner on roots that are finite trees of folders.
use notepadpp_sync.Prelude.{
  ◌≡◌, refl, sym, ap, ◌∙◌, ℕ, zero, suc, ◌+◌, ◌<◌, ◌-◌, true, false, Option, some, List, [], ◌∷◌,
  ◌++◌, arith, Bytes, All,
}
use notepadpp_sync.LocalDb.{LocalDb, list_sync_roots}
use notepadpp_sync.SyncEngine.{Env}
use notepadpp_sync.SyncEngine.Scanner.{
  Entry, is_dots, child, scan_file, scan_entries, scan_stack, scan_roots, scanner_pass,
}

-- What is in a folder, by the names in the order of the listing.
pub data Tree : Type 0 where
  nothing_more : Tree
  a_file : Bytes → Tree → Tree
  a_folder : Bytes → Tree → Tree → Tree

unfoldable pub entries_of : Tree → List Entry
entries_of nothing_more = []
entries_of (a_file n t) = record { name = n; is_dir = false } ∷ entries_of t
entries_of (a_folder n sub t) = record { name = n; is_dir = true } ∷ entries_of t

unfoldable pub folders : Tree → ℕ
folders nothing_more = 0
folders (a_file n t) = folders t
folders (a_folder n sub t) = suc (folders sub) + folders t

-- The files of a folder, and those of the folders in it: the last folder first.
pub files_in : Bytes → Tree → List Bytes
files_in dir nothing_more = []
files_in dir (a_file n t) = child dir n ∷ files_in dir t
files_in dir (a_folder n sub t) = files_in dir t

pub files_below : Bytes → Tree → List Bytes
files_below dir nothing_more = []
files_below dir (a_file n t) = files_below dir t
files_below dir (a_folder n sub t) =
    files_below dir t ++ (files_in (child dir n) sub ++ files_below (child dir n) sub)

unfoldable pub all_files_of : Bytes → Tree → List Bytes
all_files_of dir t = files_in dir t ++ files_below dir t

module _ (listing : Bytes → Option (List Entry)) where
  abbrev pub ListsAs : Bytes → Tree → Type 0
  ListsAs dir t =
      (dots : List Entry) × (All (λ e. is_dots e.name ≡ true) dots)
      × (listing dir ≡ some (dots ++ entries_of t))

  -- The folders in a folder are on the disk, and no name stands for the folder itself or the one above.
  unfoldable pub HasBelow : Bytes → Tree → Type 0
  HasBelow dir nothing_more = Unit
  HasBelow dir (a_file n t) = (is_dots n ≡ false) × HasBelow dir t
  HasBelow dir (a_folder n sub t) =
      (is_dots n ≡ false) × ListsAs (child dir n) sub × HasBelow (child dir n) sub × HasBelow dir t

  abbrev pub HasTree : Bytes → Tree → Type 0
  HasTree dir t = ListsAs dir t × HasBelow dir t

  module _ (env : Env) (now : ℕ) where
    unfoldable pub scan_files : List Bytes → LocalDb → LocalDb
    scan_files [] db = db
    scan_files (f ∷ fs) db = scan_files fs (scan_file env now f db)

    scan_files-append :
        (fs gs : List Bytes) (db : LocalDb)
        → scan_files (fs ++ gs) db ≡ scan_files gs (scan_files fs db)
    unfolding scan_files
    scan_files-append [] gs db = refl
    scan_files-append (f ∷ fs) gs db = scan_files-append fs gs (scan_file env now f db)

    -- The stack with the folders of a folder on it.
    push_folders : Bytes → Tree → List Bytes → List Bytes
    push_folders dir nothing_more stack = stack
    push_folders dir (a_file n t) stack = push_folders dir t stack
    push_folders dir (a_folder n sub t) stack = push_folders dir t (child dir n ∷ stack)

    scan_entries-entries_of :
        (dir : Bytes) (t : Tree) (stack : List Bytes) (db : LocalDb)
        → HasBelow dir t
        → scan_entries env now dir (entries_of t) stack db
          ≡ (push_folders dir t stack, scan_files (files_in dir t) db)
    unfolding scan_entries entries_of push_folders scan_files files_in HasBelow
    scan_entries-entries_of dir nothing_more stack db h = refl
    scan_entries-entries_of dir (a_file n t) stack db (ne, h) =
        rw ne (scan_entries-entries_of dir t stack (scan_file env now (child dir n) db) h)
    scan_entries-entries_of dir (a_folder n sub t) stack db (ne, l, k, h) =
        rw ne (scan_entries-entries_of dir t (child dir n ∷ stack) db h)

    scan_entries-dots :
        (dir : Bytes) (dots es : List Entry) (stack : List Bytes) (db : LocalDb)
        → All (λ e. is_dots e.name ≡ true) dots
        → scan_entries env now dir (dots ++ es) stack db ≡ scan_entries env now dir es stack db
    unfolding scan_entries
    scan_entries-dots dir [] es stack db h = refl
    scan_entries-dots dir (e ∷ dots) es stack db (d, h) =
        rw d (scan_entries-dots dir dots es stack db h)

    -- One folder: its files are scanned, its folders go on the stack.
    scan_stack_step :
        (dir : Bytes) (t : Tree) (fuel : ℕ) (stack : List Bytes) (db : LocalDb)
        → ListsAs dir t
        → HasBelow dir t
        → scan_stack env now listing (suc fuel) (dir ∷ stack) db
          ≡ scan_stack env now listing fuel
              (push_folders dir t stack)
              (scan_files (files_in dir t) db)
    unfolding scan_stack
    scan_stack_step dir t fuel stack db (dots, d, l) h =
        rw (scan_stack, l)
          (ap (λ r. scan_stack env now listing fuel r.0 r.1)
            (scan_entries-dots dir dots (entries_of t) stack db d
              ∙ scan_entries-entries_of dir t stack db h))

    scan_stack-push_folders :
        (dir : Bytes) (t : Tree) (fuel : ℕ) (stack : List Bytes) (db : LocalDb)
        → HasBelow dir t
        → scan_stack env now listing (folders t + fuel) (push_folders dir t stack) db
          ≡ scan_stack env now listing fuel stack (scan_files (files_below dir t) db)
    unfolding push_folders folders files_below HasBelow scan_files
    scan_stack-push_folders dir nothing_more fuel stack db h =
        ap (λ f. scan_stack env now listing f stack db) (omega arith)
    scan_stack-push_folders dir (a_file n t) fuel stack db (ne, h) =
        scan_stack-push_folders dir t fuel stack db h
    scan_stack-push_folders dir (a_folder n sub t) fuel stack db (ne, l, k, h) =
        ap (λ f. scan_stack env now listing f (push_folders dir t (child dir n ∷ stack)) db)
          (omega arith)
        ∙ (scan_stack-push_folders dir t (suc (folders sub + fuel)) (child dir n ∷ stack) db h
            ∙ (scan_stack_step (child dir n) sub (folders sub + fuel) stack
                  (scan_files (files_below dir t) db) l k
                ∙ (scan_stack-push_folders (child dir n) sub fuel stack _ k
                    ∙ ap (scan_stack env now listing fuel stack) (
                        sym (
                          scan_files-append (files_in (child dir n) sub)
                            (files_below (child dir n) sub) (scan_files (files_below dir t) db))
                        ∙ sym (
                            scan_files-append (files_below dir t)
                              (files_in (child dir n) sub ++ files_below (child dir n) sub) db)))))

    stack_done : (fuel : ℕ) (db : LocalDb) → scan_stack env now listing fuel [] db ≡ some db
    unfolding scan_stack
    stack_done zero db = refl
    stack_done (suc fuel) db = refl

    scan_stack-all_files_of :
        (root : Bytes) (t : Tree) (fuel : ℕ) (db : LocalDb)
        → HasTree root t
        → folders t < fuel
        → scan_stack env now listing fuel (root ∷ []) db
          ≡ some (scan_files (all_files_of root t) db)
    unfolding all_files_of
    scan_stack-all_files_of root t fuel db (l, h) enough =
        ap (λ f. scan_stack env now listing f (root ∷ []) db) (split_fuel)
        ∙ (scan_stack_step root t (folders t + (fuel - suc (folders t))) [] db l h
            ∙ (scan_stack-push_folders root t (fuel - suc (folders t)) []
                  (scan_files (files_in root t) db) h
                ∙ (stack_done (fuel - suc (folders t)) _
                    ∙ ap some (sym (scan_files-append (files_in root t) (files_below root t) db)))))
      where
        split_fuel : fuel ≡ suc (folders t + (fuel - suc (folders t)))
        split_fuel = omega arith

    -- The files of the roots in the order of the scan.
    pub files_of_roots : (Bytes → Tree) → List (Bytes × Bytes) → List Bytes
    files_of_roots trees [] = []
    files_of_roots trees ((id, root) ∷ roots) =
        all_files_of root (trees root) ++ files_of_roots trees roots

    scan_roots-files_of_roots :
        (trees : Bytes → Tree) (roots : List (Bytes × Bytes)) (fuel : ℕ) (db : LocalDb)
        → All (λ (id, root). HasTree root (trees root) × (folders (trees root) < fuel)) roots
        → scan_roots env now listing fuel roots db
          ≡ some (scan_files (files_of_roots trees roots) db)
    unfolding files_of_roots scan_roots scan_files
    scan_roots-files_of_roots trees [] fuel db h = refl
    scan_roots-files_of_roots trees ((id, root) ∷ roots) fuel db ((t, enough), h) =
        rw (scan_roots, scan_stack-all_files_of root (trees root) fuel db t enough)
          (scan_roots-files_of_roots trees roots fuel
              (scan_files (all_files_of root (trees root)) db) h
            ∙ ap some (
                sym (
                  scan_files-append (all_files_of root (trees root)) (files_of_roots trees roots)
                    db)))

    -- Where the roots are finite trees of folders, each with fewer folders below it than the fuel, a pass of the
    -- scanner ends, and behind it just the files of the roots were looked at, each as `scan_file` does, root
    -- after root, the files of a folder before those of the folders in it.
    pub scanner_pass-files_of_roots :
        (trees : Bytes → Tree) (fuel : ℕ) (db : LocalDb)
        → All
            (λ (id, root). HasTree root (trees root) × (folders (trees root) < fuel))
            (list_sync_roots db)
        → scanner_pass env now listing true fuel db
          ≡ some (scan_files (files_of_roots trees (list_sync_roots db)) db)
    unfolding scanner_pass
    scanner_pass-files_of_roots trees fuel db h =
        scan_roots-files_of_roots trees (list_sync_roots db) fuel db h
