-- ===== src/FolderWatcher/Changes.antt =====
-- plugin/src/FolderWatcher.cpp: what the watcher reports of the changes below a root.
use notepadpp_sync.Prelude.{
  ◌≡◌, refl, sym, ap, ◌∙◌, true, false, List, [], ◌∷◌, ◌++◌, append_assoc, Bytes, str_eq, cmp,
}
use notepadpp_sync.SyncEngine.Events.{
  Kind, created, modified, deleted_file, renamed_from, renamed_to,
}
use notepadpp_sync.FolderWatcher.{
  FsEvent, added, removed, changed, renamed_old_name, renamed_new_name, unknown, Note, Round,
  read_failed, timed_out, overflowed, result_failed, filled, kind_of, full_path, paired, emit,
  translate, pump,
}

-- A change below the root, by the names relative to it.
pub data Change : Type 0 where
  adds removes changes : Bytes → Change
  renames : Bytes → Bytes → Change
  other : Bytes → Change

-- Windows reports a rename as two notes next to each other.
unfoldable pub notes_of : List Change → List Note
notes_of [] = []
notes_of (adds n ∷ cs) = record { action = added; name = n } ∷ notes_of cs
notes_of (removes n ∷ cs) = record { action = removed; name = n } ∷ notes_of cs
notes_of (changes n ∷ cs) = record { action = changed; name = n } ∷ notes_of cs
notes_of (renames m n ∷ cs) =
    record { action = renamed_old_name; name = m }
    ∷ record { action = renamed_new_name; name = n }
    ∷ notes_of cs
notes_of (other n ∷ cs) = record { action = unknown; name = n } ∷ notes_of cs

abbrev pub event : Kind → Bytes → Bytes → FsEvent
event kind abs_path old_abs_path = record {
  kind = kind;
  abs_path = abs_path;
  old_abs_path = old_abs_path;
}

pub events_of : Bytes → List Change → List FsEvent
events_of dir [] = []
events_of dir (adds n ∷ cs) = event created (full_path dir n) [] ∷ events_of dir cs
events_of dir (removes n ∷ cs) = event deleted_file (full_path dir n) [] ∷ events_of dir cs
events_of dir (changes n ∷ cs) = event modified (full_path dir n) [] ∷ events_of dir cs
events_of dir (renames m n ∷ cs) =
    event renamed_from (full_path dir m) []
    ∷ event renamed_to (full_path dir n) (full_path dir m)
    ∷ events_of dir cs
events_of dir (other n ∷ cs) = events_of dir cs

-- A watcher that is not stopped, and what its buffers held in all.
unfoldable pub GoesOn : List Round → Type 0
GoesOn [] = Unit
GoesOn (read_failed ∷ rounds) = ⊥
GoesOn (result_failed running ∷ rounds) = (running ≡ true) × GoesOn rounds
GoesOn (timed_out ∷ rounds) = GoesOn rounds
GoesOn (overflowed ∷ rounds) = GoesOn rounds
GoesOn (filled notes ∷ rounds) = GoesOn rounds

unfoldable pub all_notes : List Round → List Note
all_notes [] = []
all_notes (filled notes ∷ rounds) = notes ++ all_notes rounds
all_notes (read_failed ∷ rounds) = all_notes rounds
all_notes (result_failed running ∷ rounds) = all_notes rounds
all_notes (timed_out ∷ rounds) = all_notes rounds
all_notes (overflowed ∷ rounds) = all_notes rounds

translate-append :
    (dir pending : Bytes) (a b : List Note)
    → (translate dir pending (a ++ b)).0
      ≡ (translate dir pending a).0 ++ (translate dir (translate dir pending a).1 b).0
unfolding translate
translate-append dir pending [] b = refl
translate-append dir pending (n ∷ a) b =
    let step : List FsEvent × Bytes = emit (kind_of n.action) (full_path dir n.name) pending in
    ap (λ es. step.0 ++ es) (translate-append dir (step.1) a b)
    ∙ sym (
        append_assoc (step.0) (translate dir (step.1) a).0
          (translate dir (translate dir (step.1) a).1 b).0)

-- How the notes lie in the buffers makes no difference.
pump-translate :
    (dir pending : Bytes) (rounds : List Round)
    → GoesOn rounds
    → pump dir pending rounds ≡ (translate dir pending (all_notes rounds)).0
unfolding pump all_notes GoesOn translate
pump-translate dir pending [] g = refl
pump-translate dir pending (read_failed ∷ rounds) g = elim g [ ]
pump-translate dir pending (result_failed running ∷ rounds) (e, g) =
    rw e (pump-translate dir pending rounds g)
pump-translate dir pending (timed_out ∷ rounds) g = pump-translate dir pending rounds g
pump-translate dir pending (overflowed ∷ rounds) g = pump-translate dir pending rounds g
pump-translate dir pending (filled notes ∷ rounds) g =
    ap (λ es. (translate dir pending notes).0 ++ es)
      (pump-translate dir (translate dir pending notes).1 rounds g)
    ∙ sym (translate-append dir pending notes (all_notes rounds))

full_path_filled : (dir name : Bytes) → str_eq (full_path dir name) [] ≡ false
unfolding full_path str_eq cmp
full_path_filled [] name = refl
full_path_filled (c ∷ dir) name = refl

translate-notes_of :
    (dir : Bytes) (cs : List Change) → (translate dir [] (notes_of cs)).0 ≡ events_of dir cs
unfolding translate notes_of events_of emit kind_of paired
translate-notes_of dir [] = refl
translate-notes_of dir (adds n ∷ cs) =
    ap (λ es. event created (full_path dir n) [] ∷ es) (translate-notes_of dir cs)
translate-notes_of dir (removes n ∷ cs) =
    ap (λ es. event deleted_file (full_path dir n) [] ∷ es) (translate-notes_of dir cs)
translate-notes_of dir (changes n ∷ cs) =
    ap (λ es. event modified (full_path dir n) [] ∷ es) (translate-notes_of dir cs)
translate-notes_of dir (renames m n ∷ cs) = rw (full_path_filled dir m) (
    ap
      (λ es.
        event renamed_from (full_path dir m) []
        ∷ event renamed_to (full_path dir n) (full_path dir m)
        ∷ es)
      (translate-notes_of dir cs))
translate-notes_of dir (other n ∷ cs) = translate-notes_of dir cs

-- Where the watcher is not stopped and its buffers held, cut in any way, the notes of some changes, a rename
-- as two notes next to each other, it reports just these changes in their order, each rename with both paths.
pub pump-events_of :
    (dir : Bytes) (rounds : List Round) (cs : List Change)
    → GoesOn rounds
    → all_notes rounds ≡ notes_of cs
    → pump dir [] rounds ≡ events_of dir cs
pump-events_of dir rounds cs g e =
    pump-translate dir [] rounds g
    ∙ ap (λ ns. (translate dir [] ns).0) e
    ∙ translate-notes_of dir cs
