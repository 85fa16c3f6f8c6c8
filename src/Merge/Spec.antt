-- ===== src/Merge/Spec.antt =====
-- What a three-way merge by lines is: the base is cut into regions, and each region is kept, changed by
-- one side, changed alike by both, or a conflict.
use notepadpp_sync.Prelude.{◌≢◌, List, [], ◌∷◌, ◌++◌, Bytes}
use notepadpp_sync.Merge.Region.{MergeHunk}

-- The base, the local and the remote lines, the merged lines and the conflicts.
pub data Diff3 : List Bytes → List Bytes → List Bytes → List Bytes → List MergeHunk → Type 0 where
  done : Diff3 [] [] [] [] []
  keep :
      {b l r m : List Bytes} {h : List MergeHunk} (old : List Bytes)
      → Diff3 b l r m h
      → Diff3 (old ++ b) (old ++ l) (old ++ r) (old ++ m) h
  take_local :
      {b l r m : List Bytes} {h : List MergeHunk} (old new : List Bytes)
      → Diff3 b l r m h
      → Diff3 (old ++ b) (new ++ l) (old ++ r) (new ++ m) h
  take_remote :
      {b l r m : List Bytes} {h : List MergeHunk} (old new : List Bytes)
      → Diff3 b l r m h
      → Diff3 (old ++ b) (old ++ l) (new ++ r) (new ++ m) h
  agree :
      {b l r m : List Bytes} {h : List MergeHunk} (old new : List Bytes)
      → Diff3 b l r m h
      → Diff3 (old ++ b) (new ++ l) (new ++ r) (new ++ m) h
  conflict :
      {b l r m : List Bytes} {h : List MergeHunk} (old new_l new_r : List Bytes)
      → new_l ≢ new_r
      → Diff3 b l r m h
      → Diff3
          (old ++ b)
          (new_l ++ l)
          (new_r ++ r)
          m
          (record { local_lines = new_l; remote_lines = new_r } ∷ h)
