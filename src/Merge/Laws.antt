-- ===== src/Merge/Laws.antt =====
-- plugin/src/core/Merge.cpp: `ThreeWayMerge::merge` on texts.
use notepadpp_sync.Prelude.{true, false, List, [], if◌then◌else◌, Bytes}
use notepadpp_sync.Merge.{MergeResult}
use notepadpp_sync.Merge.Sweep.{is_some}
use notepadpp_sync.Merge.Region.{MergeHunk, Output, append_lines}

-- The result that a merge of the lines stands for: its text where nothing conflicts.
abbrev pub outcome : Bytes → List Bytes → List MergeHunk → MergeResult
outcome eol m h =
    if is_some h
    then record { clean = false; merged = []; hunks = h }
    else record { clean = true; merged = append_lines eol [] m; hunks = h }

abbrev blank : Output
blank = record { out = []; hunks = []; conflict = false }
