-- ===== src/Merge/Tests.antt =====
-- plugin/src/core/Merge.cpp on concrete texts.
use notepadpp_sync.Prelude.{◌*◌, ◌<◌, ◌≡◌, ◌⊎◌, none, some, List, [], ◌∷◌, length, Bytes, codes}
use notepadpp_sync.Merge.Diff.{Edit, diff_lines, max_cells}
use notepadpp_sync.Merge.Apply.{Between, apply_edits, diff_lines-apply}

abbrev base_text : Bytes
base_text = codes "a\nb\nc\nd\n"

abbrev local_text : Bytes
local_text = codes "A\nb\nc\nd\n"

abbrev remote_text : Bytes
remote_text = codes "a\nb\nc\nD\n"

abbrev old_lines : List Bytes
old_lines = codes "a" ∷ codes "b" ∷ []

abbrev new_lines : List Bytes
new_lines = codes "b" ∷ codes "c" ∷ []

diff_lines-apply_example :
    ((diff_lines old_lines new_lines ≡ none) × (max_cells < length old_lines * length new_lines))
    ⊎ ((es : List Edit) × (diff_lines old_lines new_lines ≡ some es)
        × Between 0 (length old_lines) es
        × (apply_edits 0 old_lines es ≡ new_lines))
diff_lines-apply_example = diff_lines-apply old_lines new_lines
