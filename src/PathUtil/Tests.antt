-- ===== src/PathUtil/Tests.antt =====
-- plugin/src/core/PathUtil.cpp on concrete paths.
use notepadpp_sync.Prelude.{
  ◌≡◌, ◌≢◌, ◌↔◌, ◌⊎◌, refl, true, none, some, List, [], ◌∷◌, ◌++◌, arith, Bytes, codes, All, str_eq,
  cmp, getlines, attach, contains, replace, lower, to_lower, after_last,
}
use notepadpp_sync.PathUtil.{
  push_segment, resolve, join_segments, is_illegal, any_illegal, ends_badly, has_illegal_chars,
  before_dot, is_one_of, any_reserved, has_reserved_name, is_rooted, accept, normalize_slashed,
  normalize_relative, is_inside_root, join_inside_root,
}
use notepadpp_sync.PathUtil.Normal.{IsSafe, normalize_relative-IsSafe}
use notepadpp_sync.PathUtil.Fixed.{normalize_relative_idem, normalize_relative-key}
use notepadpp_sync.PathUtil.Roots.{Inside, trimmed, is_inside_root_iff, join_inside_root_lem}

abbrev loose : Bytes
loose = codes "src\\./old/../a.cpp"

abbrev normal : Bytes
normal = codes "src/a.cpp"

normal_test : normalize_relative loose ≡ some normal
unfolding normalize_relative normalize_slashed resolve push_segment getlines attach accept
    has_illegal_chars any_illegal is_illegal contains ends_badly after_last has_reserved_name
    any_reserved is_one_of before_dot lower to_lower is_rooted join_segments replace str_eq cmp
normal_test = refl

escape_test : normalize_relative (codes "a/../../b") ≡ none
unfolding normalize_relative normalize_slashed resolve push_segment getlines attach contains
    is_rooted replace str_eq cmp
escape_test = refl

normal_fixed : normalize_relative normal ≡ some normal
normal_fixed = normalize_relative_idem loose normal normal_test

normalize_relative-IsSafe_example :
    (segs : List Bytes) × (segs ≢ []) × (normal ≡ join_segments segs) × All IsSafe segs
normalize_relative-IsSafe_example = normalize_relative-IsSafe loose normal normal_test

normalize_relative-key_example : normalize_relative (codes "r1" ++ b':' ∷ normal) ≡ none
normalize_relative-key_example =
    normalize_relative-key (codes "r1") normal
      (((λ q. omega arith), λ q. omega arith), (((λ q. omega arith), λ q. omega arith), tt))
      normal_fixed

is_inside_root_iff_example :
    (is_inside_root to_lower (codes "C:\\Notes\\") (codes "c:/notes/A.txt") ≡ true)
    ↔ Inside to_lower (codes "C:\\Notes\\") (codes "c:/notes/A.txt")
is_inside_root_iff_example =
    is_inside_root_iff to_lower (codes "C:\\Notes\\") (codes "c:/notes/A.txt")

join_inside_root_lem_example :
    ((normalize_relative loose ≡ none)
      × (join_inside_root to_lower (λ s. s) (codes "C:\\Notes\\") loose ≡ none))
    ⊎ ((norm : Bytes) × (normalize_relative loose ≡ some norm)
        × (join_inside_root to_lower (λ s. s) (codes "C:\\Notes\\") loose
            ≡ some (trimmed (codes "C:\\Notes\\") ++ b'\\' ∷ replace b'/' b'\\' norm))
        × (is_inside_root to_lower
              (codes "C:\\Notes\\")
              (trimmed (codes "C:\\Notes\\") ++ b'\\' ∷ replace b'/' b'\\' norm)
            ≡ true))
unfolding to_lower
join_inside_root_lem_example =
    join_inside_root_lem to_lower refl refl (λ s. s) (codes "C:\\Notes\\") loose
