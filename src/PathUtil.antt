-- ===== src/PathUtil.antt =====
-- plugin/src/core/PathUtil.h and PathUtil.cpp: relative paths from other clients, and the roots that
-- they must stay in. A `std::string` is its bytes and a `std::wstring` its code units.
-- `MultiByteToWideChar` and `::towlower` are parameters of the definitions that use them.
pub mod Fixed
pub mod Normal
pub mod Roots
pub mod Segments
mod Tests
use mathlib.Core.List.{reverse}
use notepadpp_sync.Prelude.{
  ℕ, ◌≤◌, Bool, true, false, ◌&&◌, ◌||◌, not, Option, none, some, List, [], ◌∷◌, ◌++◌, map, ltb,
  leb, ◌==◌, if◌then◌else◌, length, drop, take, Bytes, codes, str_eq, getlines, drop_back, contains,
  replace, lower, after_last, get_elem?,
}

-- What one segment does to the segments before it, the last one first. `none` escapes the root.
unfoldable pub push_segment : Bytes → List Bytes → Option (List Bytes)
unfolding str_eq
push_segment seg segs =
    if str_eq seg [] || str_eq seg (b'.' ∷ [])
    then some segs
    else if str_eq seg (b'.' ∷ b'.' ∷ [])
    then elim segs [ [] ↦ none | _ ∷ up ↦ some up ]
    else some (seg ∷ segs)

-- The loop of `normalizeRelative`.
unfoldable pub resolve : List Bytes → List Bytes → Option (List Bytes)
resolve [] segs = some segs
resolve (seg ∷ rest) segs = elim (push_segment seg segs) [
  | none ↦ none
  | some segs' ↦ resolve rest segs'
]

-- The segments with slashes between them.
unfoldable pub join_segments : List Bytes → Bytes
join_segments [] = []
join_segments (seg ∷ []) = seg
join_segments (seg ∷ next ∷ rest) = seg ++ b'/' ∷ join_segments (next ∷ rest)

-- `<>:"|?*` and the control characters.
unfoldable pub is_illegal : ℕ → Bool
unfolding contains
is_illegal c = ltb c 0x20 || contains c (codes "<>:\"|?*")

unfoldable pub any_illegal : Bytes → Bool
unfolding is_illegal
any_illegal [] = false
any_illegal (c ∷ s) = is_illegal c || any_illegal s

-- `!base.empty() && (base.back() == '.' || base.back() == ' ')`
unfoldable pub ends_badly : Bytes → Bool
ends_badly [] = false
ends_badly (c ∷ []) = c == b'.' || c == b' '
ends_badly (_ ∷ d ∷ s) = ends_badly (d ∷ s)

-- `hasIllegalChars`
unfoldable pub has_illegal_chars : Bytes → Bool
has_illegal_chars path = any_illegal path || ends_badly (after_last b'/' path)

abbrev pub reserved_names : List Bytes
reserved_names = map codes (
    "con" ∷ "prn" ∷ "aux" ∷ "nul" ∷ "com1" ∷ "com2" ∷ "com3" ∷ "com4" ∷ "com5" ∷ "com6" ∷ "com7"
    ∷ "com8" ∷ "com9" ∷ "lpt1" ∷ "lpt2" ∷ "lpt3" ∷ "lpt4" ∷ "lpt5" ∷ "lpt6" ∷ "lpt7" ∷ "lpt8"
    ∷ "lpt9" ∷ [])

-- The text before the first dot.
unfoldable pub before_dot : Bytes → Bytes
before_dot [] = []
before_dot (c ∷ s) = let rest = before_dot s in if c == b'.' then [] else c ∷ rest

unfoldable pub is_one_of : List Bytes → Bytes → Bool
unfolding str_eq
is_one_of [] s = false
is_one_of (n ∷ names) s = str_eq s n || is_one_of names s

unfoldable pub any_reserved : List Bytes → Bool
any_reserved [] = false
any_reserved (seg ∷ rest) = is_one_of reserved_names (before_dot (lower seg)) || any_reserved rest

-- `hasReservedName`
unfoldable pub has_reserved_name : Bytes → Bool
has_reserved_name path = any_reserved (getlines b'/' path)

-- `s[0] == '/' || (s.size() > 1 && s[1] == ':')`
unfoldable pub is_rooted : Bytes → Bool
is_rooted [] = false
is_rooted (c ∷ []) = c == b'/'
is_rooted (c ∷ d ∷ _) = c == b'/' || d == b':'

-- The tests on the resolved segments.
unfoldable pub accept : List Bytes → Option Bytes
accept [] = none
accept (seg ∷ rest) =
    let out = join_segments (seg ∷ rest) in
    if has_illegal_chars out || has_reserved_name out then none else some out

-- From the replaced text on.
unfoldable pub normalize_slashed : Bytes → Option Bytes
normalize_slashed s =
    if is_rooted s || contains 0 s
    then none
    else elim (resolve (getlines b'/' s) []) [ none ↦ none | some segs ↦ accept (reverse segs) ]

-- `normalizeRelative`: the output where it returns true.
unfoldable pub normalize_relative : Bytes → Option Bytes
normalize_relative s =
    if str_eq s [] || ltb 4096 (length s) then none else normalize_slashed (replace b'\\' b'/' s)

-- `path.compare(0, root.size(), root) == 0 && path[root.size()] == L'\\'`
unfoldable pub has_prefix : Bytes → Bytes → Bool
has_prefix [] [] = false
has_prefix [] (c ∷ path) = c == b'\\'
has_prefix (r ∷ root) [] = false
has_prefix (r ∷ root) (c ∷ path) = r == c && has_prefix root path

module _ (towlower : ℕ → ℕ) where
  -- `wlower`
  unfoldable pub wlower : Bytes → Bytes
  unfolding replace
  wlower s = replace b'/' b'\\' (map towlower s)

  -- `isInsideRoot`
  unfoldable pub is_inside_root : Bytes → Bytes → Bool
  is_inside_root abs_root abs_path =
      let root = drop_back (λ c. c == b'\\') (wlower abs_root) in
      let path = wlower abs_path in
      if str_eq path root
      then true
      else if leb (length path) (length root)
      then false
      else has_prefix root path

  -- `joinInsideRoot`
  unfoldable pub join_inside_root : (Bytes → Bytes) → Bytes → Bytes → Option Bytes
  join_inside_root utf8_to_wide abs_root rel = elim (normalize_relative rel) [
    | none ↦ none
    | some norm ↦
        let root = drop_back (λ c. c == b'\\' || c == b'/') abs_root in
        let full = root ++ b'\\' ∷ replace b'/' b'\\' (utf8_to_wide norm) in
        if is_inside_root root full then some full else none
  ]
