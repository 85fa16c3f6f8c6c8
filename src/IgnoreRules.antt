-- ===== src/IgnoreRules.antt =====
-- plugin/src/core/IgnoreRules.h and IgnoreRules.cpp: the rules of `.npsyncignore`.
pub mod Glob
pub mod Soundness
pub mod Termination
pub mod Laws
mod Tests
use notepadpp_sync.Prelude.{
  ℕ, Bool, true, false, ◌&&◌, ◌||◌, not, Option, none, some, List, [], ◌∷◌, ◌++◌, ◌==◌,
  if◌then◌else◌, Bytes, str_eq, getlines, drop_back, replace, contains, lower, after_last,
}
use Glob.{glob_match}

-- `Rule`
pub record Rule : Type 0 where
  pub pattern : Bytes
  pub negate : Bool
  pub dir_only : Bool
  pub anchored : Bool

-- The characters that `trim` takes off.
unfoldable pub is_blank : ℕ → Bool
is_blank c = c == b' ' || c == b'\t' || c == b'\r'

unfoldable pub trim_front : Bytes → Bytes
trim_front [] = []
trim_front (c ∷ s) = let rest = trim_front s in if is_blank c then rest else c ∷ s

-- `trim`
unfoldable pub trim : Bytes → Bytes
trim s = drop_back is_blank (trim_front s)

-- `!s.empty() && s.back() == c`
unfoldable pub ends_with : ℕ → Bytes → Bool
ends_with c [] = false
ends_with c (d ∷ []) = d == c
ends_with c (_ ∷ d ∷ s) = ends_with c (d ∷ s)

-- `s.pop_back()` on a string that is not empty.
unfoldable pub pop_back : Bytes → Bytes
pop_back [] = []
pop_back (c ∷ []) = []
pop_back (c ∷ d ∷ s) = c ∷ pop_back (d ∷ s)

-- From the slash in front on.
unfoldable pub rule_anchored : Bool → Bool → Bytes → Option Rule
rule_anchored negate dir_only [] = none
rule_anchored negate dir_only (c ∷ s) =
    if not (c == b'/')
    then some
        (record { pattern = lower (c ∷ s); negate = negate; dir_only = dir_only; anchored = false })
    else if str_eq s []
    then none
    else some (record { pattern = lower s; negate = negate; dir_only = dir_only; anchored = true })

-- From the slash at the end on, for a line that is not empty.
unfoldable pub rule_body : Bool → Bytes → Option Rule
rule_body negate line =
    let dir_only = ends_with b'/' line in
    rule_anchored negate dir_only (if dir_only then pop_back line else line)

-- A trimmed line; `none` where the loop continues.
unfoldable pub rule_of_trimmed : Bytes → Option Rule
rule_of_trimmed [] = none
rule_of_trimmed (c ∷ s) =
    if c == b'#'
    then none
    else if not (c == b'!')
    then rule_body false (c ∷ s)
    else if str_eq (trim s) []
    then none
    else rule_body true (trim s)

unfoldable pub rules_of_lines : List Bytes → List Rule
rules_of_lines [] = []
rules_of_lines (line ∷ lines) =
    let rest = rules_of_lines lines in
    elim (rule_of_trimmed (trim line)) [ none ↦ rest | some r ↦ r ∷ rest ]

-- `IgnoreRules::parse`
unfoldable pub parse : Bytes → List Rule
parse text = rules_of_lines (getlines b'\n' text)

-- The prefixes of a path before its slashes, the shortest first; `done` is what stands before.
unfoldable pub parents : Bytes → Bytes → List Bytes
parents done [] = []
parents done (c ∷ s) =
    let rest = parents (done ++ c ∷ []) s in if c == b'/' then done ∷ rest else rest

-- One round of the loop over the candidates; `none` where `globMatch` does not end.
unfoldable pub match_candidate : Rule → Bytes → Bool → Option Bool
match_candidate r cand is_dir =
    if r.dir_only && not is_dir
    then some false
    else if r.anchored || contains b'/' r.pattern
    then glob_match r.pattern cand
    else glob_match r.pattern (after_last b'/' cand)

unfoldable pub match_candidates : Rule → Bytes → Bool → List Bytes → Option Bool
match_candidates r rel_path is_dir [] = some false
match_candidates r rel_path is_dir (cand ∷ cands) =
    let rest = match_candidates r rel_path is_dir cands in
    elim (match_candidate r cand (not (str_eq cand rel_path) || is_dir)) [
      | none ↦ none
      | some hit ↦ if hit then some true else rest
    ]

-- `matchRule`
unfoldable pub match_rule : Rule → Bytes → Bool → Option Bool
match_rule r rel_path is_dir = match_candidates r rel_path is_dir (rel_path ∷ parents [] rel_path)

-- The loop of `ignored`, from the result so far.
unfoldable pub ignored_loop : List Rule → Bytes → Bool → Bool → Option Bool
ignored_loop [] p is_dir result = some result
ignored_loop (r ∷ rules) p is_dir result = elim (match_rule r p is_dir) [
  | none ↦ none
  | some hit ↦ ignored_loop rules p is_dir (if hit then not r.negate else result)
]

-- `IgnoreRules::ignored`
unfoldable pub ignored : List Rule → Bytes → Bool → Option Bool
ignored rules rel_path is_dir =
    ignored_loop rules (replace b'\\' b'/' (lower rel_path)) is_dir false
