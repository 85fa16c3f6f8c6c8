-- ===== src/IgnoreRules/Glob.antt =====
-- plugin/src/core/IgnoreRules.cpp: `globMatch`. An index into the pattern or the text is what is left
-- from there on. Between two returns to a star each round takes a character of the pattern or of the
-- text, and each return gives the star one more character: two counters bound the loop, `none` would be
-- a run past them.
use notepadpp_sync.Prelude.{
  ℕ, zero, suc, ◌+◌, Bool, true, false, ◌&&◌, ◌||◌, not, Option, none, some, [], ◌∷◌, ◌==◌,
  if◌then◌else◌, length, Bytes,
}

-- The last star: the pattern behind it (`starP` and the slash that `**/` takes along), the text from
-- `starS` on, and `doubleStar`.
pub record Star : Type 0 where
  pub resume : Bytes
  pub from : Bytes
  pub double : Bool

-- `while (p < pat.size() && pat[p] == '*') ++p; return p == pat.size();`
unfoldable pub only_stars : Bytes → Bool
only_stars [] = true
only_stars (c ∷ p) = c == b'*' && only_stars p

-- Does the first branch of the loop take the character `d` of the text?
unfoldable pub takes : Bytes → ℕ → Bool
takes [] d = false
takes (c ∷ p) d = c == b'?' || c == d

-- `pat[p] == '/'` is skipped behind `**`.
unfoldable pub behind_stars : Bytes → Bytes
behind_stars [] = []
behind_stars (c ∷ p) = if c == b'/' then p else c ∷ p

-- The star that the next two branches open, if they do: `double` and the pattern behind it.
unfoldable pub opens : Bytes → Option (Bool × Bytes)
opens [] = none
opens (c ∷ []) = if c == b'*' then some (false, []) else none
opens (c ∷ d ∷ p) =
    if not (c == b'*')
    then none
    else if d == b'*'
    then some (true, behind_stars p)
    else some (false, d ∷ p)

-- The return to the last star: the star with one more character; `none` is `return false`.
unfoldable pub advance : Option Star → Option Star
advance none = none
advance (some st) = elim st.from [
  | [] ↦ none
  | c ∷ rest ↦ if not st.double && (c == b'/') then none else some (record st { from = rest })
]

-- The part of the pattern behind its first character.
unfoldable pub tail : Bytes → Bytes
tail [] = []
tail (c ∷ p) = p

-- What one round does: the loop goes on, returns to a star, or the function returns false.
pub data Round : Type 0 where
  go : Bytes → Bytes → Option Star → Round
  back : Star → Round
  fail : Round

-- The body of the loop at the pattern `p` and the text `d ∷ s`.
unfoldable pub glob_round : Bytes → ℕ → Bytes → Option Star → Round
glob_round p d s star =
    let opened : Round = elim (opens p) [
      | some (dbl, k) ↦ go k (d ∷ s) (some (record { resume = k; from = d ∷ s; double = dbl }))
      | none ↦ elim (advance star) [ none ↦ fail | some st ↦ back st ]
    ] in
    if takes p d then go (tail p) s star else opened

-- The loop: `returns` bounds the returns to a star, `rounds` the rounds until the next one, of which
-- there are `full` after each.
unfoldable pub glob_loop : ℕ → ℕ → ℕ → Bytes → Bytes → Option Star → Option Bool
glob_loop full returns rounds p [] star = some (only_stars p)
glob_loop full returns zero p (d ∷ s) star = none
glob_loop full zero (suc rounds) p (d ∷ s) star = elim (glob_round p d s star) [
  | go p' s' star' ↦ glob_loop full zero rounds p' s' star'
  | back st ↦ none
  | fail ↦ some false
]
glob_loop full (suc returns) (suc rounds) p (d ∷ s) star = elim (glob_round p d s star) [
  | go p' s' star' ↦ glob_loop full (suc returns) rounds p' s' star'
  | back st ↦ glob_loop full returns full st.resume st.from (some st)
  | fail ↦ some false
]

-- `globMatch`
unfoldable pub glob_match : Bytes → Bytes → Option Bool
glob_match pat str =
    glob_loop (length pat + length str) (length str) (length pat + length str) pat str none
