-- ===== src/SyncEngine/Rules.antt =====
-- plugin/src/SyncEngine.cpp: `refreshIgnoreRules` and `ignored`, on the rules of every root.
use notepadpp_sync.Prelude.{
  ◌≡◌, ◌≢◌, refl, sym, ap, ◌∙◌, Bool, true, false, ◌||◌, Option, none, some, List, [], ◌∷◌, ◌++◌,
  arith, if◌then◌else◌, Bytes, codes, cmp, Ordering, eq_of_cmp, All,
}
use notepadpp_sync.Prelude.Map.{Map, insert}
use notepadpp_sync.IgnoreRules.{Rule, parse, ignored}
use notepadpp_sync.IgnoreRules.Laws.{ignored_last}

-- The patterns of the settings, each with an end of line.
unfoldable pub extra_text : List Bytes → Bytes
extra_text [] = []
extra_text (p ∷ ps) = p ++ b'\n' ∷ extra_text ps

module _ (extra : List Bytes) (read_file : Bytes → Option Bytes) where
  -- The text of the rules of a root.
  unfoldable pub rules_text : Bytes → Bytes
  rules_text path = elim (read_file (path ++ codes "\\.npsyncignore")) [
    | none ↦ extra_text extra
    | some content ↦ extra_text extra ++ content
  ]

  -- The loop over the roots.
  unfoldable pub refresh_roots : List (Bytes × Bytes) → Map (List Rule) → Map (List Rule)
  refresh_roots [] rules = rules
  refresh_roots ((id, path) ∷ roots) rules =
      refresh_roots roots (insert id (parse (rules_text path)) rules)

  -- `refreshIgnoreRules`
  unfoldable pub refresh_ignore_rules : List (Bytes × Bytes) → Map (List Rule)
  refresh_ignore_rules roots = insert [] (parse (extra_text extra)) (refresh_roots roots [])

-- `SyncEngine::ignored`
unfoldable pub root_ignored : Map (List Rule) → Bytes → Bool → Option Bool
root_ignored [] rel is_dir = some false
root_ignored ((id, rules) ∷ rest) rel is_dir =
    let others = root_ignored rest rel is_dir in
    elim (ignored rules rel is_dir) [ none ↦ none | some hit ↦ if hit then some true else others ]

-- No id is empty, and no two roots have the same.
unfoldable pub Distinct : List (Bytes × Bytes) → Type 0
Distinct [] = Unit
Distinct ((id, path) ∷ roots) = (id ≢ []) × All (λ (j, p). j ≢ id) roots × Distinct roots

module _ (rel : Bytes) (is_dir : Bool) where
  -- Whether some rules exclude the path, and whether one of several does.
  unfoldable pub excludes : List Rule → Bool
  excludes rules = elim (ignored rules rel is_dir) [ none ↦ false | some hit ↦ hit ]

  unfoldable pub any_excludes : List (List Rule) → Bool
  any_excludes [] = false
  any_excludes (rules ∷ rest) = excludes rules || any_excludes rest

  rules_in : Map (List Rule) → Bool
  rules_in [] = false
  rules_in ((id, rules) ∷ m) = excludes rules || rules_in m

  ignored-excludes : (rules : List Rule) → ignored rules rel is_dir ≡ some (excludes rules)
  unfolding excludes
  ignored-excludes rules =
      let (before, hit, e, rest, last) =
        ignored_last rules
          (record { pattern = []; negate = false; dir_only = false; anchored = false }) rel
          is_dir in
      e ∙ ap some (sym (ap (λ o. elim o [ none ↦ false | some hit ↦ hit ]) e))

  root_ignored-rules_in : (m : Map (List Rule)) → root_ignored m rel is_dir ≡ some (rules_in m)
  unfolding root_ignored rules_in
  root_ignored-rules_in [] = refl
  root_ignored-rules_in ((id, rules) ∷ m) =
      rw (root_ignored, ignored-excludes rules) (ground (arith, root_ignored-rules_in m))

  Fresh : Bytes → Map (List Rule) → Type 0
  Fresh id m = All (λ (j, r). j ≢ id) m

  rules_in-insert :
      (id : Bytes) (rules : List Rule) (m : Map (List Rule))
      → Fresh id m
      → rules_in (insert id rules m) ≡ (excludes rules || rules_in m)
  unfolding insert rules_in Fresh
  rules_in-insert id rules [] h = refl
  rules_in-insert id rules ((j, r) ∷ m) (ne, h) =
      ground (arith, eq_of_cmp id j, rules_in-insert id rules m h)

  Fresh-insert :
      (id j : Bytes) (rules : List Rule) (m : Map (List Rule))
      → j ≢ id
      → Fresh id m
      → Fresh id (insert j rules m)
  unfolding insert Fresh
  Fresh-insert id j rules [] ne h = (ne, tt)
  Fresh-insert id j rules ((k, r) ∷ m) ne (h, hs) =
      elim (cmp j k)
        as (λ o.
          All (λ (i, _). i ≢ id)
            (elim o [
              | Ordering.lt ↦ (j, rules) ∷ (k, r) ∷ m
              | Ordering.eq ↦ (k, rules) ∷ m
              | Ordering.gt ↦ (k, r) ∷ insert j rules m
            ])) [
              | Ordering.lt ↦ (ne, (h, hs))
              | Ordering.eq ↦ (h, hs)
              | Ordering.gt ↦ (h, Fresh-insert id j rules m ne hs)
            ]

  -- No rules yet for any of the roots.
  AllFresh : List (Bytes × Bytes) → Map (List Rule) → Type 0
  AllFresh roots m = All (λ (id, p). Fresh id m) roots

  AllFresh-insert :
      (j : Bytes) (rules : List Rule) (roots : List (Bytes × Bytes)) (m : Map (List Rule))
      → All (λ (i, p). i ≢ j) roots
      → AllFresh roots m
      → AllFresh roots (insert j rules m)
  unfolding AllFresh
  AllFresh-insert j rules [] m h k = tt
  AllFresh-insert j rules ((id, path) ∷ roots) m (ne, h) (f, k) =
      (Fresh-insert id j rules m (λ e. ne (sym e)) f, AllFresh-insert j rules roots m h k)

  module _ (extra : List Bytes) (read_file : Bytes → Option Bytes) where
    -- The rules of every root, and the patterns of the settings.
    unfoldable pub all_rules : List (Bytes × Bytes) → List (List Rule)
    all_rules [] = parse (extra_text extra) ∷ []
    all_rules ((id, path) ∷ roots) = parse (rules_text extra read_file path) ∷ all_rules roots

    refresh_roots-rules_in :
        (roots : List (Bytes × Bytes)) (m : Map (List Rule))
        → Distinct roots
        → AllFresh roots m
        → Fresh [] m
        → rules_in (insert [] (parse (extra_text extra)) (refresh_roots extra read_file roots m))
          ≡ (any_excludes (all_rules roots) || rules_in m)
    unfolding refresh_roots all_rules any_excludes Distinct AllFresh
    refresh_roots-rules_in [] m d f g =
        rules_in-insert [] (parse (extra_text extra)) m g ∙ ground arith
    refresh_roots-rules_in ((id, path) ∷ roots) m (ne, others, d) (f, fs) g =
        let rules : List Rule = parse (rules_text extra read_file path) in
        let rest =
          refresh_roots-rules_in roots (insert id rules m) d
            (AllFresh-insert id rules roots m others fs) (Fresh-insert [] id rules m ne g) in
        rest ∙ ground (arith, rules_in-insert id rules m f)

    -- Where no root has an empty id and no two roots have the same, `ignored` returns, behind
    -- `refreshIgnoreRules`, and excludes a path exactly if the rules of any root do, whichever root the path is
    -- in, or the patterns of the settings alone.
    pub root_ignored-refresh_ignore_rules :
        (roots : List (Bytes × Bytes))
        → Distinct roots
        → root_ignored (refresh_ignore_rules extra read_file roots) rel is_dir
          ≡ some (any_excludes (all_rules roots))
    unfolding refresh_ignore_rules AllFresh Fresh rules_in
    root_ignored-refresh_ignore_rules roots d =
        root_ignored-rules_in (refresh_ignore_rules extra read_file roots)
        ∙ ap some (refresh_roots-rules_in roots [] d (none_yet roots) tt ∙ ground arith)
      where
        none_yet : (rs : List (Bytes × Bytes)) → AllFresh rs []
        none_yet [] = tt
        none_yet (r ∷ rs) = (tt, none_yet rs)
