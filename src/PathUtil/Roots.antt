-- ===== src/PathUtil/Roots.antt =====
-- plugin/src/core/PathUtil.cpp: `isInsideRoot` and `joinInsideRoot`.
use notepadpp_sync.Prelude.{
  ℕ, ◌≡◌, ◌↔◌, ◌⊎◌, refl, sym, ap, ◌∙◌, Bool, true, false, ◌||◌, none, some, [], ◌∷◌, ◌++◌,
  append-nil, append_assoc, arith, leb, ◌==◌, if◌then◌else◌, length, length-append, Bytes, str_eq,
  str_eq_iff, drop_back, replace, All, Bool-cases, ==_iff, Option-cases, inl, inr,
}
use notepadpp_sync.PathUtil.{
  normalize_relative, wlower, has_prefix, is_inside_root, join_inside_root,
}

-- The root with no backslash at its end, as `isInsideRoot` compares it.
abbrev pub bare : Bytes → Bytes
bare = drop_back (λ c. c == b'\\')

has_prefix_sound :
    (root path : Bytes)
    → has_prefix root path ≡ true
    → (rest : Bytes) × (path ≡ root ++ b'\\' ∷ rest)
unfolding has_prefix
has_prefix_sound [] [] h = cc
has_prefix_sound [] (c ∷ path) h = (path, ground arith)
has_prefix_sound (r ∷ root) [] h = cc
has_prefix_sound (r ∷ root) (c ∷ path) h =
    let (rest, e) = has_prefix_sound root path (ground arith) in (rest, ground arith)

has_prefix_complete : (root rest : Bytes) → has_prefix root (root ++ b'\\' ∷ rest) ≡ true
unfolding has_prefix
has_prefix_complete [] rest = refl
has_prefix_complete (r ∷ root) rest = ground (arith, has_prefix_complete root rest)

tests_of_prefix :
    (root path rest : Bytes)
    → path ≡ root ++ b'\\' ∷ rest
    → (if str_eq path root
        then true
        else if leb (length path) (length root)
        then false
        else has_prefix root path)
      ≡ true
tests_of_prefix root path rest e = ground (
  arith,
  ap length e,
  length-append root (b'\\' ∷ rest),
  ap (has_prefix root) e,
  has_prefix_complete root rest,
)

module _ (towlower : ℕ → ℕ) (root path : Bytes) where
  -- Inside a root: the root itself, or behind it and a separator, with case and slashes folded.
  abbrev pub Inside : Type 0
  Inside =
      (wlower towlower path ≡ bare (wlower towlower root))
      ⊎ ((rest : Bytes) × (wlower towlower path ≡ bare (wlower towlower root) ++ b'\\' ∷ rest))

  inside_sound : is_inside_root towlower root path ≡ true → Inside
  unfolding is_inside_root
  inside_sound h = elim (Bool-cases (str_eq (wlower towlower path) (bare (wlower towlower root)))) [
    | inl e ↦ inl ((str_eq_iff _ _).0 e)
    | inr e ↦ inr (has_prefix_sound _ _ (ground arith))
  ]

  inside_complete : Inside → is_inside_root towlower root path ≡ true
  unfolding is_inside_root
  inside_complete (inl e) = rw ((str_eq_iff _ _).1 e, is_inside_root)
  inside_complete (inr (rest, e)) =
      tests_of_prefix (bare (wlower towlower root)) (wlower towlower path) rest e

  -- `isInsideRoot` holds exactly if, with case and slashes folded and the backslashes at the root's end
  -- dropped, the path is the root, or is the root, a backslash and some rest.
  pub is_inside_root_iff : (is_inside_root towlower root path ≡ true) ↔ Inside
  is_inside_root_iff = (inside_sound, inside_complete)

-- Both separators taken off the end, as `joinInsideRoot` does.
abbrev pub trimmed : Bytes → Bytes
trimmed = drop_back (λ c. c == b'\\' || c == b'/')

drop_back-append :
    (p : ℕ → Bool) (s tail : Bytes)
    → All (λ c. p c ≡ true) tail
    → drop_back p (s ++ tail) ≡ drop_back p s
unfolding drop_back
drop_back-append p [] [] h = refl
drop_back-append p [] (c ∷ tail) (e, h) = rw (drop_back-append p [] tail h, drop_back, e)
drop_back-append p (c ∷ s) tail h = rw (drop_back-append p s tail h, drop_back)

-- What `drop_back` takes off.
dropped :
    (p : ℕ → Bool) (s : Bytes)
    → (tail : Bytes) × (s ≡ drop_back p s ++ tail) × All (λ c. p c ≡ true) tail
unfolding drop_back
dropped p [] = ([], refl, tt)
dropped p (c ∷ s) = let (tail, e, h) = dropped p s in step (drop_back p s) tail e h
  where
    step :
        (r tail : Bytes)
        → s ≡ r ++ tail
        → All (λ c. p c ≡ true) tail
        → (out : Bytes) × (c ∷ s
            ≡ (elim r [ [] ↦ if p c then [] else c ∷ [] | d ∷ t ↦ c ∷ d ∷ t ]) ++ out)
          × All (λ c. p c ≡ true) out
    step [] tail e h = elim (Bool-cases (p c)) [
      | inl t ↦ (c ∷ tail, rw t (ap (λ r. c ∷ r) e), (t, h))
      | inr f ↦ (tail, rw f (ap (λ r. c ∷ r) e), h)
    ]
    step (d ∷ t) tail e h = (tail, ap (λ r. c ∷ r) e, h)

module _ (towlower : ℕ → ℕ) where
  wlower-append : (s t : Bytes) → wlower towlower (s ++ t) ≡ wlower towlower s ++ wlower towlower t
  unfolding wlower replace
  wlower-append [] t = refl
  wlower-append (c ∷ s) t =
      ap (λ r. (if towlower c == b'/' then b'\\' else towlower c) ∷ r) (wlower-append s t)

module _ (towlower : ℕ → ℕ) (keeps : towlower b'\\' ≡ b'\\') (keeps' : towlower b'/' ≡ b'/') where
  separators :
      (s : Bytes)
      → All (λ c. (c == b'\\' || c == b'/') ≡ true) s
      → All (λ c. (c == b'\\') ≡ true) (wlower towlower s)
  unfolding wlower replace
  separators [] h = tt
  separators (c ∷ s) (p, h) = (
    elim (Bool-cases (c == b'\\')) [
      | inl e ↦ ground (arith, ap towlower (c_of e))
      | inr e ↦ ground (arith, ap towlower (c_of' e p))
    ],
    separators s h,
  )
    where
      c_of : (c == b'\\') ≡ true → c ≡ b'\\'
      c_of e = ground arith

      c_of' : (c == b'\\') ≡ false → (c == b'\\' || c == b'/') ≡ true → c ≡ b'/'
      c_of' e p = ground arith

  bare-trimmed : (s : Bytes) → bare (wlower towlower s) ≡ bare (wlower towlower (trimmed s))
  bare-trimmed s =
      let (tail, e, h) = dropped (λ c. c == b'\\' || c == b'/') s in
      ap (λ r. bare (wlower towlower r)) e
      ∙ ap bare (wlower-append towlower (trimmed s) tail)
      ∙ drop_back-append (λ c. c == b'\\') (wlower towlower (trimmed s)) (wlower towlower tail)
          (separators tail h)

  behind :
      (w tail t : Bytes)
      → All (λ c. (c == b'\\') ≡ true) tail
      → (rest : Bytes) × ((w ++ tail) ++ b'\\' ∷ t ≡ w ++ b'\\' ∷ rest)
  behind w [] t h = (t, ap (λ r. r ++ b'\\' ∷ t) (append-nil w))
  behind w (c ∷ tail) t (e, h) = (
    tail ++ b'\\' ∷ t,
    append_assoc w (c ∷ tail) (b'\\' ∷ t)
        ∙ ap (λ d. w ++ d ∷ (tail ++ b'\\' ∷ t)) ((==_iff c b'\\').0 e),
  )

  bare_joined :
      (s t : Bytes)
      → (rest : Bytes) × (wlower towlower (s ++ b'\\' ∷ t)
          ≡ bare (wlower towlower s) ++ b'\\' ∷ rest)
  bare_joined s t =
      let (tail, e, h) = dropped (λ c. c == b'\\') (wlower towlower s) in
      let (rest, q) = behind (bare (wlower towlower s)) tail (wlower towlower t) h in
      (
        rest,
        wlower-append towlower s (b'\\' ∷ t)
            ∙ ap (λ r. wlower towlower s ++ r) (folded t)
            ∙ ap (λ r. r ++ b'\\' ∷ wlower towlower t) e
            ∙ q,
      )
    where
      folded : (t : Bytes) → wlower towlower (b'\\' ∷ t) ≡ b'\\' ∷ wlower towlower t
      folded t = unfold wlower replace in ground (arith, keeps)

  -- A joined path lies in its root, trimmed or not.
  joined_inside :
      (root t : Bytes)
      → (is_inside_root towlower root (trimmed root ++ b'\\' ∷ t) ≡ true)
        × (is_inside_root towlower (trimmed root) (trimmed root ++ b'\\' ∷ t) ≡ true)
  joined_inside root t =
      let (rest, e) = bare_joined (trimmed root) t in
      (
        (is_inside_root_iff towlower root (trimmed root ++ b'\\' ∷ t)).1
            (inr (rest, e ∙ ap (λ r. r ++ b'\\' ∷ rest) (sym (bare-trimmed root)))),
        (is_inside_root_iff towlower (trimmed root) (trimmed root ++ b'\\' ∷ t)).1 (inr (rest, e)),
      )

  -- Where `towlower` keeps both slashes: `joinInsideRoot` refuses just the paths that `normalizeRelative`
  -- refuses. What it returns is the normal path below the root without its last separators, and lies inside
  -- the root by `isInsideRoot`.
  pub join_inside_root_lem :
      (utf8_to_wide : Bytes → Bytes) (root rel : Bytes)
      → ((normalize_relative rel ≡ none) × (join_inside_root towlower utf8_to_wide root rel ≡ none))
        ⊎ ((norm : Bytes) × (normalize_relative rel ≡ some norm)
            × (join_inside_root towlower utf8_to_wide root rel
                ≡ some (trimmed root ++ b'\\' ∷ replace b'/' b'\\' (utf8_to_wide norm)))
            × (is_inside_root towlower root
                  (trimmed root ++ b'\\' ∷ replace b'/' b'\\' (utf8_to_wide norm))
                ≡ true))
  unfolding join_inside_root
  join_inside_root_lem u root rel = elim (Option-cases (normalize_relative rel)) [
    | inl e ↦ inl (e, ground arith)
    | inr (norm, e) ↦
        let t = replace b'/' b'\\' (u norm) in
        let (a, b) = joined_inside root t in inr (norm, e, rw (join_inside_root, e, b), a)
  ]
