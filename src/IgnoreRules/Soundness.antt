-- ===== src/IgnoreRules/Soundness.antt =====
-- plugin/src/core/IgnoreRules.cpp: what `globMatch` accepts, the pattern does stand for.
use notepadpp_sync.Prelude.{
  ℕ, zero, suc, ◌≡◌, ◌≢◌, refl, sym, ap, ◌∙◌, subst, Bool, true, false, Option, none, some, [], ◌∷◌,
  ◌++◌, ◌==◌, ==_iff, if◌then◌else◌, arith, Bytes, All, Bool-cases, Option-cases, inl, inr, ◌⊎◌,
}
use notepadpp_sync.IgnoreRules.Glob.{
  Star, only_stars, takes, behind_stars, opens, advance, tail, Round, go, back, fail, glob_round,
  glob_loop, glob_match,
}

-- What a pattern stands for: a character is itself, `?` any character, `*` any characters but slashes,
-- and `**`, with the slash behind it or without, any characters.
pub data Globs : Bytes → Bytes → Type 0 where
  empty : Globs [] []
  same : {p s : Bytes} (c : ℕ) → Globs p s → Globs (c ∷ p) (c ∷ s)
  any : {p s : Bytes} (c : ℕ) → Globs p s → Globs (b'?' ∷ p) (c ∷ s)
  star :
      {p s : Bytes} (gap : Bytes)
      → All (λ c. c ≢ b'/') gap
      → Globs p s
      → Globs (b'*' ∷ p) (gap ++ s)
  stars : {p s : Bytes} (gap : Bytes) → Globs p s → Globs (b'*' ∷ b'*' ∷ p) (gap ++ s)
  stars_slash : {p s : Bytes} (gap : Bytes) → Globs p s → Globs (b'*' ∷ b'*' ∷ b'/' ∷ p) (gap ++ s)

-- What a star may take: a single one no slash.
abbrev Takeable : Bool → Bytes → Type 0
Takeable true gap = Unit
Takeable false gap = All (λ c. c ≢ b'/') gap

-- The star takes some more of the text, and the pattern behind it stands for the rest.
abbrev Later : Option Star → Type 0
Later none = ⊥
Later (some st) =
    (gap : Bytes) × (rest : Bytes) × (st.from ≡ gap ++ rest)
    × Takeable st.double gap
    × Globs st.resume rest

abbrev Found : Bytes → Bytes → Option Star → Type 0
Found p s st = Globs p s ⊎ Later st

stars_empty : (p : Bytes) → only_stars p ≡ true → Globs p []
unfolding only_stars
stars_empty [] e = empty
stars_empty (c ∷ p) e =
    let q : b'*' ≡ c = ground arith in
    subst (λ x. Globs (x ∷ p) []) q (star [] tt (stars_empty p (ground arith)))

takes-Globs :
    (p : Bytes) (d : ℕ) (s : Bytes) → takes p d ≡ true → Globs (tail p) s → Globs p (d ∷ s)
unfolding takes tail
takes-Globs [] d s e g = cc
takes-Globs (c ∷ p) d s e g = elim (Bool-cases (c == b'?')) [
  | inl q ↦ subst (λ x. Globs (x ∷ p) (d ∷ s)) (sym ((==_iff c b'?').0 q)) (any d g)
  | inr n ↦ let q : d ≡ c = ground arith in subst (λ x. Globs (x ∷ p) (d ∷ s)) q (same d g)
]

behind_stars-Globs :
    (p gap rest : Bytes) → Globs (behind_stars p) rest → Globs (b'*' ∷ b'*' ∷ p) (gap ++ rest)
unfolding behind_stars
behind_stars-Globs [] gap rest g = stars gap g
behind_stars-Globs (c ∷ p) gap rest g = slash (c == b'/') refl g
  where
    slash :
        (b : Bool)
        → (c == b'/') ≡ b
        → Globs (if b then p else c ∷ p) rest
        → Globs (b'*' ∷ b'*' ∷ c ∷ p) (gap ++ rest)
    slash true q h =
        subst (λ x. Globs (b'*' ∷ b'*' ∷ x ∷ p) (gap ++ rest)) (sym ((==_iff c b'/').0 q))
          (stars_slash gap h)
    slash false q h = stars gap h

opens-Globs :
    (p k gap rest : Bytes) (dbl : Bool)
    → opens p ≡ some (dbl, k)
    → Takeable dbl gap
    → Globs k rest
    → Globs p (gap ++ rest)
unfolding opens
opens-Globs [] k gap rest dbl e t g = cc
opens-Globs (c ∷ []) k gap rest dbl e t g =
    let q : b'*' ≡ c = ground arith in
    let i : k ≡ [] = ground arith in
    let b : dbl ≡ false = ground arith in
    subst (λ x. Globs (x ∷ []) (gap ++ rest)) q
      (star gap (subst (λ x. Takeable x gap) b t) (subst (λ x. Globs x rest) i g))
opens-Globs (c ∷ d ∷ p) k gap rest dbl e t g =
    let q : b'*' ≡ c = ground arith in
    subst (λ x. Globs (x ∷ d ∷ p) (gap ++ rest)) q
      (elim (Bool-cases (d == b'*')) [
        | inl two ↦
            let r : b'*' ≡ d = ground arith in
            let i : k ≡ behind_stars p = ground arith in
            subst (λ x. Globs (b'*' ∷ x ∷ p) (gap ++ rest)) r
              (behind_stars-Globs p gap rest (subst (λ x. Globs x rest) i g))
        | inr one ↦
            let i : k ≡ d ∷ p = ground arith in
            let b : dbl ≡ false = ground arith in
            star gap (subst (λ x. Takeable x gap) b t) (subst (λ x. Globs x rest) i g)
      ])

opened-Found :
    (p k t : Bytes) (dbl : Bool)
    → opens p ≡ some (dbl, k)
    → Found k t (some (record { resume = k; from = t; double = dbl }))
    → Globs p t
opened-Found p k t true e (inl g) = opens-Globs p k [] t true e tt g
opened-Found p k t false e (inl g) = opens-Globs p k [] t false e tt g
opened-Found p k t dbl e (inr (gap, rest, q, ok, g)) =
    subst (Globs p) (sym q) (opens-Globs p k gap rest dbl e ok g)

advance_lem :
    (old st : Star)
    → advance (some old) ≡ some st
    → (c : ℕ) × (rest : Bytes) × (old.from ≡ c ∷ rest)
      × (old.double ≡ false → c ≢ b'/')
      × (record old { from = rest } ≡ st)
unfolding advance
advance_lem old st e = of_text old.from refl
  where
    of_text :
        (t : Bytes)
        → old.from ≡ t
        → (c : ℕ) × (rest : Bytes) × (old.from ≡ c ∷ rest)
          × (old.double ≡ false → c ≢ b'/')
          × (record old { from = rest } ≡ st)
    of_text [] q = ground arith
    of_text (c ∷ t) q = (c, t, q, λ d z. ground arith, ground arith)

Takeable-cons :
    (dbl : Bool) (c : ℕ) (gap : Bytes)
    → (dbl ≡ false → c ≢ b'/')
    → Takeable dbl gap
    → Takeable dbl (c ∷ gap)
Takeable-cons true c gap n t = tt
Takeable-cons false c gap n t = (n refl, t)

Takeable-nil : (dbl : Bool) → Takeable dbl []
Takeable-nil true = tt
Takeable-nil false = tt

-- A star that takes one more character takes it and what the later one takes.
longer :
    (old : Star) (c : ℕ) (rest : Bytes)
    → old.from ≡ c ∷ rest
    → (old.double ≡ false → c ≢ b'/')
    → Found old.resume rest (some (record old { from = rest }))
    → Later (some old)
longer old c rest q n (inl g) =
    (c ∷ [], rest, q, Takeable-cons old.double c [] n (Takeable-nil old.double), g)
longer old c rest q n (inr (gap, r, q', t, g)) =
    (c ∷ gap, r, q ∙ ap (λ x. c ∷ x) q', Takeable-cons old.double c gap n t, g)

advanced-Later :
    (old : Option Star) (st : Star)
    → advance old ≡ some st
    → Found st.resume st.from (some st)
    → Later old
unfolding advance
advanced-Later none st e f = cc
advanced-Later (some old) st e f =
    let (c, rest, q, n, r) = advance_lem old st e in
    longer old c rest q n (subst (λ x. Found x.resume x.from (some x)) (sym r) f)

-- What a round must show for its state: the same of the state that it leads to.
abbrev Leads : Round → Type 0
Leads (go p s st) = Found p s st
Leads (back st) = Found st.resume st.from (some st)
Leads fail = ⊥

round-Found :
    (p : Bytes) (d : ℕ) (s : Bytes) (st : Option Star)
    → Leads (glob_round p d s st)
    → Found p (d ∷ s) st
unfolding glob_round
round-Found p d s st h = elim (Bool-cases (takes p d)) [
  | inl t ↦ taken t (rw t at h)
  | inr f ↦ elim (Option-cases (opens p)) [
    | inr ((dbl, k), o) ↦ inl (opened-Found p k (d ∷ s) dbl o (rw (f, o) at h))
    | inl o ↦ elim (Option-cases (advance st)) [
      | inl a ↦ absurd (rw (f, o, a) at h)
      | inr (st', a) ↦ inr (advanced-Later st st' a (rw (f, o, a) at h))
    ]
  ]
]
  where
    taken : takes p d ≡ true → Found (tail p) s st → Found p (d ∷ s) st
    taken t (inl g) = inl (takes-Globs p d s t g)
    taken t (inr l) = inr l

round-Leads :
    (x : Round) (next : Bytes → Bytes → Option Star → Option Bool) (again : Star → Option Bool)
    → ((p s : Bytes) (st : Option Star) → next p s st ≡ some true → Found p s st)
    → ((st : Star) → again st ≡ some true → Found st.resume st.from (some st))
    → (elim x [ go p' s' star' ↦ next p' s' star' | back st ↦ again st | fail ↦ some false ])
      ≡ some true
    → Leads x
round-Leads (go p s st) next again f g e = f p s st e
round-Leads (back st) next again f g e = g st e
round-Leads fail next again f g e = ground arith

loop-Found :
    (full returns rounds : ℕ) (p s : Bytes) (st : Option Star)
    → glob_loop full returns rounds p s st ≡ some true
    → Found p s st
unfolding glob_loop
loop-Found full zero zero p [] st e = inl (stars_empty p (ground arith))
loop-Found full (suc returns) zero p [] st e = inl (stars_empty p (ground arith))
loop-Found full zero (suc rounds) p [] st e = inl (stars_empty p (ground arith))
loop-Found full (suc returns) (suc rounds) p [] st e = inl (stars_empty p (ground arith))
loop-Found full zero zero p (d ∷ s) st e = cc
loop-Found full (suc returns) zero p (d ∷ s) st e = cc
loop-Found full zero (suc rounds) p (d ∷ s) st e = round-Found p d s st (
    round-Leads (glob_round p d s st) _ (λ st. none)
      (λ p' s' st' e'. loop-Found full zero rounds p' s' st' e') (λ st e'. cc) e)
loop-Found full (suc returns) (suc rounds) p (d ∷ s) st e = round-Found p d s st (
    round-Leads (glob_round p d s st) _ _
      (λ p' s' st' e'. loop-Found full (suc returns) rounds p' s' st' e')
      (λ st e'. loop-Found full returns full st.resume st.from (some st) e') e)

-- A text that `globMatch` accepts is one that the pattern stands for.
pub glob_match-Globs : (pat str : Bytes) → glob_match pat str ≡ some true → Globs pat str
unfolding glob_match
glob_match-Globs pat str e = elim (loop-Found _ _ _ pat str none e) [ inl g ↦ g | inr l ↦ absurd l ]
