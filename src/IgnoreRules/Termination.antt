-- ===== src/IgnoreRules/Termination.antt =====
-- plugin/src/core/IgnoreRules.cpp: `globMatch` always returns.
use notepadpp_sync.Prelude.{
  ℕ, zero, suc, ◌+◌, ◌≤◌, ◌<◌, ◌≡◌, refl, Bool, true, false, Option, none, some, [], ◌∷◌, arith,
  length, Bytes, Bool-cases, Option-cases, inl, inr, ap,
}
use notepadpp_sync.IgnoreRules.Glob.{
  Star, only_stars, takes, behind_stars, opens, advance, tail, Round, go, back, fail, glob_round,
  glob_loop, glob_match,
}

-- A star resumes within the pattern of `m` characters, stands at the text `s` or before it, and can be
-- returned to `n` times at most.
abbrev Bounded : ℕ → ℕ → Bytes → Option Star → Type 0
Bounded m n s none = length s ≤ n
Bounded m n s (some st) =
    (length st.resume ≤ m) × (length s ≤ length st.from) × (length st.from ≤ n)

-- A round that goes on takes a character of the pattern or of the text; one that returns takes one from
-- the star.
abbrev Smaller : ℕ → ℕ → Bytes → Bytes → Round → Type 0
Smaller m n p s (go p' s' star) =
    (length p' ≤ m) × Bounded m n s' star × (length p' + length s' < length p + length s)
Smaller m n p s (back st) = (length st.resume ≤ m) × (length st.from < n)
Smaller m n p s fail = Unit

behind_stars-le : (p : Bytes) → length (behind_stars p) ≤ length p
unfolding behind_stars
behind_stars-le [] = omega arith
behind_stars-le (c ∷ p) = ground arith

opens-lt : (p : Bytes) {dbl : Bool} {k : Bytes} → opens p ≡ some (dbl, k) → length k < length p
unfolding opens
opens-lt [] e = cc
opens-lt (c ∷ []) e = ground arith
opens-lt (c ∷ d ∷ p) e = ground (arith, behind_stars-le p)

takes-lt : (p : Bytes) (d : ℕ) → takes p d ≡ true → length (tail p) < length p
unfolding takes tail
takes-lt [] d e = cc
takes-lt (c ∷ p) d e = omega arith

advanced :
    (m n : ℕ) (s : Bytes) (star : Option Star) (st : Star)
    → Bounded m n s star
    → advance star ≡ some st
    → (length st.resume ≤ m) × (length st.from < n)
unfolding advance
advanced m n s none st b e = cc
advanced m n s (some old) st b e = of_text old.from refl
  where
    of_text : (t : Bytes) → old.from ≡ t → (length st.resume ≤ m) × (length st.from < n)
    of_text [] q = ground arith
    of_text (c ∷ t) q = ground (arith, ap length q)

opened-Bounded :
    (m n : ℕ) (t k : Bytes) (dbl : Bool) (star : Option Star)
    → length k ≤ m
    → Bounded m n t star
    → Bounded m n t (some (record { resume = k; from = t; double = dbl }))
opened-Bounded m n t k dbl none h b = (h, omega arith, b)
opened-Bounded m n t k dbl (some st) h b = (h, omega arith, omega arith)

shrunk :
    (m n : ℕ) (d : ℕ) (s : Bytes) (star : Option Star)
    → Bounded m n (d ∷ s) star
    → Bounded m n s star
shrunk m n d s none b = omega arith
shrunk m n d s (some st) b = (b.0, omega arith, b.2)

round-Smaller :
    (m n : ℕ) (p : Bytes) (d : ℕ) (s : Bytes) (star : Option Star)
    → length p ≤ m
    → Bounded m n (d ∷ s) star
    → Smaller m n p (d ∷ s) (glob_round p d s star)
unfolding glob_round
round-Smaller m n p d s star h b = elim (Bool-cases (takes p d)) [
  | inl t ↦
      rw t (omega (arith, takes-lt p d t), shrunk m n d s star b, omega (arith, takes-lt p d t))
  | inr f ↦ elim (Option-cases (opens p)) [
    | inr ((dbl, k), o) ↦
        rw (f, o)
          (
            omega (arith, opens-lt p o),
            opened-Bounded m n (d ∷ s) k dbl star (omega (arith, opens-lt p o)) b,
            omega (arith, opens-lt p o),
          )
    | inl o ↦ elim (Option-cases (advance star)) [
      | inl a ↦ rw (f, o, a) tt
      | inr (st, a) ↦ rw (f, o, a) (advanced m n (d ∷ s) star st b a)
    ]
  ]
]

abbrev pub Ends : Option Bool → Type 0
Ends o = (b : Bool) × (o ≡ some b)

-- A round ends if what it goes on with does.
round-Ends :
    (m n : ℕ) (p t : Bytes) (x : Round) (next : Bytes → Bytes → Option Star → Option Bool)
    (again : Star → Option Bool)
    → Smaller m n p t x
    → ((p' s' : Bytes) (star : Option Star)
        → Smaller m n p t (go p' s' star)
        → Ends (next p' s' star))
    → ((st : Star) → Smaller m n p t (back st) → Ends (again st))
    → Ends (elim x [ go p' s' star ↦ next p' s' star | back st ↦ again st | fail ↦ some false ])
round-Ends m n p t (go p' s' star) next again h f g = f p' s' star h
round-Ends m n p t (back st) next again h f g = g st h
round-Ends m n p t fail next again h f g = (false, refl)

-- From any state within these bounds the loop returns.
loop_returns :
    (m full returns rounds : ℕ) (p s : Bytes) (star : Option Star)
    → m + returns ≤ full
    → length p ≤ m
    → Bounded m returns s star
    → length p + length s ≤ rounds
    → Ends (glob_loop full returns rounds p s star)
unfolding glob_loop
loop_returns m full zero zero p [] star f h b r = (only_stars p, refl)
loop_returns m full (suc returns) zero p [] star f h b r = (only_stars p, refl)
loop_returns m full zero (suc rounds) p [] star f h b r = (only_stars p, refl)
loop_returns m full (suc returns) (suc rounds) p [] star f h b r = (only_stars p, refl)
loop_returns m full returns zero p (d ∷ s) star f h b r = absurd (omega arith)
loop_returns m full zero (suc rounds) p (d ∷ s) star f h b r =
    round-Ends m 0 p (d ∷ s) (glob_round p d s star) _ (λ st. none)
      (round-Smaller m 0 p d s star h b)
      (λ p' s' star' (h', b', lt).
        loop_returns m full zero rounds p' s' star' f h' b' (omega arith))
      (λ st (h', lt). absurd (omega arith))
loop_returns m full (suc returns) (suc rounds) p (d ∷ s) star f h b r =
    round-Ends m (suc returns) p (d ∷ s) (glob_round p d s star) _ _
      (round-Smaller m (suc returns) p d s star h b)
      (λ p' s' star' (h', b', lt).
        loop_returns m full (suc returns) rounds p' s' star' f h' b' (omega arith))
      (λ st (h', lt).
        loop_returns m full returns full st.resume st.from (some st) (omega arith) h'
          (h', omega arith, omega arith) (omega arith))

-- For every pattern and text, `globMatch` returns: the bounds on its loop are never met.
pub glob_match_returns : (pat str : Bytes) → (b : Bool) × (glob_match pat str ≡ some b)
unfolding glob_match
glob_match_returns pat str =
    loop_returns (length pat) (length pat + length str) (length str) (length pat + length str) pat
      str none (omega arith) (omega arith) (omega arith) (omega arith)
