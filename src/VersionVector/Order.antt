-- ===== src/VersionVector/Order.antt =====
-- plugin/src/core/VersionVector.cpp: what the operations do to the counters, and the order that
-- they decide.
use notepadpp_sync.Prelude.{
  ℕ, ◌+◌, ◌≤◌, ◌<◌, max, ◌≡◌, refl, ◌∙◌, ap, ◌↔◌, ◌⊎◌, inl, inr, ◌≢◌, Bool, true, false, none, some,
  [], ◌∷◌, ltb, if◌then◌else◌, arith, All, All-mono, Bytes, str_eq, str_eq_iff, Bool-cases,
  Option-cases, false_of_ne,
}
use notepadpp_sync.Prelude.Map.{
  find, insert, IsSorted, find-insert, insert-IsSorted, All-find, All_at, find-Above,
  IsSorted-of_Above, Above,
}
use notepadpp_sync.VersionVector.{
  VersionVector, get, touch, bump, merge_entry, merge, greater_entries, lacks_entry, dominates,
  equal, concurrent,
}

pub get-insert :
    (d e : Bytes) (v : ℕ) (vv : VersionVector)
    → get (insert e v vv) d ≡ (if str_eq d e then v else get vv d)
unfolding get
get-insert d e v vv = ground (arith, find-insert d e v vv)

pub get-touch : (d e : Bytes) (vv : VersionVector) → get (touch vv e) d ≡ get vv d
unfolding get touch
get-touch d e vv = ground (arith, find-insert d e 0 vv, str_eq_iff d e)

touch-IsSorted : (vv : VersionVector) (e : Bytes) → IsSorted vv → IsSorted (touch vv e)
unfolding touch
touch-IsSorted vv e h = ground (arith, insert-IsSorted e 0 vv h)

-- Where `bump` returns a vector, the counter of the bumped device is one higher and every other is as before.
pub get-bump :
    (d e : Bytes) (vv : VersionVector) {vv' : VersionVector}
    → bump vv e ≡ some vv'
    → get vv' d ≡ (if str_eq d e then get vv d + 1 else get vv d)
unfolding bump
get-bump d e vv h =
    ground (arith, get-insert d e (get vv e + 1) (touch vv e), get-touch d e vv, str_eq_iff d e)

pub bump-IsSorted :
    (e : Bytes) (vv : VersionVector) {vv' : VersionVector}
    → IsSorted vv
    → bump vv e ≡ some vv'
    → IsSorted vv'
unfolding bump
bump-IsSorted e vv h b =
    ground (arith, insert-IsSorted e (get vv e + 1) (touch vv e) (touch-IsSorted vv e h))

merge_entry-IsSorted :
    (vv : VersionVector) (e : Bytes) (v : ℕ) → IsSorted vv → IsSorted (merge_entry vv e v)
unfolding merge_entry
merge_entry-IsSorted vv e v h =
    ground (arith, insert-IsSorted e v (touch vv e) (touch-IsSorted vv e h), touch-IsSorted vv e h)

pub merge-IsSorted : (vv o : VersionVector) → IsSorted vv → IsSorted (merge vv o)
unfolding merge
merge-IsSorted vv [] h = h
merge-IsSorted vv ((e, v) ∷ o) h =
    merge-IsSorted (merge_entry vv e v) o (merge_entry-IsSorted vv e v h)

get-merge_entry :
    (d e : Bytes) (v : ℕ) (vv : VersionVector)
    → get (merge_entry vv e v) d ≡ (if str_eq d e then max (get vv d) v else get vv d)
unfolding merge_entry
get-merge_entry d e v vv =
    ground (arith, get-insert d e v (touch vv e), get-touch d e vv, str_eq_iff d e)

get-cons :
    (d e : Bytes) (v : ℕ) (o : VersionVector)
    → get ((e, v) ∷ o) d ≡ (if str_eq d e then v else get o d)
unfolding get str_eq
get-cons d e v o = ground arith

-- After a merge with a vector whose keys are in order, each device's counter is the greater of the two.
pub get-merge :
    (vv o : VersionVector) (d : Bytes) → IsSorted o → get (merge vv o) d ≡ max (get vv d) (get o d)
unfolding merge
get-merge vv [] d h = unfold get in omega arith
get-merge vv ((e, v) ∷ o) d h =
    rw (get-merge (merge_entry vv e v) o d (IsSorted-of_Above e o h)) (
      ground (arith, get-merge_entry d e v vv, get-cons d e v o, str_eq_iff d e, get_above d e o h))
  where
    get_above : (d e : Bytes) (o : VersionVector) → Above e o → d ≡ e → get o d ≡ 0
    get_above d e o h p = ap (get o) p ∙ rw (get, find-Above e o h)

module _ (o : VersionVector) where
  All-of_greater :
      (rest : VersionVector) (g b : Bool)
      → greater_entries o rest g ≡ some b
      → All (λ e. get o e.0 ≤ e.1) rest
  unfolding greater_entries
  All-of_greater [] g b h = tt
  All-of_greater ((e, v) ∷ rest) g b h =
      (ground arith, All-of_greater rest (if ltb (get o e) v then true else g) b (ground arith))

  strict_of_greater :
      (m rest : VersionVector) (g : Bool)
      → All (λ e. find e.0 m ≡ some e.1) rest
      → greater_entries o rest g ≡ some true
      → (g ≡ true) ⊎ ((d : Bytes) × (get o d < get m d))
  unfolding greater_entries
  strict_of_greater m [] g f h = inl (ground arith)
  strict_of_greater m ((e, v) ∷ rest) g (found, f) h = elim (Bool-cases (ltb (get o e) v)) [
    | inl lt ↦ inr (e, unfold get in ground arith)
    | inr ge ↦ strict_of_greater m rest g f (ground arith)
  ]

  greater_stays :
      (rest : VersionVector)
      → All (λ e. get o e.0 ≤ e.1) rest
      → greater_entries o rest true ≡ some true
  unfolding greater_entries
  greater_stays [] h = refl
  greater_stays ((e, v) ∷ rest) (le, h) = ground (arith, greater_stays rest h)

  greater_of_strict :
      (d : Bytes) (rest : VersionVector) (g : Bool)
      → All (λ e. get o e.0 ≤ e.1) rest
      → get o d < get rest d
      → greater_entries o rest g ≡ some true
  unfolding greater_entries
  greater_of_strict d [] g h lt = unfold get in ground arith
  greater_of_strict d ((e, v) ∷ rest) g (le, h) lt = ground (
    arith,
    greater_stays rest h,
    greater_of_strict d rest g h,
    get-cons d e v rest,
    str_eq_iff d e,
  )

module _ (vv : VersionVector) where
  known_of_lacks :
      (rest : VersionVector)
      → lacks_entry vv rest ≡ false
      → All (λ e. (e.1 ≡ 0) ⊎ (find e.0 vv ≢ none)) rest
  unfolding lacks_entry
  known_of_lacks [] h = tt
  known_of_lacks ((e, v) ∷ rest) h = (ground arith, known_of_lacks rest (ground arith))

  lacks_of_le :
      (rest : VersionVector) → All (λ e. e.1 ≤ get vv e.0) rest → lacks_entry vv rest ≡ false
  unfolding lacks_entry get
  lacks_of_le [] h = refl
  lacks_of_le ((e, v) ∷ rest) (le, h) = ground (arith, lacks_of_le rest h)

-- Every counter of `a` is at most that of `b`.
abbrev pub Le : VersionVector → VersionVector → Type 0
Le a b = (d : Bytes) → get a d ≤ get b d

-- Some counter of `a` is below that of `b`.
abbrev pub SomeLt : VersionVector → VersionVector → Type 0
SomeLt a b = (d : Bytes) × (get a d < get b d)

get_of_find : (d : Bytes) (a : VersionVector) {v : ℕ} → find d a ≡ some v → get a d ≡ v
unfolding get
get_of_find d a e = ground arith

Le_of_All : (a b : VersionVector) → IsSorted a → All (λ e. e.1 ≤ get b e.0) a → Le a b
Le_of_All a b h le d = elim (Option-cases (find d a)) [
  | inl p ↦ unfold get in ground arith
  | inr (v, p) ↦ omega (arith, All_at (λ e. e.1 ≤ get b e.0) d a le p, get_of_find d a p)
]

All-of_Le : (a b : VersionVector) → IsSorted a → Le a b → All (λ e. e.1 ≤ get b e.0) a
All-of_Le a b h le =
    All-mono (λ e. find e.0 a ≡ some e.1) (λ e. e.1 ≤ get b e.0)
      (λ (e : Bytes × ℕ) (f : find e.0 a ≡ some e.1). omega (arith, le e.0, get_of_find e.0 a f)) a
      (All-find a h)

module _ (a b : VersionVector) (ha : IsSorted a) (hb : IsSorted b) where
  le_of_dominates :
      (g : Bool) (d : Bytes)
      → greater_entries b a false ≡ some g
      → lacks_entry a b ≡ false
      → get b d ≤ get a d
  unfolding get
  le_of_dominates g d e l = elim (Option-cases (find d b)) [
    | inl p ↦ ground arith
    | inr (w, p) ↦ elim (Option-cases (find d a)) [
      | inl q ↦
          ground (arith, All_at (λ e. (e.1 ≡ 0) ⊎ (find e.0 a ≢ none)) d b (known_of_lacks a b l) p)
      | inr (v, q) ↦
          ground (arith, All_at (λ e. get b e.0 ≤ e.1) d a (All-of_greater b a false g e) q)
    ]
  ]

  dominates_sound : dominates a b ≡ true → Le b a × SomeLt b a
  unfolding dominates
  dominates_sound h =
      let l : lacks_entry a b ≡ false = ground arith in
      let e : greater_entries b a false ≡ some true = ground arith in
      (
        λ d. le_of_dominates true d e l,
        elim (strict_of_greater b a a false (All-find a ha) e) [ inl p ↦ cc | inr w ↦ w ],
      )

  dominates_complete : Le b a → SomeLt b a → dominates a b ≡ true
  unfolding dominates
  dominates_complete le (d, lt) =
      rw
        (dominates, greater_of_strict b d a false at_most lt, lacks_of_le a b (All-of_Le b a hb le))
    where
      at_most : All (λ e. get b e.0 ≤ e.1) a
      at_most =
          All-mono (λ e. find e.0 a ≡ some e.1) (λ e. get b e.0 ≤ e.1)
            (λ (e : Bytes × ℕ) (f : find e.0 a ≡ some e.1).
              omega (arith, le e.0, get_of_find e.0 a f))
            a (All-find a ha)

  -- Of two vectors whose keys are in order, the first `dominates` the second exactly if it counts at least
  -- as much for every device, and more for some device.
  pub dominates_iff : (dominates a b ≡ true) ↔ (Le b a × SomeLt b a)
  dominates_iff = (dominates_sound, λ (le, lt). dominates_complete le lt)

pub equal_iff : (a b : VersionVector) → (equal a b ≡ true) ↔ (a ≡ b)
unfolding equal
equal_iff [] [] = (λ _. refl, λ _. refl)
equal_iff [] (_ ∷ _) = (λ h. cc, λ h. cc)
equal_iff (_ ∷ _) [] = (λ h. cc, λ h. cc)
equal_iff ((d, v) ∷ a) ((e, w) ∷ b) = ground (arith, str_eq_iff d e, equal_iff a b)

-- A vector is at most another, or has a greater counter.
some_greater :
    (a b rest : VersionVector)
    → All (λ e. find e.0 a ≡ some e.1) rest
    → All (λ e. e.1 ≤ get b e.0) rest ⊎ SomeLt b a
some_greater a b [] f = inl tt
some_greater a b ((e, v) ∷ rest) (p, f) = elim (Bool-cases (ltb (get b e) v)) [
  | inl lt ↦ inr (e, ground (arith, get_of_find e a p))
  | inr ge ↦ elim (some_greater a b rest f) [ inl h ↦ inl (ground arith, h) | inr w ↦ inr w ]
]

Le_or_SomeLt : (a b : VersionVector) → IsSorted a → Le a b ⊎ SomeLt b a
Le_or_SomeLt a b h = elim (some_greater a b a (All-find a h)) [
  | inl le ↦ inl (Le_of_All a b h le)
  | inr w ↦ inr w
]

-- Neither vector is behind the other, or they differ only by entries that count nothing.
abbrev pub Diverged : VersionVector → VersionVector → Type 0
Diverged a b = (SomeLt a b × SomeLt b a) ⊎ (((d : Bytes) → get a d ≡ get b d) × (a ≢ b))

module _ (a b : VersionVector) (ha : IsSorted a) (hb : IsSorted b) where
  concurrent_of : ¬ (Le b a × SomeLt b a) → ¬ (Le a b × SomeLt a b) → a ≢ b → concurrent a b ≡ true
  unfolding concurrent
  concurrent_of p q r = rw (
    concurrent,
    false_of_ne (dominates a b) (λ h. p ((dominates_iff a b ha hb).0 h)),
    false_of_ne (dominates b a) (λ h. q ((dominates_iff b a hb ha).0 h)),
    false_of_ne (equal a b) (λ h. r ((equal_iff a b).0 h)),
  )

  concurrent_complete : Diverged a b → concurrent a b ≡ true
  concurrent_complete (inl ((d, p), (e, q))) =
      concurrent_of (λ (le, _). omega (arith, le d)) (λ (le, _). omega (arith, le e))
        (λ s. omega (arith, ap (λ v. get v d) s))
  concurrent_complete (inr (same, differ)) =
      concurrent_of (λ (_, (d, lt)). omega (arith, same d)) (λ (_, (d, lt)). omega (arith, same d))
        differ

  concurrent_sound : concurrent a b ≡ true → Diverged a b
  unfolding concurrent
  concurrent_sound h =
      let p : dominates a b ≡ false = ground arith in
      let q : dominates b a ≡ false = ground arith in
      let r : equal a b ≡ false = ground arith in
      elim (Le_or_SomeLt a b ha) [
        | inl le ↦ elim (Le_or_SomeLt b a hb) [
          | inl ge ↦ inr (λ d. omega (arith, le d, ge d), λ e. cc ((equal_iff a b).1 e))
          | inr lt ↦ cc ((dominates_iff b a hb ha).1 (le, lt))
        ]
        | inr gt ↦ elim (Le_or_SomeLt b a hb) [
          | inl ge ↦ cc ((dominates_iff a b ha hb).1 (ge, gt))
          | inr lt ↦ inl (lt, gt)
        ]
      ]

  -- Two vectors whose keys are in order are `concurrent` exactly if each counts more than the other for
  -- some device, or they count alike for every device and yet are not the same map.
  pub concurrent_iff : (concurrent a b ≡ true) ↔ Diverged a b
  concurrent_iff = (concurrent_sound, concurrent_complete)
