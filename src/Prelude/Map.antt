-- ===== src/Prelude/Map.antt =====
-- `std::map` from strings: an association list in the order of its keys.
use Prim.Native.Nat.{Ordering}
use mathlib.Core.Path.{◌≡◌, refl, sym, ap, ap₂, subst, ◌∙◌}
use mathlib.Core.Logic.{◌⊎◌, inl, inr}
use mathlib.Core.Option.{Option, none, some}
use mathlib.Core.List.{List, [], ◌∷◌}
use native.Mathlib.Omega.{arith}
use notepadpp_sync.Prelude.Lists.{All}
use notepadpp_sync.Prelude.Tests.{if◌then◌else◌}
use notepadpp_sync.Prelude.Strings.{
  Bytes, cmp, cmp_refl, eq_of_cmp, cmp_swap_lt, cmp_swap_gt, cmp_trans, str_eq, str_eq_iff,
}

abbrev pub Map {ℓ} : Type ℓ → Type ℓ
Map V = List (Bytes × V)

module _ {ℓ} {V : Type ℓ} where
  -- `m.find(k)`
  unfoldable pub find : Bytes → Map V → Option V
  unfolding cmp
  find k [] = none
  find k ((j, v) ∷ m) = elim (cmp k j) [ Ordering.eq ↦ some v | _ ↦ find k m ]

  -- `m[k] = v`
  unfoldable pub insert : Bytes → V → Map V → Map V
  unfolding cmp
  insert k v [] = (k, v) ∷ []
  insert k v ((j, w) ∷ m) = elim (cmp k j) [
    | Ordering.lt ↦ (k, v) ∷ (j, w) ∷ m
    | Ordering.eq ↦ (j, v) ∷ m
    | Ordering.gt ↦ (j, w) ∷ insert k v m
  ]

  -- The keys rise along the list.
  abbrev pub Above : Bytes → Map V → Type 0
  Above k [] = Unit
  Above k ((j, _) ∷ m) = (cmp k j ≡ Ordering.lt) × Above j m

  abbrev pub IsSorted : Map V → Type 0
  IsSorted [] = Unit
  IsSorted ((k, _) ∷ m) = Above k m

  -- A read after a write.
  pub find-insert :
      (j k : Bytes) (v : V) (m : Map V)
      → find j (insert k v m) ≡ (if str_eq j k then some v else find j m)
  unfolding find insert str_eq
  find-insert j k v [] = ground arith
  find-insert j k v ((i, w) ∷ m) =
      ground (arith, str_eq_iff j k, str_eq_iff j i, eq_of_cmp k i, find-insert j k v m)

  -- A key below the first one is not there.
  pub find-Above : (k : Bytes) (m : Map V) → Above k m → find k m ≡ none
  unfolding find
  find-Above k [] h = refl
  find-Above k ((j, v) ∷ []) (lt, h) = rw (lt, find)
  find-Above k ((j, v) ∷ (i, w) ∷ m) (lt, (lt', h)) =
      ground (arith, cmp_trans k j i lt lt', find-Above k ((i, w) ∷ m))

  Above-insert :
      (j k : Bytes) (v : V) (m : Map V) → cmp j k ≡ Ordering.lt → Above j m → Above j (insert k v m)
  unfolding insert
  Above-insert j k v [] lt h = (lt, tt)
  Above-insert j k v ((i, w) ∷ m) lt (below, h) =
      ground (arith, cmp_swap_gt k i, Above-insert i k v m, eq_of_cmp k i)

  -- Writing an entry keeps the order.
  pub insert-IsSorted : (k : Bytes) (v : V) (m : Map V) → IsSorted m → IsSorted (insert k v m)
  unfolding insert
  insert-IsSorted k v [] h = tt
  insert-IsSorted k v ((i, w) ∷ m) h =
      ground (arith, cmp_swap_gt k i, Above-insert i k v m, eq_of_cmp k i)

  -- The entries of the list are what `find` finds.
  find_rest :
      (d k : Bytes) (v : V) (m n : Map V)
      → Above k m
      → Above k n
      → ((j : Bytes) → find j ((k, v) ∷ m) ≡ find j ((k, v) ∷ n))
      → find d m ≡ find d n
  unfolding find
  find_rest d k v m n hm hn e =
      ground (arith, e d, eq_of_cmp d k, find-Above k m hm, find-Above k n hn)

  pub IsSorted-of_Above : (k : Bytes) (m : Map V) → Above k m → IsSorted m
  IsSorted-of_Above k [] h = tt
  IsSorted-of_Above k ((j, v) ∷ m) (lt, h) = h

  heads_eq :
      (k j : Bytes) (v w : V) (m n : Map V)
      → Above k m
      → Above j n
      → ((i : Bytes) → find i ((k, v) ∷ m) ≡ find i ((j, w) ∷ n))
      → (k ≡ j) × (v ≡ w)
  unfolding find
  heads_eq k j v w m n hm hn e = ground (
    arith,
    e k,
    e j,
    cmp_refl k,
    cmp_refl j,
    eq_of_cmp k j,
    cmp_swap_lt k j,
    cmp_swap_gt k j,
    find-Above k ((j, w) ∷ n),
    find-Above j ((k, v) ∷ m),
  )

  -- Two maps in order with the same entries are one list.
  pub map_ext :
      (m n : Map V) → IsSorted m → IsSorted n → ((j : Bytes) → find j m ≡ find j n) → m ≡ n
  unfolding find
  map_ext [] [] hm hn e = refl
  map_ext [] ((k, v) ∷ n) hm hn e = ground (arith, e k, cmp_refl k)
  map_ext ((k, v) ∷ m) [] hm hn e = ground (arith, e k, cmp_refl k)
  map_ext ((k, v) ∷ m) ((j, w) ∷ n) hm hn e =
      let (p, q) = heads_eq k j v w m n hm hn e in
      let hn' : Above k n = subst (λ i. Above i n) (sym p) hn in
      let e' : (i : Bytes) → find i ((k, v) ∷ m) ≡ find i ((k, v) ∷ n) =
        λ i. e i ∙ ap₂ (λ a b. find i ((a, b) ∷ n)) (sym p) (sym q) in
      let tails : m ≡ n =
        map_ext m n (IsSorted-of_Above k m hm) (IsSorted-of_Above k n hn')
          (λ d. find_rest d k v m n hm hn' e') in
      ap₂ (λ a b. (a, b) ∷ m) p q ∙ ap (λ t. (j, w) ∷ t) tails

  All-Above : (k : Bytes) (m : Map V) → Above k m → All (λ e. cmp k e.0 ≡ Ordering.lt) m
  All-Above k [] h = tt
  All-Above k ((j, v) ∷ m) (lt, h) = (lt, rest m (All-Above j m h))
    where
      rest :
          (n : Map V) → All (λ e. cmp j e.0 ≡ Ordering.lt) n → All (λ e. cmp k e.0 ≡ Ordering.lt) n
      rest [] h = tt
      rest ((i, w) ∷ n) (lt', h) = (cmp_trans k j i lt lt', rest n h)

  find_later :
      (k : Bytes) (v : V) (m n : Map V)
      → All (λ e. cmp k e.0 ≡ Ordering.lt) n
      → All (λ e. find e.0 m ≡ some e.1) n
      → All (λ e. find e.0 ((k, v) ∷ m) ≡ some e.1) n
  unfolding find
  find_later k v m [] h f = tt
  find_later k v m ((j, w) ∷ n) (lt, h) (e, f) =
      (rw (cmp_swap_lt k j lt, find) e, find_later k v m n h f)

  -- Every entry of a map in order is found under its key.
  pub All-find : (m : Map V) → IsSorted m → All (λ e. find e.0 m ≡ some e.1) m
  unfolding find
  All-find [] h = tt
  All-find ((k, v) ∷ m) h = (
    rw (cmp_refl k, find),
    find_later k v m m (All-Above k m h) (All-find m (IsSorted-of_Above k m h)),
  )

  found_entry :
      (d k : Bytes) (w : V) (m : Map V) (o : Ordering) {v : V}
      → cmp d k ≡ o
      → find d ((k, w) ∷ m) ≡ some v
      → ((k ≡ d) × (w ≡ v)) ⊎ (find d m ≡ some v)
  unfolding find
  found_entry d k w m Ordering.lt c e = inr (ground arith)
  found_entry d k w m Ordering.eq c e = inl (sym (eq_of_cmp d k c), ground arith)
  found_entry d k w m Ordering.gt c e = inr (ground arith)

  -- What holds of every entry holds of what is found.
  pub All_at {κ} :
      (P : Bytes × V → Type κ) (d : Bytes) (m : Map V) {v : V}
      → All P m
      → find d m ≡ some v
      → P (d, v)
  unfolding find
  All_at P d [] h e = cc
  All_at P d ((k, w) ∷ m) {v} (p, h) e = elim (found_entry d k w m (cmp d k) refl e) [
    | inl (s, t) ↦ subst P (λ i. (s i, t i)) p
    | inr e' ↦ All_at P d m h e'
  ]
