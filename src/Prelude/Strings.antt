-- ===== src/Prelude/Strings.antt =====
-- `std::string` as its bytes, with the order of `std::string::compare`.
use Prim.Native.Nat.{ℕ, ◌+◌, compare, Ordering}
use Prim.Native.Char.{code}
use Prim.Native.String.{String}
use mathlib.Core.Path.{◌≡◌, refl, ap, ◌∙◌}
use mathlib.Core.Logic.{◌↔◌}
use mathlib.Core.Bool.{Bool, true, false, ◌&&◌, ◌||◌}
use mathlib.Core.List.{List, [], ◌∷◌, map}
use native.Mathlib.Omega.{arith}
use notepadpp_sync.Prelude.Tests.{if◌then◌else◌, ◌==◌, leb}

abbrev pub Bytes : Type 0
Bytes = List ℕ

-- The code points of a literal: its bytes, if it is ASCII.
abbrev pub codes : String → Bytes
codes String.[] = []
codes (String.◌∷◌ c s) = code c ∷ codes s

-- Lexicographic, by unsigned bytes.
unfoldable pub cmp : Bytes → Bytes → Ordering
cmp [] [] = Ordering.eq
cmp [] (y ∷ ys) = Ordering.lt
cmp (x ∷ xs) [] = Ordering.gt
cmp (x ∷ xs) (y ∷ ys) = elim (compare x y) [
  | Ordering.lt ↦ Ordering.lt
  | Ordering.eq ↦ cmp xs ys
  | Ordering.gt ↦ Ordering.gt
]

pub cmp_refl : (a : Bytes) → cmp a a ≡ Ordering.eq
unfolding cmp
cmp_refl [] = refl
cmp_refl (x ∷ xs) = ground (arith, cmp_refl xs)

pub eq_of_cmp : (a b : Bytes) → cmp a b ≡ Ordering.eq → a ≡ b
unfolding cmp
eq_of_cmp [] [] h = refl
eq_of_cmp [] (y ∷ ys) h = cc
eq_of_cmp (x ∷ xs) [] h = cc
eq_of_cmp (x ∷ xs) (y ∷ ys) h = ground (arith, eq_of_cmp xs ys)

pub cmp_swap_lt : (a b : Bytes) → cmp a b ≡ Ordering.lt → cmp b a ≡ Ordering.gt
unfolding cmp
cmp_swap_lt [] [] h = cc
cmp_swap_lt [] (y ∷ ys) h = refl
cmp_swap_lt (x ∷ xs) [] h = cc
cmp_swap_lt (x ∷ xs) (y ∷ ys) h = ground (arith, cmp_swap_lt xs ys)

pub cmp_swap_gt : (a b : Bytes) → cmp a b ≡ Ordering.gt → cmp b a ≡ Ordering.lt
unfolding cmp
cmp_swap_gt [] [] h = cc
cmp_swap_gt [] (y ∷ ys) h = cc
cmp_swap_gt (x ∷ xs) [] h = refl
cmp_swap_gt (x ∷ xs) (y ∷ ys) h = ground (arith, cmp_swap_gt xs ys)

pub cmp_trans :
    (a b c : Bytes) → cmp a b ≡ Ordering.lt → cmp b c ≡ Ordering.lt → cmp a c ≡ Ordering.lt
unfolding cmp
cmp_trans [] [] c h k = cc
cmp_trans [] (y ∷ ys) [] h k = cc
cmp_trans [] (y ∷ ys) (z ∷ zs) h k = refl
cmp_trans (x ∷ xs) [] c h k = cc
cmp_trans (x ∷ xs) (y ∷ ys) [] h k = cc
cmp_trans (x ∷ xs) (y ∷ ys) (z ∷ zs) h k = ground (arith, cmp_trans xs ys zs)

-- `a == b` on strings.
unfoldable pub str_eq : Bytes → Bytes → Bool
unfolding cmp
str_eq a b = elim (cmp a b) [ Ordering.eq ↦ true | _ ↦ false ]

pub str_eq_refl : (a : Bytes) → str_eq a a ≡ true
unfolding str_eq
str_eq_refl a = rw (str_eq, cmp_refl a)

pub str_eq_iff : (a b : Bytes) → (str_eq a b ≡ true) ↔ (a ≡ b)
unfolding str_eq
str_eq_iff a b = (λ h. eq_of_cmp a b (ground arith), λ e. ap (λ c. str_eq c b) e ∙ str_eq_refl b)

-- `std::getline` until the end of the stream: a separator at the very end opens no last line.
unfoldable pub attach : ℕ → List Bytes → List Bytes
attach c [] = (c ∷ []) ∷ []
attach c (l ∷ ls) = (c ∷ l) ∷ ls

unfoldable pub getlines : ℕ → Bytes → List Bytes
unfolding attach
getlines sep [] = []
getlines sep (c ∷ s) = let rest = getlines sep s in if c == sep then [] ∷ rest else attach c rest

-- `while (!s.empty() && p(s.back())) s.pop_back();`
unfoldable pub drop_back : (ℕ → Bool) → Bytes → Bytes
drop_back p [] = []
drop_back p (c ∷ s) = elim (drop_back p s) [ [] ↦ if p c then [] else c ∷ [] | d ∷ t ↦ c ∷ d ∷ t ]

-- `s.find(c) != npos`
unfoldable pub contains : ℕ → Bytes → Bool
contains c [] = false
contains c (d ∷ s) = d == c || contains c s

-- `std::replace`
unfoldable pub replace : ℕ → ℕ → Bytes → Bytes
replace a b = map (λ c. if c == a then b else c)

-- `std::tolower` of the C locale.
unfoldable pub to_lower : ℕ → ℕ
to_lower c = if leb b'A' c && leb c b'Z' then c + 32 else c

unfoldable pub lower : Bytes → Bytes
unfolding to_lower
lower = map to_lower

-- The text behind the last separator: the whole of it where there is none.
unfoldable pub after_last : ℕ → Bytes → Bytes
unfolding contains
after_last sep [] = []
after_last sep (c ∷ s) =
    let rest = after_last sep s in if contains sep s then rest else if c == sep then s else c ∷ s
