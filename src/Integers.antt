-- ===== src/Integers.antt =====
-- The integers of C++ and how its library reads them, by what `std::stoi`, `std::stoll` and `atoi` are
-- documented to do: white space, a sign, the digits; `none` where they throw.
pub mod Laws
use notepadpp_sync.Prelude.{
  ℕ, zero, suc, ◌+◌, ◌-◌, ◌*◌, ◌%◌, Bool, true, false, Option, none, some, [], ◌∷◌, leb, ◌==◌,
  if◌then◌else◌, Bytes,
}
use notepadpp_sync.VersionVector.Json.{is_digit, skip_ws, skip_char, starts_minus}

pub data ℤ : Type 0 where
  pos negsuc : ℕ → ℤ

-- The largest `int`.
abbrev pub int_max : ℕ
int_max = 2147483647

unfoldable pub negate : ℕ → ℤ
negate zero = pos 0
negate (suc n) = negsuc n

-- The value of the digits that a text begins with; `none` where there is none.
unfoldable pub leading_number : Bytes → ℕ → Bool → Option ℕ
unfolding is_digit
leading_number [] val seen = if seen then some val else none
leading_number (c ∷ s) val seen =
    let next = leading_number s (val * 10 + (c - b'0')) true in
    if is_digit c then next else if seen then some val else none

-- The number with its sign, where it is at most the largest one.
unfoldable pub signed : ℕ → Bool → ℕ → Option ℤ
signed largest true n = if leb n (largest + 1) then some (negate n) else none
signed largest false n = if leb n largest then some (pos n) else none

-- `std::stoi` and `std::stoll`, for the largest number of the type.
unfoldable pub int_of : ℕ → Bytes → Option ℤ
unfolding skip_ws skip_char starts_minus leading_number signed
int_of largest s =
    let text = skip_ws s in
    elim (leading_number (if starts_minus text then skip_char b'-' text else skip_char b'+' text) 0
      false) [ none ↦ none | some n ↦ signed largest (starts_minus text) n ]

-- `atoi`, whose overflow is undefined: `none`.
unfoldable pub atoi : Bytes → Option ℤ
unfolding skip_ws skip_char starts_minus leading_number signed
atoi s =
    let text = skip_ws s in
    elim (leading_number (if starts_minus text then skip_char b'-' text else skip_char b'+' text) 0
      false) [ none ↦ some (pos 0) | some n ↦ signed int_max (starts_minus text) n ]

-- `static_cast` to 16 bits without a sign.
unfoldable pub to_word : ℤ → ℕ
to_word (pos n) = n % 65536
to_word (negsuc n) = 65535 - n % 65536
