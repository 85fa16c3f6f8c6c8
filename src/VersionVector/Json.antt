-- ===== src/VersionVector/Json.antt =====
-- plugin/src/core/VersionVector.cpp: `toJson` and the tolerant parser `fromJson`. The index into the
-- text is the text that is left. `std::ostream` writes a number in decimal.
use notepadpp_sync.Prelude.{
  ℕ, zero, suc, ◌+◌, ◌-◌, ◌*◌, ◌/◌, ◌%◌, Bool, true, false, ◌&&◌, ◌||◌, not, Option, none, some, [],
  ◌∷◌, ◌++◌, ltb, leb, ◌==◌, if◌then◌else◌, length, Bytes,
}
use notepadpp_sync.Prelude.Map.{Map, insert}

-- The largest `int64_t`.
abbrev pub val_max : ℕ
val_max = 9223372036854775807

-- `while (n > 0)`, the last digit first; `n` rounds are enough.
unfoldable pub digits : ℕ → ℕ → Bytes → Bytes
digits zero n out = out
digits (suc fuel) n out =
    let more = digits fuel (n / 10) ((b'0' + n % 10) ∷ out) in if n == 0 then out else more

-- `ss << v`
unfoldable pub to_string : ℕ → Bytes
unfolding digits
to_string n = if n == 0 then b'0' ∷ [] else digits n n []

-- One round of the loop of `toJson`.
unfoldable pub write_entry : Bytes → ℕ → Bytes
unfolding to_string
write_entry device v = b'"' ∷ (device ++ b'"' ∷ b':' ∷ to_string v)

unfoldable pub write_rest : Map ℕ → Bytes
write_rest [] = []
write_rest ((device, v) ∷ rest) = b',' ∷ (write_entry device v ++ write_rest rest)

unfoldable pub write_entries : Map ℕ → Bytes
write_entries [] = []
write_entries ((device, v) ∷ rest) = write_entry device v ++ write_rest rest

-- `toJson`
unfoldable pub to_json : Map ℕ → Bytes
unfolding write_entries write_rest write_entry
to_json vv = b'{' ∷ (write_entries vv ++ b'}' ∷ [])

-- `isspace` and `isdigit` of the C locale.
unfoldable pub is_space : ℕ → Bool
is_space c = c == 32 || (leb 9 c && leb c 13)

unfoldable pub is_digit : ℕ → Bool
is_digit c = leb b'0' c && leb c b'9'

unfoldable pub skip_ws : Bytes → Bytes
unfolding is_space
skip_ws [] = []
skip_ws (c ∷ s) = let rest = skip_ws s in if is_space c then rest else c ∷ s

-- The bytes up to the next quote, and what follows that quote.
unfoldable pub read_key : Bytes → Bytes × Bytes
read_key [] = ([], [])
read_key (c ∷ s) = let (key, rest) = read_key s in if c == b'"' then ([], s) else (c ∷ key, rest)

-- `if (i < json.size() && json[i] == c) ++i`
unfoldable pub skip_char : ℕ → Bytes → Bytes
skip_char c [] = []
skip_char c (d ∷ s) = if d == c then s else d ∷ s

unfoldable pub starts_minus : Bytes → Bool
starts_minus [] = false
starts_minus (c ∷ s) = c == b'-'

pub record Number : Type 0 where
  pub value : ℕ
  pub seen : Bool
  pub after : Bytes

-- The digit loop. `none` where `val` would overflow.
unfoldable pub read_digits : Bytes → ℕ → Bool → Option Number
unfolding is_digit
read_digits [] val seen = some (record { value = val; seen = seen; after = [] })
read_digits (c ∷ s) val seen =
    let next = read_digits s (val * 10 + (c - b'0')) true in
    if is_digit c
    then if ltb val_max (val * 10 + (c - b'0')) then none else next
    else some (record { value = val; seen = seen; after = c ∷ s })

-- What one round of the loop of `fromJson` meets.
pub data Entry : Type 0 where
  stop overflow : Entry
  entry : Bytes → Option ℕ → Bytes → Entry

-- From the number on. A value with a minus sign, or with no digit, is dropped.
unfoldable pub read_value : Bytes → Bytes → Entry
unfolding starts_minus skip_char read_digits skip_ws
read_value key s = elim (read_digits (skip_char b'-' s) 0 false) [
  | none ↦ overflow
  | some n ↦
      entry key (if n.seen && not (starts_minus s) then some n.value else none)
        (skip_char b',' (skip_ws n.after))
]

-- From the opening quote on.
unfoldable pub read_entry : Bytes → Entry
unfolding read_key read_value skip_ws skip_char
read_entry [] = stop
read_entry (c ∷ s) =
    let (key, rest) = read_key s in
    if c == b'"' then read_value key (skip_ws (skip_char b':' (skip_ws rest))) else stop

unfoldable pub put : Bytes → Option ℕ → Map ℕ → Map ℕ
unfolding insert
put key none vv = vv
put key (some v) vv = insert key v vv

-- The loop of `fromJson`. Each round reads a byte at least, so the length of the text is enough.
unfoldable pub read_entries : ℕ → Bytes → Map ℕ → Option (Map ℕ)
read_entries zero s vv = some vv
read_entries (suc fuel) s vv = elim (read_entry (skip_ws s)) [
  | stop ↦ some vv
  | overflow ↦ none
  | entry key val rest ↦ read_entries fuel rest (put key val vv)
]

unfoldable pub read_object : Bytes → Option (Map ℕ)
read_object [] = some []
read_object (c ∷ s) = let vv = read_entries (length s) s [] in if c == b'{' then vv else some []

-- `fromJson`
unfoldable pub from_json : Bytes → Option (Map ℕ)
unfolding read_object read_entries read_entry put skip_ws
from_json json = read_object (skip_ws json)
