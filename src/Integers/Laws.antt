-- ===== src/Integers/Laws.antt =====
-- What `std::to_string` writes, `std::stoi` and `std::stoll` read back.
use notepadpp_sync.Prelude.{
  ℕ, ◌+◌, ◌-◌, ◌*◌, ◌≤◌, ◌≡◌, ap, Bool, true, false, Option, none, some, [], ◌∷◌, ◌++◌, arith,
  if◌then◌else◌, Bytes,
}
use notepadpp_sync.VersionVector.Json.{
  val_max, to_string, is_digit, is_space, skip_ws, skip_char, starts_minus, read_digits, Number,
}
use notepadpp_sync.VersionVector.RoundTrip.{
  NoDigit, HeadDigit, HeadDigit-append, to_string-HeadDigit, read-to_string,
}
use notepadpp_sync.Integers.{pos, leading_number, signed, int_of}

leading_number-read_digits :
    (s : Bytes) (val : ℕ) (seen : Bool) (n : Number)
    → read_digits s val seen ≡ some n
    → leading_number s val seen ≡ (if n.seen then some n.value else none)
unfolding read_digits leading_number
leading_number-read_digits [] val seen n e =
    ap
      (λ (o : Option Number). elim o [
        | none ↦ none
        | some m ↦ if m.seen then some m.value else none
      ])
      e
leading_number-read_digits (c ∷ s) val seen n e =
    ground (arith, leading_number-read_digits s (val * 10 + (c - b'0')) true n)

skip_signs :
    (s : Bytes) → HeadDigit s → (skip_ws s ≡ s) × (starts_minus s ≡ false) × (skip_char b'+' s ≡ s)
unfolding skip_ws is_space is_digit starts_minus skip_char
skip_signs [] h = elim h [ ]
skip_signs (c ∷ s) h = ground arith

pub int_of-to_string :
    (largest n : ℕ) (rest : Bytes)
    → n ≤ largest
    → n ≤ val_max
    → NoDigit rest
    → int_of largest (to_string n ++ rest) ≡ some (pos n)
unfolding int_of signed
int_of-to_string largest n rest h fits nd =
    let (a, b, c) =
      skip_signs (to_string n ++ rest)
        (HeadDigit-append (to_string n) rest (to_string-HeadDigit n)) in
    let d : leading_number (to_string n ++ rest) 0 false ≡ some n =
      leading_number-read_digits (to_string n ++ rest) 0 false _ (read-to_string n rest fits nd) in
    rw (int_of, a, b, c, d) (ground arith)
