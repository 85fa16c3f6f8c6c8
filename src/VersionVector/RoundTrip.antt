-- ===== src/VersionVector/RoundTrip.antt =====
-- plugin/src/core/VersionVector.cpp: what `toJson` writes, `fromJson` reads back.
use notepadpp_sync.Prelude.{
  ℕ, zero, suc, ◌+◌, ◌/◌, ◌%◌, ◌≤◌, ◌<◌, ◌≡◌, refl, sym, ◌∙◌, ap, ◌≢◌, Bool, true, false, some, [],
  ◌∷◌, ◌++◌, append-nil, append_assoc, arith, ◌==◌, length, length-append, All, Bytes, Bool-cases,
  inl, inr, cmp, cmp_trans, cmp_swap_lt, Ordering, subst,
}
use notepadpp_sync.Prelude.Map.{Map, insert, IsSorted, Above, IsSorted-of_Above}
use notepadpp_sync.VersionVector.Json.{
  val_max, digits, to_string, write_entry, write_rest, write_entries, to_json, is_space, is_digit,
  skip_ws, read_key, skip_char, starts_minus, read_digits, stop, entry, read_value, read_entry, put,
  read_entries, read_object, from_json,
}

-- A text that no digit begins.
abbrev pub NoDigit : Bytes → Type 0
NoDigit [] = Unit
NoDigit (c ∷ s) = is_digit c ≡ false

scan_stop :
    (s : Bytes) (n : ℕ) (seen : Bool)
    → NoDigit s
    → read_digits s n seen ≡ some (record { value = n; seen = seen; after = s })
unfolding read_digits
scan_stop [] n seen h = refl
scan_stop (c ∷ s) n seen h = unfold is_digit in ground arith

scan_last :
    (n : ℕ) (s : Bytes) (seen : Bool)
    → n ≤ val_max
    → read_digits ((b'0' + n % 10) ∷ s) (n / 10) seen ≡ read_digits s n true
unfolding read_digits
scan_last n s seen h = ground arith

digits_zero : (fuel n : ℕ) (out : Bytes) → n ≡ 0 → digits fuel n out ≡ out
unfolding digits
digits_zero zero n out h = refl
digits_zero (suc f) n out h = ground arith

digits-append : (fuel n : ℕ) (out s : Bytes) → digits fuel n out ++ s ≡ digits fuel n (out ++ s)
unfolding digits
digits-append zero n out s = refl
digits-append (suc f) n out s = ground (arith, digits-append f (n / 10) ((b'0' + n % 10) ∷ out) s)

scan-digits :
    (fuel n : ℕ) (out : Bytes)
    → n ≤ fuel
    → n ≤ val_max
    → 0 < n
    → read_digits (digits fuel n out) 0 false ≡ read_digits out n true
unfolding digits
scan-digits zero n out h fits pos = absurd (omega arith)
scan-digits (suc f) n out h fits pos = elim (Bool-cases (n / 10 == 0)) [
  | inl small ↦
      rw (digits_zero f (n / 10) ((b'0' + n % 10) ∷ out) (ground arith))
        (ground (arith, scan_last n out false fits))
  | inr large ↦ ground (
    arith,
    scan-digits f (n / 10) ((b'0' + n % 10) ∷ out) (ground arith) (ground arith) (ground arith),
    scan_last n out true fits,
  )
]

pub read-to_string :
    (n : ℕ) (s : Bytes)
    → n ≤ val_max
    → NoDigit s
    → read_digits (to_string n ++ s) 0 false ≡ some (record { value = n; seen = true; after = s })
unfolding to_string
read-to_string n s fits h =
    ground
      (arith, scan_last 0 s false, scan_stop s n true h, digits-append n n [] s, scan-digits n n s)

-- A number begins with a digit.
abbrev pub HeadDigit : Bytes → Type 0
HeadDigit [] = ⊥
HeadDigit (c ∷ s) = is_digit c ≡ true

digits-HeadDigit : (fuel n : ℕ) (out : Bytes) → HeadDigit out → HeadDigit (digits fuel n out)
unfolding digits
digits-HeadDigit zero n out h = h
digits-HeadDigit (suc f) n out h = elim (Bool-cases (n == 0)) [
  | inl z ↦ rw z h
  | inr nz ↦
      rw nz (digits-HeadDigit f (n / 10) ((b'0' + n % 10) ∷ out) (unfold is_digit in ground arith))
]

digits_pos-HeadDigit : (fuel n : ℕ) (out : Bytes) → 0 < n → n ≤ fuel → HeadDigit (digits fuel n out)
unfolding digits
digits_pos-HeadDigit zero n out pos h = absurd (omega arith)
digits_pos-HeadDigit (suc f) n out pos h =
    let nz : (n == 0) ≡ false = ground arith in
    rw nz (digits-HeadDigit f (n / 10) ((b'0' + n % 10) ∷ out) (unfold is_digit in ground arith))

pub to_string-HeadDigit : (n : ℕ) → HeadDigit (to_string n)
unfolding to_string
to_string-HeadDigit n = elim (Bool-cases (n == 0)) [
  | inl z ↦ rw (to_string, z) (unfold is_digit in refl)
  | inr nz ↦ rw (to_string, nz) (digits_pos-HeadDigit n n [] (ground arith) (omega arith))
]

pub HeadDigit-append : (s t : Bytes) → HeadDigit s → HeadDigit (s ++ t)
HeadDigit-append [] t h = elim h [ ]
HeadDigit-append (c ∷ s) t h = h

-- The parser looks past white space and a sign to no effect.
skip_head :
    (s : Bytes) → HeadDigit s → (skip_ws s ≡ s) × (starts_minus s ≡ false) × (skip_char b'-' s ≡ s)
unfolding skip_ws is_space is_digit starts_minus skip_char
skip_head [] h = elim h [ ]
skip_head (c ∷ s) h = ground arith

read_key-append : (key s : Bytes) → All (λ c. c ≢ b'"') key → read_key (key ++ b'"' ∷ s) ≡ (key, s)
unfolding read_key
read_key-append [] s h = refl
read_key-append (c ∷ key) s (ne, h) = ground (arith, read_key-append key s h)

read_value-to_string :
    (key : Bytes) (n : ℕ) (s : Bytes)
    → n ≤ val_max
    → NoDigit s
    → read_value key (skip_ws (to_string n ++ s)) ≡ entry key (some n) (skip_char b',' (skip_ws s))
unfolding read_value
read_value-to_string key n s fits h =
    let (a, b, c) =
      skip_head (to_string n ++ s) (HeadDigit-append (to_string n) s (to_string-HeadDigit n)) in
    rw (a, read_value) (ground (arith, b, c, read-to_string n s fits h))

-- `write_entry` is read back, before what no digit begins.
read-write_entry :
    (key : Bytes) (n : ℕ) (s : Bytes)
    → All (λ c. c ≢ b'"') key
    → n ≤ val_max
    → NoDigit s
    → read_entry (skip_ws (write_entry key n ++ s))
      ≡ entry key (some n) (skip_char b',' (skip_ws s))
unfolding write_entry read_entry
read-write_entry key n s h fits nd =
    rw (append_assoc, read_key-append key (b':' ∷ (to_string n ++ s)) h)
      (read_value-to_string key n s fits nd)

-- What a vector must be for its text to be read back: keys without a quote, counters that fit.
abbrev pub IsWritable : Map ℕ → Type 0
IsWritable = All (λ e. All (λ c. c ≢ b'"') e.0 × (e.1 ≤ val_max))

-- What stands behind an entry: a comma and the next entries, or the end.
rest_of :
    (m : Map ℕ)
    → skip_char b',' (skip_ws (write_rest m ++ b'}' ∷ [])) ≡ write_entries m ++ b'}' ∷ []
unfolding write_rest write_entries skip_char skip_ws is_space
rest_of [] = refl
rest_of ((k, v) ∷ m) = refl

rest-NoDigit : (m : Map ℕ) → NoDigit (write_rest m ++ b'}' ∷ [])
unfolding write_rest is_digit
rest-NoDigit [] = refl
rest-NoDigit ((k, v) ∷ m) = refl

end_stops : read_entry (skip_ws (b'}' ∷ [])) ≡ stop
unfolding read_entry skip_ws is_space
end_stops = refl

Above-append :
    (j k : Bytes) (v : ℕ) (m n : Map ℕ) → Above j (m ++ (k, v) ∷ n) → cmp j k ≡ Ordering.lt
Above-append j k v [] n (lt, h) = lt
Above-append j k v ((i, w) ∷ m) n (lt, h) = cmp_trans j i k lt (Above-append i k v m n h)

insert_last :
    (k : Bytes) (v : ℕ) (m n : Map ℕ) → IsSorted (m ++ (k, v) ∷ n) → insert k v m ≡ m ++ (k, v) ∷ []
unfolding insert
insert_last k v [] n h = refl
insert_last k v ((j, w) ∷ m) n h =
    rw (insert, cmp_swap_lt j k (Above-append j k v m n h))
      (ap (λ t. (j, w) ∷ t) (insert_last k v m n (IsSorted-of_Above j (m ++ (k, v) ∷ n) h)))

read-write_entries :
    (fuel : ℕ) (m done : Map ℕ)
    → length m ≤ fuel
    → IsWritable m
    → IsSorted (done ++ m)
    → read_entries fuel (write_entries m ++ b'}' ∷ []) done ≡ some (done ++ m)
unfolding read_entries write_entries put
read-write_entries zero [] done h ok sorted = rw append-nil
read-write_entries (suc f) [] done h ok sorted = ground (arith, end_stops, append-nil done)
read-write_entries zero ((k, v) ∷ m) done h ok sorted = absurd (omega arith)
read-write_entries (suc f) ((k, v) ∷ m) done h (here, ok) sorted =
    rw
      (
        append_assoc,
        read-write_entry k v (write_rest m ++ b'}' ∷ []) here.0 here.1 (rest-NoDigit m),
        read_entries,
        rest_of m,
        insert_last k v done m sorted,
      )
      (read-write_entries f m (done ++ (k, v) ∷ []) (omega arith) ok
          (subst IsSorted (sym (append_assoc done ((k, v) ∷ []) m)) sorted)
        ∙ ap some (append_assoc done ((k, v) ∷ []) m))

length-rest : (m : Map ℕ) → length m ≤ length (write_rest m)
unfolding write_rest
length-rest [] = omega arith
length-rest ((k, v) ∷ m) =
    omega (arith, length-append (write_entry k v) (write_rest m), length-rest m)

length-le : (m : Map ℕ) → length m ≤ length (write_entries m ++ b'}' ∷ [])
unfolding write_entries
length-le [] = omega arith
length-le ((k, v) ∷ m) = omega (
  arith,
  length-append (write_entry k v ++ write_rest m) (b'}' ∷ []),
  length-append (write_entry k v) (write_rest m),
  length-rest m,
)

read_object-entries :
    (m : Map ℕ) (s : Bytes)
    → length m ≤ length s
    → s ≡ write_entries m ++ b'}' ∷ []
    → IsSorted m
    → IsWritable m
    → read_object (b'{' ∷ s) ≡ some m
unfolding read_object
read_object-entries m s h e sorted ok =
    ap (λ t. read_entries (length s) t []) e ∙ read-write_entries (length s) m [] h ok sorted

-- Of a vector whose keys are in order and hold no quote, and whose counters fit `int64_t`, `fromJson` reads
-- back what `toJson` writes.
pub from_json-to_json :
    (vv : Map ℕ) → IsSorted vv → IsWritable vv → from_json (to_json vv) ≡ some vv
unfolding from_json to_json is_space
from_json-to_json vv sorted ok = read_object-entries vv _ (length-le vv) refl sorted ok
