-- ===== src/VersionVector/Canonical.antt =====
-- plugin/src/core/VersionVector.cpp: what `fromJson` builds can be written and is read back.
use mathlib.Core.Option.{some-injective}
use notepadpp_sync.Prelude.{
  ◌≡◌, ◌≢◌, refl, subst, ℕ, zero, suc, ◌+◌, ◌-◌, ◌*◌, ◌≤◌, Bool, true, false, ◌&&◌, not, Bool-cases,
  Option, none, some, [], ◌∷◌, arith, if◌then◌else◌, ltb, ◌==◌, length, Bytes, All, cmp, Ordering,
  inl, inr,
}
use notepadpp_sync.Prelude.Map.{Map, insert}
use notepadpp_sync.VersionVector.Json.{
  val_max, to_json, is_digit, skip_ws, read_key, skip_char, starts_minus, read_digits, Number,
  Entry, stop, overflow, entry, read_value, read_entry, put, read_entries, read_object, from_json,
}
use notepadpp_sync.VersionVector.Sorted.{from_json-IsSorted}
use notepadpp_sync.VersionVector.RoundTrip.{IsWritable, from_json-to_json}

read_key_lem : (s : Bytes) → All (λ c. c ≢ b'"') (read_key s).0
unfolding read_key
read_key_lem [] = tt
read_key_lem (c ∷ s) = elim (Bool-cases (c == b'"')) [
  | inl e ↦ rw e tt
  | inr e ↦ rw e (ground arith, read_key_lem s)
]

read_digits_bound :
    (s : Bytes) (val : ℕ) (seen : Bool) (n : Number)
    → val ≤ val_max
    → read_digits s val seen ≡ some n
    → n.value ≤ val_max
unfolding read_digits
read_digits_bound [] val seen n h e =
    subst (λ (m : Number). m.value ≤ val_max) (some-injective _ _ e) h
read_digits_bound (c ∷ s) val seen n h e = elim (Bool-cases (is_digit c)) [
  | inl d ↦ elim (Bool-cases (ltb val_max (val * 10 + (c - b'0')))) [
    | inl over ↦ absurd (ground arith)
    | inr fits ↦ read_digits_bound s (val * 10 + (c - b'0')) true n (grind arith) (ground arith)
  ]
  | inr d ↦
      subst (λ (m : Number). m.value ≤ val_max)
        (some-injective (record { value = val; seen = seen; after = c ∷ s }) n (ground arith)) h
]

abbrev Readable : Entry → Type 0
Readable stop = Unit
Readable overflow = Unit
Readable (entry key none rest) = Unit
Readable (entry key (some v) rest) = All (λ c. c ≢ b'"') key × (v ≤ val_max)

read_value-Readable : (key s : Bytes) → All (λ c. c ≢ b'"') key → Readable (read_value key s)
unfolding read_value
read_value-Readable key s h = of_number (read_digits (skip_char b'-' s) 0 false) refl
  where
    of_number :
        (o : Option Number)
        → read_digits (skip_char b'-' s) 0 false ≡ o
        → Readable (elim o [
          | none ↦ overflow
          | some n ↦
              entry key
                (if n.seen && not (starts_minus s) then some n.value else none)
                (skip_char b',' (skip_ws n.after))
        ])
    of_number none e = tt
    of_number (some n) e = elim (Bool-cases (n.seen && not (starts_minus s))) [
      | inl t ↦ rw t (h, read_digits_bound (skip_char b'-' s) 0 false n (omega arith) e)
      | inr t ↦ rw t tt
    ]

read_entry-Readable : (s : Bytes) → Readable (read_entry s)
unfolding read_entry
read_entry-Readable [] = tt
read_entry-Readable (c ∷ s) = elim (Bool-cases (c == b'"')) [
  | inl e ↦ rw e (
      read_value-Readable (read_key s).0 (skip_ws (skip_char b':' (skip_ws (read_key s).1)))
        (read_key_lem s))
  | inr e ↦ rw e tt
]

insert-IsWritable :
    (k : Bytes) (v : ℕ) (vv : Map ℕ)
    → All (λ c. c ≢ b'"') k
    → v ≤ val_max
    → IsWritable vv
    → IsWritable (insert k v vv)
unfolding insert
insert-IsWritable k v [] hk hv h = ((hk, hv), tt)
insert-IsWritable k v ((j, w) ∷ vv) hk hv (here, h) =
    by_order (insert-IsWritable k v vv hk hv h) (cmp k j)
  where
    by_order :
        IsWritable (insert k v vv)
        → (o : Ordering)
        → IsWritable (elim o [
          | Ordering.lt ↦ (k, v) ∷ (j, w) ∷ vv
          | Ordering.eq ↦ (j, v) ∷ vv
          | Ordering.gt ↦ (j, w) ∷ insert k v vv
        ])
    by_order i Ordering.lt = ((hk, hv), (here, h))
    by_order i Ordering.eq = ((here.0, hv), h)
    by_order i Ordering.gt = (here, i)

put-IsWritable :
    (key : Bytes) (val : Option ℕ) (rest : Bytes) (vv : Map ℕ)
    → Readable (entry key val rest)
    → IsWritable vv
    → IsWritable (put key val vv)
unfolding put
put-IsWritable key none rest vv g h = h
put-IsWritable key (some v) rest vv (hk, hv) h = insert-IsWritable key v vv hk hv h

read_entries-IsWritable :
    (fuel : ℕ) (s : Bytes) (vv r : Map ℕ)
    → IsWritable vv
    → read_entries fuel s vv ≡ some r
    → IsWritable r
unfolding read_entries
read_entries-IsWritable zero s vv r h e = subst IsWritable (some-injective vv r e) h
read_entries-IsWritable (suc f) s vv r h e =
    after (λ rest vv' h' e'. read_entries-IsWritable f rest vv' r h' e') (read_entry (skip_ws s))
      (read_entry-Readable (skip_ws s)) e
  where
    after :
        ((rest : Bytes) (vv' : Map ℕ)
          → IsWritable vv'
          → read_entries f rest vv' ≡ some r
          → IsWritable r)
        → (n : Entry) → Readable n
        → (elim n [
          | stop ↦ some vv
          | overflow ↦ none
          | entry key val rest ↦ read_entries f rest (put key val vv)
        ])
          ≡ some r
        → IsWritable r
    after ih stop g e' = subst IsWritable (some-injective vv r e') h
    after ih overflow g e' = cc
    after ih (entry key val rest) g e' =
        ih rest (put key val vv) (put-IsWritable key val rest vv g h) e'

pub from_json-IsWritable : (json : Bytes) (r : Map ℕ) → from_json json ≡ some r → IsWritable r
unfolding from_json
from_json-IsWritable json r h = object (skip_ws json) h
  where
    object : (s : Bytes) → read_object s ≡ some r → IsWritable r
    object [] e = subst IsWritable (some-injective [] r e) tt
    object (c ∷ s) e = elim (Bool-cases (c == b'{')) [
      | inl open_brace ↦ read_entries-IsWritable (length s) s [] r tt (ground arith)
      | inr other ↦ subst IsWritable (some-injective [] r (ground arith)) tt
    ]

-- Whatever the text, the map that `fromJson` builds from it is written by `toJson` as a text that `fromJson`
-- reads as the same map.
pub from_json_canonical :
    (json : Bytes) (vv : Map ℕ) → from_json json ≡ some vv → from_json (to_json vv) ≡ some vv
from_json_canonical json vv e =
    from_json-to_json vv (from_json-IsSorted json vv e) (from_json-IsWritable json vv e)
