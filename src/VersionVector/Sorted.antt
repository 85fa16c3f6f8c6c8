-- ===== src/VersionVector/Sorted.antt =====
-- plugin/src/core/VersionVector.cpp: the keys of what `fromJson` builds are in order.
use mathlib.Core.Option.{some-injective}
use notepadpp_sync.Prelude.{
  ℕ, zero, suc, ◌≡◌, Option, none, some, [], ◌∷◌, arith, ◌==◌, length, Bytes, Bool-cases, inl, inr,
  subst,
}
use notepadpp_sync.Prelude.Map.{Map, IsSorted, insert-IsSorted}
use notepadpp_sync.VersionVector.Json.{
  skip_ws, Entry, stop, overflow, entry, read_entry, put, read_entries, read_object, from_json,
}

put-IsSorted : (key : Bytes) (val : Option ℕ) (vv : Map ℕ) → IsSorted vv → IsSorted (put key val vv)
unfolding put
put-IsSorted key none vv h = h
put-IsSorted key (some v) vv h = insert-IsSorted key v vv h

read_entries-IsSorted :
    (fuel : ℕ) (s : Bytes) (vv r : Map ℕ)
    → IsSorted vv
    → read_entries fuel s vv ≡ some r
    → IsSorted r
unfolding read_entries
read_entries-IsSorted zero s vv r h e = subst IsSorted (some-injective vv r e) h
read_entries-IsSorted (suc f) s vv r h e =
    after (λ rest vv' h' e'. read_entries-IsSorted f rest vv' r h' e') (read_entry (skip_ws s)) e
  where
    after :
        ((rest : Bytes) (vv' : Map ℕ)
          → IsSorted vv'
          → read_entries f rest vv' ≡ some r
          → IsSorted r)
        → (n : Entry)
        → (elim n [
          | stop ↦ some vv
          | overflow ↦ none
          | entry key val rest ↦ read_entries f rest (put key val vv)
        ])
          ≡ some r
        → IsSorted r
    after ih stop e' = subst IsSorted (some-injective vv r e') h
    after ih overflow e' = cc
    after ih (entry key val rest) e' = ih rest (put key val vv) (put-IsSorted key val vv h) e'

-- Whatever the text, a map that `fromJson` builds has its keys in order.
pub from_json-IsSorted : (json : Bytes) (r : Map ℕ) → from_json json ≡ some r → IsSorted r
unfolding from_json
from_json-IsSorted json r h = object (skip_ws json) h
  where
    object : (s : Bytes) → read_object s ≡ some r → IsSorted r
    object [] e = subst IsSorted (some-injective [] r e) tt
    object (c ∷ s) e = elim (Bool-cases (c == b'{')) [
      | inl open_brace ↦ read_entries-IsSorted (length s) s [] r tt (ground arith)
      | inr other ↦ subst IsSorted (some-injective [] r (ground arith)) tt
    ]
