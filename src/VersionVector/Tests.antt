-- ===== src/VersionVector/Tests.antt =====
-- plugin/src/core/VersionVector.cpp on concrete vectors.
use notepadpp_sync.Prelude.{◌≡◌, refl, ◌↔◌, ◌≢◌, true, some, [], ◌∷◌, arith, Bytes, codes, cmp, All}
use notepadpp_sync.Prelude.Map.{IsSorted, find}
use notepadpp_sync.VersionVector.{
  VersionVector, get, dominates, equal, concurrent, greater_entries, lacks_entry,
}
use notepadpp_sync.VersionVector.Json.{to_json, from_json}
use notepadpp_sync.VersionVector.Order.{Le, SomeLt, Diverged, dominates_iff, concurrent_iff}
use notepadpp_sync.VersionVector.RoundTrip.{IsWritable, from_json-to_json}

abbrev laptop : VersionVector
laptop = (codes "desk", 1) ∷ (codes "laptop", 4) ∷ []

abbrev desk : VersionVector
desk = (codes "desk", 2) ∷ (codes "laptop", 3) ∷ []

laptop-IsSorted : IsSorted laptop
unfolding cmp
laptop-IsSorted = (refl, tt)

desk-IsSorted : IsSorted desk
unfolding cmp
desk-IsSorted = (refl, tt)

laptop-IsWritable : IsWritable laptop
laptop-IsWritable = ((plain_desk, omega arith), ((plain_laptop, omega arith), tt))
  where
    plain_desk : All (λ c. c ≢ b'"') (codes "desk")
    plain_desk =
        ((λ q. omega arith), ((λ q. omega arith), ((λ q. omega arith), ((λ q. omega arith), tt))))

    plain_laptop : All (λ c. c ≢ b'"') (codes "laptop")
    plain_laptop = (
      (λ q. omega arith),
      (
        (λ q. omega arith),
        ((λ q. omega arith), ((λ q. omega arith), ((λ q. omega arith), ((λ q. omega arith), tt)))),
      ),
    )

dominates_iff_example : (dominates laptop desk ≡ true) ↔ (Le desk laptop × SomeLt desk laptop)
dominates_iff_example = dominates_iff laptop desk laptop-IsSorted desk-IsSorted

concurrent_iff_example : (concurrent laptop desk ≡ true) ↔ Diverged laptop desk
concurrent_iff_example = concurrent_iff laptop desk laptop-IsSorted desk-IsSorted

from_json-to_json_example : from_json (to_json laptop) ≡ some laptop
from_json-to_json_example = from_json-to_json laptop laptop-IsSorted laptop-IsWritable

abbrev loose_text : Bytes
loose_text = codes " {\"c\": 5,\"b\":-3 , \"a\":12}"

abbrev sorted_text : VersionVector
sorted_text = (codes "a", 12) ∷ (codes "c", 5) ∷ []

-- Two vectors that differ by an entry of 0 are concurrent.
zero_entry_test : concurrent ((codes "a", 0) ∷ []) [] ≡ true
unfolding concurrent dominates equal greater_entries lacks_entry get find
zero_entry_test = refl
