-- ===== src/VersionVector.antt =====
-- plugin/src/core/VersionVector.h and VersionVector.cpp: the counters of a file by device.
-- `std::map` is a list in the order of its keys. A counter is an `int64_t` that is never negative;
-- where the code would pass `int64_max`, which C++ leaves undefined, the result is `none`.
pub mod Json
pub mod Order
pub mod RoundTrip
pub mod Sorted
pub mod Canonical
mod Tests
use notepadpp_sync.Prelude.{
  ℕ, ◌+◌, ◌-◌, ◌^◌, Bool, true, false, ◌&&◌, not, Option, none, some, [], ◌∷◌, ltb, leb,
  if◌then◌else◌, Bytes, cmp, str_eq,
}
use notepadpp_sync.Prelude.Map.{Map, find, insert}

abbrev pub VersionVector : Type 0
VersionVector = Map ℕ

abbrev pub int64_max : ℕ
int64_max = 2 ^ 63 - 1

-- `get`
unfoldable pub get : VersionVector → Bytes → ℕ
unfolding find
get vv device = elim (find device vv) [ none ↦ 0 | some v ↦ v ]

-- `entries[device]`, which makes an entry 0 where there is none.
unfoldable pub touch : VersionVector → Bytes → VersionVector
unfolding find insert
touch vv device = elim (find device vv) [ none ↦ insert device 0 vv | some v ↦ vv ]

-- `bump`
unfoldable pub bump : VersionVector → Bytes → Option VersionVector
unfolding get touch insert
bump vv device =
    if ltb (get vv device) int64_max
    then some (insert device (get vv device + 1) (touch vv device))
    else none

-- One round of the loop of `merge`.
unfoldable pub merge_entry : VersionVector → Bytes → ℕ → VersionVector
unfolding get touch insert
merge_entry vv device v =
    if ltb (get vv device) v then insert device v (touch vv device) else touch vv device

-- `merge`
unfoldable pub merge : VersionVector → VersionVector → VersionVector
unfolding merge_entry
merge vv [] = vv
merge vv ((device, v) ∷ other) = merge (merge_entry vv device v) other

-- The first loop of `dominates`, over the own entries; `none` is the early `return false`.
unfoldable pub greater_entries : VersionVector → VersionVector → Bool → Option Bool
unfolding get
greater_entries o [] greater = some greater
greater_entries o ((device, v) ∷ rest) greater =
    let next = greater_entries o rest (if ltb (get o device) v then true else greater) in
    if ltb v (get o device) then none else next

-- The second loop, over the other's entries: is there a counter that this vector lacks?
unfoldable pub lacks_entry : VersionVector → VersionVector → Bool
unfolding find
lacks_entry vv [] = false
lacks_entry vv ((device, v) ∷ rest) =
    let next = lacks_entry vv rest in
    elim (find device vv) [ none ↦ if ltb 0 v then true else next | some _ ↦ next ]

-- `dominates`
unfoldable pub dominates : VersionVector → VersionVector → Bool
unfolding greater_entries lacks_entry
dominates vv o = elim (greater_entries o vv false) [
  | none ↦ false
  | some greater ↦ if lacks_entry vv o then false else greater
]

-- `equal`: the maps have the same entries.
unfoldable pub equal : VersionVector → VersionVector → Bool
unfolding str_eq
equal [] [] = true
equal [] (_ ∷ _) = false
equal (_ ∷ _) [] = false
equal ((d, v) ∷ a) ((e, w) ∷ b) = str_eq d e && (leb v w && leb w v) && equal a b

-- `concurrent`
unfoldable pub concurrent : VersionVector → VersionVector → Bool
unfolding dominates equal
concurrent vv o = not (dominates vv o) && not (dominates o vv) && not (equal vv o)
