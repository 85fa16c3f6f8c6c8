-- ===== src/ApiClient/Url.antt =====
-- plugin/src/ApiClient.cpp: `parseUrl`.
pub mod Laws
use notepadpp_sync.Prelude.{
  ℕ, Bool, true, false, not, Option, none, some, [], ◌∷◌, ◌++◌, ◌==◌, if◌then◌else◌, drop, Bytes,
  codes, str_eq, contains, drop_back,
}
use notepadpp_sync.Crypto.Recovery.{starts_with}
use notepadpp_sync.Integers.{ℤ, int_max, int_of, to_word}

-- `ParsedUrl`
pub record ParsedUrl : Type 0 where
  pub host : Bytes
  pub port : ℕ
  pub https : Bool
  pub base_path : Bytes

-- What `parseUrl` ends with: `std::stoi` throws, false, or the parts.
pub data UrlResult : Type 0 where
  url_throws url_refused : UrlResult
  url_parsed : ParsedUrl → UrlResult

-- `u.substr(0, u.find(c))`, and `u.substr(u.find(c))`, the empty text where there is none.
unfoldable pub before_first : ℕ → Bytes → Bytes
before_first c [] = []
before_first c (d ∷ s) = let rest = before_first c s in if d == c then [] else d ∷ rest

unfoldable pub from_first : ℕ → Bytes → Bytes
from_first c [] = []
from_first c (d ∷ s) = let rest = from_first c s in if d == c then d ∷ s else rest

-- The texts before and behind `s.rfind(c)`.
unfoldable pub split_last : ℕ → Bytes → Option (Bytes × Bytes)
split_last c [] = none
split_last c (d ∷ s) =
    let rest = split_last c s in
    elim rest [ some (a, b) ↦ some (d ∷ a, b) | none ↦ if d == c then some ([], s) else none ]

module _ (widen : Bytes → Bytes) where
  -- The host, with the test for an empty one.
  unfoldable pub url_of : Bytes → ℕ → Bool → Bytes → UrlResult
  url_of host port https base_path =
      if str_eq (widen host) []
      then url_refused
      else url_parsed
          (record { host = widen host; port = port; https = https; base_path = base_path })

  -- From the host and the port on; a port is cast to 16 bits.
  unfoldable pub parse_host : Bool → Bytes → Bytes → UrlResult
  parse_host https base_path host_port = elim (split_last b':' host_port) [
    | none ↦ url_of host_port (if https then 443 else 80) https base_path
    | some (host, port) ↦ elim (int_of int_max port) [
      | none ↦ url_throws
      | some n ↦ url_of host (to_word n) https base_path
    ]
  ]

  -- From the text behind the scheme on.
  unfoldable pub parse_rest : Bool → Bytes → UrlResult
  parse_rest https u = parse_host https (from_first b'/' u) (before_first b'/' u)

  unfoldable pub parse_scheme : Bytes → UrlResult
  parse_scheme u =
      if starts_with (codes "https://") u
      then parse_rest true (drop 8 u)
      else if starts_with (codes "http://") u
      then parse_rest false (drop 7 u)
      else url_refused

  -- `parseUrl`
  unfoldable pub parse_url : Bytes → UrlResult
  parse_url url = parse_scheme (drop_back (λ c. c == b'/') url)
