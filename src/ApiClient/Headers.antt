-- ===== src/ApiClient/Headers.antt =====
-- plugin/src/ApiClient.cpp: `headerValue` on the raw headers of an answer.
pub mod Laws
use notepadpp_sync.Prelude.{
  Bool, ◌||◌, Option, none, some, [], ◌∷◌, ◌++◌, ◌==◌, if◌then◌else◌, length, drop, Bytes,
}
use notepadpp_sync.Crypto.Recovery.{starts_with}

-- The end of a line.
abbrev pub crlf : Bytes
crlf = b'\r' ∷ b'\n' ∷ []

-- The text behind `s.find(needle)`.
unfoldable pub behind : Bytes → Bytes → Option Bytes
behind needle [] = if starts_with needle [] then some [] else none
behind needle (c ∷ s) =
    let rest = behind needle s in
    if starts_with needle (c ∷ s) then some (drop (length needle) (c ∷ s)) else rest

-- `s.substr(0, s.find("\r\n"))`
unfoldable pub before_crlf : Bytes → Bytes
before_crlf [] = []
before_crlf (c ∷ s) = let rest = before_crlf s in if starts_with crlf (c ∷ s) then [] else c ∷ rest

-- `while (!v.empty() && (v.front() == ' ' || v.front() == '\t')) v.erase(v.begin());`
unfoldable pub drop_blanks : Bytes → Bytes
drop_blanks [] = []
drop_blanks (c ∷ s) = let rest = drop_blanks s in if c == b' ' || c == b'\t' then rest else c ∷ s

-- `headerValue`. For a header in the first line `pos + needle.size()` wraps round to 2, whatever the name.
unfoldable pub header_value : Bytes → Bytes → Bytes
header_value headers name = elim (behind (crlf ++ (name ++ b':' ∷ [])) headers) [
  | some rest ↦ drop_blanks (before_crlf rest)
  | none ↦
      if starts_with (name ++ b':' ∷ []) headers
      then drop_blanks (before_crlf (drop 2 headers))
      else []
]
