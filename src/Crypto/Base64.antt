-- ===== src/Crypto/Base64.antt =====
-- plugin/src/core/Crypto.cpp: `base64UrlEncode` and `base64UrlDecode`. The bits that `|` joins do not
-- overlap, so it is `+`; `<<` on a `uint32_t` wraps around.
use notepadpp_sync.Prelude.{
  ℕ, ◌+◌, ◌-◌, ◌*◌, ◌/◌, ◌%◌, ◌^◌, ◌&&◌, Option, none, some, [], ◌∷◌, ◌++◌, leb, ◌==◌,
  if◌then◌else◌, get_or, Bytes, codes,
}

abbrev pub tbl : Bytes
tbl = codes "ABCDEFGHIJKLMNOPQRSTUVWXYZabcdefghijklmnopqrstuvwxyz0123456789-_"

-- `tbl[(v >> k) & 63]`, where `p` is `2 ^ k`.
unfoldable pub symbol : ℕ → ℕ → ℕ
symbol v p = get_or tbl (v / p % 64) 0

-- `base64UrlEncode`
unfoldable pub base64_url_encode : Bytes → Bytes
unfolding symbol
base64_url_encode [] = []
base64_url_encode (a ∷ []) = let v = a * 65536 in symbol v 262144 ∷ symbol v 4096 ∷ []
base64_url_encode (a ∷ b ∷ []) =
    let v = a * 65536 + b * 256 in symbol v 262144 ∷ symbol v 4096 ∷ symbol v 64 ∷ []
base64_url_encode (a ∷ b ∷ c ∷ rest) =
    let v = a * 65536 + b * 256 + c in
    symbol v 262144 ∷ symbol v 4096 ∷ symbol v 64 ∷ symbol v 1 ∷ base64_url_encode rest

-- `val`; `none` is -1.
unfoldable pub val : ℕ → Option ℕ
val c =
    if leb b'A' c && leb c b'Z'
    then some (c - b'A')
    else if leb b'a' c && leb c b'z'
    then some (c - b'a' + 26)
    else if leb b'0' c && leb c b'9'
    then some (c - b'0' + 52)
    else if c == b'-'
    then some 62
    else if c == b'_'
    then some 63
    else none

-- `acc`, `bits` and `out`.
pub record Decoder : Type 0 where
  pub acc : ℕ
  pub bits : ℕ
  pub out : Bytes

-- The body of the loop behind the test of `v`.
unfoldable pub feed : Decoder → ℕ → Decoder
feed d v =
    let acc = (d.acc * 64 + v) % 2 ^ 32 in
    if leb 8 (d.bits + 6)
    then record {
      acc = acc;
      bits = d.bits + 6 - 8;
      out = d.out ++ (acc / 2 ^ (d.bits + 6 - 8) % 256) ∷ [];
    }
    else record { acc = acc; bits = d.bits + 6; out = d.out }

unfoldable pub decode_loop : Bytes → Decoder → Option Bytes
decode_loop [] d = some d.out
decode_loop (c ∷ s) d = elim (val c) [ none ↦ none | some v ↦ decode_loop s (feed d v) ]

-- `out` where the loop ends, also at a character that is no symbol.
unfoldable pub output_loop : Bytes → Decoder → Bytes
output_loop [] d = d.out
output_loop (c ∷ s) d = elim (val c) [ none ↦ d.out | some v ↦ output_loop s (feed d v) ]

-- `base64UrlDecode`: the output, whatever it returns.
unfoldable pub base64_url_output : Bytes → Bytes
base64_url_output s = output_loop s (record { acc = 0; bits = 0; out = [] })

-- `base64UrlDecode`: the output where it returns true.
unfoldable pub base64_url_decode : Bytes → Option Bytes
base64_url_decode s = decode_loop s (record { acc = 0; bits = 0; out = [] })
