-- ===== src/Crypto/RoundTrip.antt =====
-- plugin/src/core/Crypto.cpp: `base64UrlDecode` undoes `base64UrlEncode`.
use notepadpp_sync.Prelude.{
  ℕ, zero, suc, ◌+◌, ◌*◌, ◌/◌, ◌%◌, ◌^◌, ◌<◌, ◌≡◌, sym, ap, ◌∙◌, Bool, true, false, ◌&&◌, Option,
  none, some, [], ◌∷◌, ◌++◌, refl, append-nil, append_assoc, arith, ◌==◌, ==_iff, get_or, length,
  Bytes, All,
}
use notepadpp_sync.Crypto.Base64.{
  tbl, symbol, base64_url_encode, val, Decoder, feed, decode_loop, base64_url_decode,
}

-- Along a table, each symbol stands for its place, counted from `k`.
stands_for : ℕ → Option ℕ → Bool
stands_for k none = false
stands_for k (some v) = v == k

in_place : ℕ → Bytes → Bool
unfolding stands_for val
in_place k [] = true
in_place k (c ∷ s) = stands_for k (val c) && in_place (suc k) s

some_of_stands : (k : ℕ) (o : Option ℕ) → stands_for k o ≡ true → o ≡ some k
unfolding stands_for
some_of_stands k none e = cc
some_of_stands k (some v) e = ap some ((==_iff v k).0 e)

val-get_or :
    (s : Bytes) (k i : ℕ) → in_place k s ≡ true → i < length s → val (get_or s i 0) ≡ some (k + i)
unfolding in_place
val-get_or [] k i e h = absurd (omega arith)
val-get_or (c ∷ s) k zero e h = some_of_stands k (val c) (ground arith) ∙ ap some (omega arith)
val-get_or (c ∷ s) k (suc i) e h =
    val-get_or s (suc k) i (ground arith) (omega arith) ∙ ap some (omega arith)

tbl-in_place : in_place 0 tbl ≡ true
unfolding in_place
tbl-in_place = refl

decode-symbol :
    (v p : ℕ) (s : Bytes) (d : Decoder)
    → decode_loop (symbol v p ∷ s) d ≡ decode_loop s (feed d (v / p % 64))
unfolding decode_loop symbol
decode-symbol v p s d =
    rw (decode_loop, val-get_or tbl 0 (v / p % 64) tbl-in_place (omega arith))
      (ap (λ t. decode_loop s (feed d t)) (omega arith))

-- The register after one more symbol.
abbrev shift : ℕ → ℕ → ℕ
shift x w = (x * 64 + w) % 2 ^ 32

-- A byte depends on the last two symbols only, whatever bits the register holds above them.
module _ (x v w : ℕ) (hv : v < 64) (hw : w < 64) where
  byte_first : shift (shift x v) w / 2 ^ 4 % 256 ≡ v * 4 + w / 16
  byte_first = omega arith

  byte_second : shift (shift x v) w / 2 ^ 2 % 256 ≡ v % 16 * 16 + w / 4
  byte_second = omega arith

  byte_third : shift (shift x v) w / 2 ^ 0 % 256 ≡ v % 4 * 64 + w
  byte_third = omega arith

-- The state of the loop between two groups.
unfoldable between : ℕ → Bytes → Decoder
between acc out = record { acc = acc; bits = 0; out = out }

module _ (acc t u : ℕ) (out : Bytes) (ht : t < 64) (hu : u < 64) where
  feed_two :
      feed (feed (between acc out) t) u
      ≡ record { acc = shift (shift acc t) u; bits = 4; out = out ++ (t * 4 + u / 16) ∷ [] }
  unfolding feed between
  feed_two = λ i. record {
    acc = shift (shift acc t) u;
    bits = 4;
    out = out ++ byte_first acc t u ht hu i ∷ [];
  }

  module _ (v : ℕ) (hv : v < 64) where
    feed_three : feed (feed (feed (between acc out) t) u) v ≡ record {
      acc = shift (shift (shift acc t) u) v;
      bits = 2;
      out = (out ++ (t * 4 + u / 16) ∷ []) ++ (u % 16 * 16 + v / 4) ∷ [];
    }
    unfolding feed
    feed_three = ap (λ d. feed d v) feed_two ∙ λ i. record {
      acc = shift (shift (shift acc t) u) v;
      bits = 2;
      out = (out ++ (t * 4 + u / 16) ∷ []) ++ byte_second (shift acc t) u v hu hv i ∷ [];
    }

    feed_four :
        (w : ℕ)
        → w < 64
        → feed (feed (feed (feed (between acc out) t) u) v) w
          ≡ between (shift (shift (shift (shift acc t) u) v) w) (
              ((out ++ (t * 4 + u / 16) ∷ []) ++ (u % 16 * 16 + v / 4) ∷ [])
              ++ (v % 4 * 64 + w) ∷ [])
    unfolding feed between
    feed_four w hw = ap (λ d. feed d w) feed_three ∙ λ i. record {
      acc = shift (shift (shift (shift acc t) u) v) w;
      bits = 0;
      out =
          ((out ++ (t * 4 + u / 16) ∷ []) ++ (u % 16 * 16 + v / 4) ∷ [])
          ++ byte_third (shift (shift acc t) u) v w hv hw i ∷ [];
    }

abbrev IsByte : ℕ → Type 0
IsByte b = b < 256

abbrev pub AreBytes : Bytes → Type 0
AreBytes = All IsByte

-- The four symbols of three bytes are read back as those.
decode_group :
    (a b c acc : ℕ) (s out : Bytes)
    → a < 256
    → b < 256
    → c < 256
    → (acc' : ℕ) × (decode_loop
          (symbol (a * 65536 + b * 256 + c) 262144
            ∷ symbol (a * 65536 + b * 256 + c) 4096
            ∷ symbol (a * 65536 + b * 256 + c) 64
            ∷ symbol (a * 65536 + b * 256 + c) 1
            ∷ s)
          (between acc out)
        ≡ decode_loop s (between acc' (((out ++ a ∷ []) ++ b ∷ []) ++ c ∷ [])))
decode_group a b c acc s out ha hb hc =
    let n = a * 65536 + b * 256 + c in
    let x : n / 262144 % 64 * 4 + n / 4096 % 64 / 16 ≡ a = omega arith in
    let y : n / 4096 % 64 % 16 * 16 + n / 64 % 64 / 4 ≡ b = omega arith in
    let z : n / 64 % 64 % 4 * 64 + n / 1 % 64 ≡ c = omega arith in
    (
      shift (shift (shift (shift acc (n / 262144 % 64)) (n / 4096 % 64)) (n / 64 % 64))
          (n / 1 % 64),
      decode-symbol n 262144 _ _
          ∙ decode-symbol n 4096 _ _
          ∙ decode-symbol n 64 _ _
          ∙ decode-symbol n 1 _ _
          ∙ ap (decode_loop s) (
              feed_four acc (n / 262144 % 64) (n / 4096 % 64) out (omega arith) (omega arith)
                (n / 64 % 64) (omega arith) (n / 1 % 64) (omega arith))
          ∙ λ i. decode_loop s (
              between
                (shift (shift (shift (shift acc (n / 262144 % 64)) (n / 4096 % 64)) (n / 64 % 64))
                  (n / 1 % 64))
                (((out ++ x i ∷ []) ++ y i ∷ []) ++ z i ∷ [])),
    )

three_behind :
    (out : Bytes) (a b c : ℕ) (s : Bytes)
    → (((out ++ a ∷ []) ++ b ∷ []) ++ c ∷ []) ++ s ≡ out ++ a ∷ b ∷ c ∷ s
three_behind out a b c s = rw (append_assoc, append_assoc, append_assoc)

decode_one :
    (a acc : ℕ) (out : Bytes)
    → a < 256
    → decode_loop (symbol (a * 65536) 262144 ∷ symbol (a * 65536) 4096 ∷ []) (between acc out)
      ≡ some (out ++ a ∷ [])
decode_one a acc out ha =
    let n = a * 65536 in
    let x : n / 262144 % 64 * 4 + n / 4096 % 64 / 16 ≡ a = omega arith in
    rw (decode-symbol n 262144 (symbol n 4096 ∷ []) (between acc out), decode-symbol n 4096 [])
      (ap (decode_loop [])
          (feed_two acc (n / 262144 % 64) (n / 4096 % 64) out (omega arith) (omega arith))
        ∙ (unfold decode_loop in λ i. some (out ++ x i ∷ [])))

decode_two :
    (a b acc : ℕ) (out : Bytes)
    → a < 256
    → b < 256
    → decode_loop
        (symbol (a * 65536 + b * 256) 262144
          ∷ symbol (a * 65536 + b * 256) 4096
          ∷ symbol (a * 65536 + b * 256) 64
          ∷ [])
        (between acc out)
      ≡ some ((out ++ a ∷ []) ++ b ∷ [])
decode_two a b acc out ha hb =
    let n = a * 65536 + b * 256 in
    let x : n / 262144 % 64 * 4 + n / 4096 % 64 / 16 ≡ a = omega arith in
    let y : n / 4096 % 64 % 16 * 16 + n / 64 % 64 / 4 ≡ b = omega arith in
    rw
      (
        decode-symbol n 262144 (symbol n 4096 ∷ symbol n 64 ∷ []) (between acc out),
        decode-symbol n 4096 (symbol n 64 ∷ []),
        decode-symbol n 64 [],
      )
      (ap (decode_loop []) (
          feed_three acc (n / 262144 % 64) (n / 4096 % 64) out (omega arith) (omega arith)
            (n / 64 % 64) (omega arith))
        ∙ (unfold decode_loop in λ i. some ((out ++ x i ∷ []) ++ y i ∷ [])))

decode-encode :
    (s out : Bytes) (acc : ℕ)
    → AreBytes s
    → decode_loop (base64_url_encode s) (between acc out) ≡ some (out ++ s)
unfolding base64_url_encode
decode-encode [] out acc h = unfold decode_loop between in ap some (sym (append-nil out))
decode-encode (a ∷ []) out acc (ha, h) = decode_one a acc out ha
decode-encode (a ∷ b ∷ []) out acc (ha, (hb, h)) =
    decode_two a b acc out ha hb ∙ ap some (append_assoc out (a ∷ []) (b ∷ []))
decode-encode (a ∷ b ∷ c ∷ rest) out acc (ha, (hb, (hc, h))) =
    let (acc', e) = decode_group a b c acc (base64_url_encode rest) out ha hb hc in
    e
    ∙ decode-encode rest (((out ++ a ∷ []) ++ b ∷ []) ++ c ∷ []) acc' h
    ∙ ap some (three_behind out a b c rest)

-- Of a sequence of bytes, `base64UrlDecode` reads back what `base64UrlEncode` writes.
pub base64_url_decode-base64_url_encode :
    (s : Bytes) → AreBytes s → base64_url_decode (base64_url_encode s) ≡ some s
unfolding base64_url_decode between
base64_url_decode-base64_url_encode s h = decode-encode s [] 0 h
