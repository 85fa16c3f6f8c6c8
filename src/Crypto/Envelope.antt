-- ===== src/Crypto/Envelope.antt =====
-- plugin/src/core/Crypto.cpp: the envelope around a ciphertext. `seal` and `open` are `aesGcmCrypt` in its
-- two directions, which calls Windows CNG; random bytes are an argument.
use notepadpp_sync.Prelude.{
  not, Option, none, some, ◌∷◌, ◌++◌, ltb, ◌==◌, if◌then◌else◌, length, take, drop, get_or, Bytes,
  codes, str_eq,
}

abbrev pub magic : Bytes
magic = codes "NPS1"

-- The bytes of an envelope, in their order.
abbrev pub envelope : Bytes → Bytes → Bytes → Bytes
envelope nonce tag ct = magic ++ 1 ∷ (nonce ++ (tag ++ ct))

module _ (seal : Bytes → Bytes → Bytes → Bytes → Option (Bytes × Bytes)) where
  -- `encrypt`: key, nonce, plaintext, additional data; `none` where it throws.
  unfoldable pub encrypt : Bytes → Bytes → Bytes → Bytes → Option Bytes
  encrypt key nonce plaintext aad = elim (seal key nonce plaintext aad) [
    | none ↦ none
    | some (ct, tag) ↦ some (envelope nonce tag ct)
  ]

  -- `wrapMasterKey`
  unfoldable pub wrap_master_key : Bytes → Bytes → Bytes → Option Bytes
  wrap_master_key nonce master_key wrapping_key =
      encrypt wrapping_key nonce master_key (codes "npsync-keywrap")

module _ (open' : Bytes → Bytes → Bytes → Bytes → Bytes → Option Bytes) where
  -- `decrypt`: key, envelope, additional data.
  unfoldable pub decrypt : Bytes → Bytes → Bytes → Option Bytes
  decrypt key env aad =
      if ltb (length env) 33
      then none
      else if not (str_eq (take 4 env) magic)
      then none
      else if not (get_or env 4 0 == 1)
      then none
      else open' key (take 12 (drop 5 env)) (drop 33 env) aad (take 16 (drop 17 env))

  -- `unwrapMasterKey`
  unfoldable pub unwrap_master_key : Bytes → Bytes → Option Bytes
  unwrap_master_key wrapped wrapping_key =
      elim (decrypt wrapping_key wrapped (codes "npsync-keywrap")) [
        | none ↦ none
        | some key ↦ if length key == 32 then some key else none
      ]
