-- ===== src/Crypto/Opening.antt =====
-- plugin/src/core/Crypto.cpp: `encrypt` and `decrypt` agree on the layout of an envelope.
use notepadpp_sync.Prelude.{
  ℕ, zero, suc, ◌+◌, ◌<◌, ◌≡◌, ◌↔◌, refl, sym, ap, ◌∙◌, true, false, Option, none, some, [], ◌∷◌,
  ◌++◌, arith, ltb, length, take, drop, get_or, length-append, take-append-drop, take-append,
  drop-append, length-take, length-drop, Bytes, codes, str_eq, str_eq_iff,
}
use notepadpp_sync.Crypto.Envelope.{
  magic, envelope, encrypt, decrypt, wrap_master_key, unwrap_master_key,
}

drop_nil : (k : ℕ) → drop {A = ℕ} k [] ≡ []
drop_nil zero = refl
drop_nil (suc k) = refl

drop-drop : (m n : ℕ) (xs : Bytes) → drop m (drop n xs) ≡ drop (n + m) xs
drop-drop m zero xs = let e : m ≡ 0 + m = omega arith in ap (λ k. drop k xs) e
drop-drop m (suc n) [] = drop_nil m ∙ sym (drop_nil (suc n + m))
drop-drop m (suc n) (x ∷ xs) =
    let e : suc (n + m) ≡ suc n + m = omega arith in drop-drop m n xs ∙ ap (λ k. drop k (x ∷ xs)) e

-- A text of more than `n` bytes has a byte at `n`.
cut_at : (n : ℕ) (xs : Bytes) → n < length xs → xs ≡ take n xs ++ get_or xs n 0 ∷ drop (suc n) xs
cut_at n [] h = absurd (omega arith)
cut_at zero (x ∷ xs) h = refl
cut_at (suc n) (x ∷ xs) h = ap (λ t. x ∷ t) (cut_at n xs (omega arith))

-- The parts that `decrypt` cuts out of an envelope.
open_parts :
    (nonce tag ct : Bytes)
    → length nonce ≡ 12
    → length tag ≡ 16
    → (take 12 (drop 5 (envelope nonce tag ct)) ≡ nonce)
      × (take 16 (drop 17 (envelope nonce tag ct)) ≡ tag)
      × (drop 33 (envelope nonce tag ct) ≡ ct)
open_parts nonce tag ct n t = (
  take-append nonce (tag ++ ct) 12 n,
  ap (take 16) behind ∙ take-append tag ct 16 t,
  sym (drop-drop 16 12 (nonce ++ (tag ++ ct))) ∙ ap (drop 16) behind ∙ drop-append tag ct 16 t,
)
  where
    behind : drop 12 (nonce ++ (tag ++ ct)) ≡ tag ++ ct
    behind = drop-append nonce (tag ++ ct) 12 n

-- An envelope is what its parts make.
module _ (env : Bytes) (long : ¬ (length env < 33)) (m : take 4 env ≡ magic)
    (alg : get_or env 4 0 ≡ 1) where
  of_parts : env ≡ envelope (take 12 (drop 5 env)) (take 16 (drop 17 env)) (drop 33 env)
  of_parts =
      cut_at 4 env (omega arith)
      ∙ ap (λ t. t ++ get_or env 4 0 ∷ drop 5 env) m
      ∙ ap (λ a. magic ++ a ∷ drop 5 env) alg
      ∙ ap (λ t. magic ++ 1 ∷ t) parts
    where
      parts : drop 5 env ≡ take 12 (drop 5 env) ++ (take 16 (drop 17 env) ++ drop 33 env)
      parts =
          sym (take-append-drop 12 (drop 5 env))
          ∙ ap (λ t. take 12 (drop 5 env) ++ t)
              (drop-drop 12 5 env
                ∙ sym (take-append-drop 16 (drop 17 env))
                ∙ ap (λ t. take 16 (drop 17 env) ++ t) (drop-drop 16 17 env))

module _ (open' : Bytes → Bytes → Bytes → Bytes → Bytes → Option Bytes) where
  decrypt-envelope :
      (key aad nonce tag ct : Bytes)
      → length nonce ≡ 12
      → length tag ≡ 16
      → decrypt open' key (envelope nonce tag ct) aad ≡ open' key nonce ct aad tag
  unfolding decrypt
  decrypt-envelope key aad nonce tag ct n t =
      let (a, b, c) = open_parts nonce tag ct n t in
      let long : ltb (length (envelope nonce tag ct)) 33 ≡ false =
        ground (arith, length-append nonce (tag ++ ct), length-append tag ct) in
      let same : str_eq (take 4 (envelope nonce tag ct)) magic ≡ true = (str_eq_iff _ _).1 refl in
      rw (long, same, decrypt) (λ i. open' key (a i) (c i) aad (b i))

  parts_of :
      (key env aad plain : Bytes)
      → decrypt open' key env aad ≡ some plain
      → (¬ (length env < 33))
        × (take 4 env ≡ magic)
        × (get_or env 4 0 ≡ 1)
        × (open' key (take 12 (drop 5 env)) (drop 33 env) aad (take 16 (drop 17 env)) ≡ some plain)
  unfolding decrypt
  parts_of key env aad plain e = (
    (λ h. ground arith),
    (str_eq_iff (take 4 env) magic).0 (ground arith),
    ground arith,
    ground arith,
  )

  -- `decrypt` returns a plaintext exactly for an envelope in the documented layout, magic, algorithm,
  -- nonce of 12 bytes, tag of 16 bytes, ciphertext, from which `aesGcmCrypt` returns it.
  pub decrypt_iff :
      (key env aad plain : Bytes)
      → (decrypt open' key env aad ≡ some plain) ↔ (
          (nonce : Bytes) × (tag : Bytes) × (ct : Bytes) × (env ≡ envelope nonce tag ct)
          × (length nonce ≡ 12)
          × (length tag ≡ 16)
          × (open' key nonce ct aad tag ≡ some plain))
  decrypt_iff key env aad plain = (
    λ e.
        let (long, m, alg, o) = parts_of key env aad plain e in
        (
          take 12 (drop 5 env),
          take 16 (drop 17 env),
          drop 33 env,
          of_parts env long m alg,
          omega (arith, length-take 12 (drop 5 env), length-drop 5 env),
          omega (arith, length-take 16 (drop 17 env), length-drop 17 env),
          o,
        ),
    λ (nonce, tag, ct, q, n, t, o).
        ap (λ x. decrypt open' key x aad) q ∙ decrypt-envelope key aad nonce tag ct n t ∙ o,
  )

module _ (seal : Bytes → Bytes → Bytes → Bytes → Option (Bytes × Bytes))
    (open' : Bytes → Bytes → Bytes → Bytes → Bytes → Option Bytes)
    (opens : (key nonce plain aad ct tag : Bytes)
      → seal key nonce plain aad ≡ some (ct, tag)
      → (length tag ≡ 16) × (open' key nonce ct aad tag ≡ some plain)) where
  -- Where `aesGcmCrypt` opens what it sealed and its tags have 16 bytes: under a nonce of 12 bytes,
  -- `decrypt` returns the plaintext of what `encrypt` returned.
  pub decrypt-encrypt :
      (key nonce plain aad env : Bytes)
      → length nonce ≡ 12
      → encrypt seal key nonce plain aad ≡ some env
      → decrypt open' key env aad ≡ some plain
  unfolding encrypt
  decrypt-encrypt key nonce plain aad env n e =
      sealed (seal key nonce plain aad) (λ ct tag q. opens key nonce plain aad ct tag q) e
    where
      sealed :
          (o : Option (Bytes × Bytes))
          → ((ct tag : Bytes)
              → o ≡ some (ct, tag)
              → (length tag ≡ 16) × (open' key nonce ct aad tag ≡ some plain))
          → (elim o [ none ↦ none | some (ct, tag) ↦ some (envelope nonce tag ct) ]) ≡ some env
          → decrypt open' key env aad ≡ some plain
      sealed none ok q = cc
      sealed (some (ct, tag)) ok q =
          let (t, o) = ok ct tag refl in
          let r : envelope nonce tag ct ≡ env = ground arith in
          ap (λ x. decrypt open' key x aad) (sym r)
          ∙ decrypt-envelope open' key aad nonce tag ct n t
          ∙ o

  -- Under the same conditions, a master key of 32 bytes that is wrapped is unwrapped again.
  pub unwrap_master_key-wrap_master_key :
      (nonce master_key wrapping_key wrapped : Bytes)
      → length nonce ≡ 12
      → length master_key ≡ 32
      → wrap_master_key seal nonce master_key wrapping_key ≡ some wrapped
      → unwrap_master_key open' wrapped wrapping_key ≡ some master_key
  unfolding wrap_master_key unwrap_master_key
  unwrap_master_key-wrap_master_key nonce master_key wrapping_key wrapped n size e =
      ground
        (arith, decrypt-encrypt wrapping_key nonce master_key (codes "npsync-keywrap") wrapped n e)
