-- ===== src/ApiClient/Url/Laws.antt =====
-- plugin/src/ApiClient.cpp: the address of a server, written out, is read back by `parseUrl`.
use notepadpp_sync.Prelude.{
  ℕ, suc, ◌+◌, ◌<◌, ◌≡◌, ◌≢◌, refl, sym, ap, zero, ◌/◌, ◌%◌, All-append, All-mono, ◌∙◌, subst, Bool,
  true, false, none, some, [], ◌∷◌, ◌++◌, append-nil, append_assoc, arith, ◌==◌, Bytes, codes,
  str_eq, str_eq_iff, false_of_ne, drop_back, All, Bool-cases, inl, inr,
}
use notepadpp_sync.Crypto.Recovery.{starts_with}
use notepadpp_sync.VersionVector.Json.{digits, to_string}
use notepadpp_sync.VersionVector.RoundTrip.{HeadDigit, to_string-HeadDigit}
use notepadpp_sync.Integers.{pos, int_max, int_of, to_word}
use notepadpp_sync.Integers.Laws.{int_of-to_string}
use notepadpp_sync.ApiClient.Url.{
  url_parsed, before_first, from_first, split_last, url_of, parse_host, parse_rest, parse_scheme,
  parse_url,
}

-- A path that is empty, or begins with a slash.
abbrev pub IsPath : Bytes → Type 0
IsPath [] = Unit
IsPath (c ∷ s) = c ≡ b'/'

split_at_slash :
    (u path : Bytes)
    → All (λ c. c ≢ b'/') u
    → IsPath path
    → (before_first b'/' (u ++ path) ≡ u) × (from_first b'/' (u ++ path) ≡ path)
unfolding before_first from_first
split_at_slash [] [] h p = (refl, refl)
split_at_slash [] (c ∷ s) h p = ground arith
split_at_slash (d ∷ u) path (ne, h) p = ground (arith, split_at_slash u path h p)

split_last-none : (c : ℕ) (s : Bytes) → All (λ d. d ≢ c) s → split_last c s ≡ none
unfolding split_last
split_last-none c [] h = refl
split_last-none c (d ∷ s) (ne, h) = ground (arith, split_last-none c s h)

split_last-append :
    (c : ℕ) (a b : Bytes) → All (λ d. d ≢ c) b → split_last c (a ++ c ∷ b) ≡ some (a, b)
unfolding split_last
split_last-append c [] b h = ground (arith, split_last-none c b h)
split_last-append c (d ∷ a) b h = ground (arith, split_last-append c a b h)

-- The text does not end in a slash.
abbrev pub NoSlashEnd : Bytes → Type 0
NoSlashEnd s = drop_back (λ c. c == b'/') s ≡ s

abbrev Nonempty : Bytes → Type 0
Nonempty [] = ⊥
Nonempty (c ∷ s) = Unit

Nonempty-append : (a b : Bytes) → Nonempty b → Nonempty (a ++ b)
Nonempty-append [] b h = h
Nonempty-append (c ∷ a) b h = tt

NoSlashEnd-cons : (c : ℕ) (s : Bytes) → Nonempty s → NoSlashEnd s → NoSlashEnd (c ∷ s)
unfolding drop_back
NoSlashEnd-cons c [] h e = elim h [ ]
NoSlashEnd-cons c (d ∷ s) h e = rw (drop_back, e) refl

NoSlashEnd-append : (a b : Bytes) → Nonempty b → NoSlashEnd b → NoSlashEnd (a ++ b)
NoSlashEnd-append [] b h e = e
NoSlashEnd-append (c ∷ a) b h e =
    NoSlashEnd-cons c (a ++ b) (Nonempty-append a b h) (NoSlashEnd-append a b h e)

NoSlash-NoSlashEnd : (s : Bytes) → All (λ c. c ≢ b'/') s → NoSlashEnd s
unfolding drop_back
NoSlash-NoSlashEnd [] h = refl
NoSlash-NoSlashEnd (c ∷ []) (ne, h) = ground arith
NoSlash-NoSlashEnd (c ∷ d ∷ s) (ne, h) = NoSlashEnd-cons c (d ∷ s) tt (NoSlash-NoSlashEnd (d ∷ s) h)

-- A port has neither a slash nor a colon.
digits-All :
    (fuel n : ℕ) (out : Bytes)
    → All (λ c. (c ≢ b'/') × (c ≢ b':')) out
    → All (λ c. (c ≢ b'/') × (c ≢ b':')) (digits fuel n out)
unfolding digits
digits-All zero n out h = h
digits-All (suc f) n out h = elim (Bool-cases (n == 0)) [
  | inl z ↦ rw z h
  | inr nz ↦
      rw nz (
        digits-All f (n / 10) ((b'0' + n % 10) ∷ out) (((λ e. omega arith), (λ e. omega arith)), h))
]

to_string-All : (n : ℕ) → All (λ c. (c ≢ b'/') × (c ≢ b':')) (to_string n)
unfolding to_string
to_string-All n = elim (Bool-cases (n == 0)) [
  | inl z ↦ rw z (((λ e. omega arith), (λ e. omega arith)), tt)
  | inr nz ↦ rw nz (digits-All n n [] tt)
]

port-Nonempty : (n : ℕ) → Nonempty (to_string n)
port-Nonempty n = head (to_string n) (to_string-HeadDigit n)
  where
    head : (s : Bytes) → HeadDigit s → Nonempty s
    head [] h = h
    head (c ∷ s) h = tt

path-NoSlashEnd :
    (port : Bytes) (path : Bytes)
    → All (λ c. c ≢ b'/') port
    → NoSlashEnd path
    → NoSlashEnd (port ++ path)
path-NoSlashEnd port [] h e = subst NoSlashEnd (sym (append-nil port)) (NoSlash-NoSlashEnd port h)
path-NoSlashEnd port (c ∷ s) h e = NoSlashEnd-append port (c ∷ s) tt e

Nonempty-left : (a b : Bytes) → Nonempty a → Nonempty (a ++ b)
Nonempty-left [] b h = elim h [ ]
Nonempty-left (c ∷ a) b h = tt

abbrev pub scheme : Bool → Bytes
scheme true = codes "https://"
scheme false = codes "http://"

parse_scheme-scheme :
    (widen : Bytes → Bytes) (https : Bool) (u : Bytes)
    → parse_scheme widen (scheme https ++ u) ≡ parse_rest widen https u
unfolding parse_scheme starts_with
parse_scheme-scheme widen true u = refl
parse_scheme-scheme widen false u = refl

-- Where `widen` makes no empty text of a host: an address `https://<host>:<port><path>`, or with `http`,
-- whose host has no slash, whose port is below 65536 and whose path is empty, or begins with a slash and
-- does not end in one, is read by `parseUrl` as these parts.
pub parse_url-scheme :
    (widen : Bytes → Bytes) (https : Bool) (host path : Bytes) (port : ℕ)
    → widen host ≢ []
    → All (λ c. c ≢ b'/') host
    → port < 65536
    → IsPath path
    → NoSlashEnd path
    → parse_url widen (scheme https ++ (host ++ b':' ∷ (to_string port ++ path)))
      ≡ url_parsed (record { host = widen host; port = port; https = https; base_path = path })
unfolding parse_url parse_rest parse_host url_of to_word
parse_url-scheme widen https host path port ne hh hp pp ends =
    let digits_ok : All (λ c. (c ≢ b'/') × (c ≢ b':')) (to_string port) = to_string-All port in
    let no_slash : All (λ c. c ≢ b'/') (to_string port) =
      All-mono (λ c. (c ≢ b'/') × (c ≢ b':')) (λ c. c ≢ b'/') (λ c h. h.0) (to_string port)
        digits_ok in
    let no_colon : All (λ c. c ≢ b':') (to_string port) =
      All-mono (λ c. (c ≢ b'/') × (c ≢ b':')) (λ c. c ≢ b':') (λ c h. h.1) (to_string port)
        digits_ok in
    let kept : NoSlashEnd (scheme https ++ (host ++ b':' ∷ (to_string port ++ path))) =
      NoSlashEnd-append (scheme https) (host ++ b':' ∷ (to_string port ++ path))
        (Nonempty-append host (b':' ∷ (to_string port ++ path)) tt)
        (NoSlashEnd-append host (b':' ∷ (to_string port ++ path)) tt (
          NoSlashEnd-cons b':' (to_string port ++ path)
            (Nonempty-left (to_string port) path (port-Nonempty port))
            (path-NoSlashEnd (to_string port) path no_slash ends))) in
    let (cut, rest) =
      split_at_slash (host ++ b':' ∷ to_string port) path
        (All-append (λ c. c ≢ b'/') host (b':' ∷ to_string port) hh ((λ e. omega arith), no_slash))
        pp in
    let joined : host ++ b':' ∷ (to_string port ++ path) ≡ (host ++ b':' ∷ to_string port) ++ path =
      sym (append_assoc host (b':' ∷ to_string port) path) in
    let read : int_of int_max (to_string port) ≡ some (pos port) =
      ap (int_of int_max) (sym (append-nil (to_string port)))
      ∙ int_of-to_string int_max port [] (omega arith) (omega arith) tt in
    let named : str_eq (widen host) [] ≡ false =
      false_of_ne (str_eq (widen host) []) (λ e. ne ((str_eq_iff (widen host) []).0 e)) in
    let word : port % 65536 ≡ port = omega arith in
    ap (parse_scheme widen) kept
    ∙ (parse_scheme-scheme widen https _
        ∙ (ap (parse_rest widen https) joined
            ∙ ((λ i. parse_host widen https (rest i) (cut i))
                ∙ rw (parse_host, split_last-append b':' host (to_string port) no_colon)
                    (rw read (rw word (rw named refl))))))
