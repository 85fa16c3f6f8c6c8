-- ===== src/ApiClient/Headers/Laws.antt =====
-- plugin/src/ApiClient.cpp: what `headerValue` finds in the headers of an answer.
use notepadpp_sync.Prelude.{
  ◌≡◌, ◌≢◌, refl, sym, ap, ◌∙◌, Bool, false, Option, none, some, List, [], ◌∷◌, ◌++◌, arith,
  if◌then◌else◌, length, drop, Bytes, str_eq, cmp, str_eq_iff, All, Bool-cases, inl, inr,
}
use notepadpp_sync.Crypto.Recovery.{starts_with}
use notepadpp_sync.ApiClient.Headers.{crlf, behind, before_crlf, drop_blanks, header_value}

-- A text within a line, and one without a colon besides.
abbrev pub InLine : Bytes → Type 0
InLine = All (λ c. c ≢ b'\r')

abbrev pub IsName : Bytes → Type 0
IsName = All (λ c. (c ≢ b'\r') × (c ≢ b':'))

-- The lines behind the first, and the empty line at the end.
pub fields_text : List (Bytes × Bytes) → Bytes
fields_text [] = crlf ++ crlf
fields_text ((name, value) ∷ fields) = crlf ++ (name ++ b':' ∷ (value ++ fields_text fields))

pub first_value : Bytes → List (Bytes × Bytes) → Bytes
first_value name [] = []
first_value name ((n, v) ∷ fields) =
    let rest = first_value name fields in if str_eq name n then drop_blanks v else rest

abbrev pub AreFields : List (Bytes × Bytes) → Type 0
AreFields = All (λ f. IsName f.0 × InLine f.1)

-- The search passes over what holds no carriage return.
behind_line :
    (needle s t : Bytes) → InLine s → behind (b'\r' ∷ needle) (s ++ t) ≡ behind (b'\r' ∷ needle) t
unfolding behind starts_with
behind_line needle [] t h = refl
behind_line needle (c ∷ s) t (ne, h) = ground (arith, behind_line needle s t h)

before_crlf_line : (s t : Bytes) → InLine s → before_crlf (s ++ (crlf ++ t)) ≡ s
unfolding before_crlf starts_with
before_crlf_line [] t h = refl
before_crlf_line (c ∷ s) t (ne, h) = ground (arith, before_crlf_line s t h)

fields_text-crlf : (fields : List (Bytes × Bytes)) → (t : Bytes) × (fields_text fields ≡ crlf ++ t)
unfolding fields_text
fields_text-crlf [] = (crlf, refl)
fields_text-crlf ((n, v) ∷ fields) = (n ++ b':' ∷ (v ++ fields_text fields), refl)

-- Two names, each with a colon behind it.
starts_name :
    (name n rest : Bytes)
    → IsName name
    → IsName n
    → starts_with (name ++ b':' ∷ []) (n ++ b':' ∷ rest) ≡ str_eq name n
unfolding starts_with str_eq cmp
starts_name [] [] rest h k = refl
starts_name [] (c ∷ n) rest h (k, ks) = ground arith
starts_name (c ∷ name) [] rest (h, hs) k = ground arith
starts_name (c ∷ name) (d ∷ n) rest (h, hs) (k, ks) = ground (arith, starts_name name n rest hs ks)

-- No name begins the end of a line.
starts_line :
    (name s t : Bytes)
    → IsName name
    → IsName s
    → starts_with (name ++ b':' ∷ []) (s ++ (crlf ++ t)) ≡ false
unfolding starts_with
starts_line [] [] t h k = refl
starts_line [] (c ∷ s) t h (k, ks) = ground arith
starts_line (c ∷ name) [] t (h, hs) k = ground arith
starts_line (c ∷ name) (d ∷ s) t (h, hs) (k, ks) = ground (arith, starts_line name s t hs ks)

IsName-InLine : (s : Bytes) → IsName s → InLine s
IsName-InLine [] h = h
IsName-InLine (c ∷ s) (h, hs) = (h.0, IsName-InLine s hs)

-- What is behind the first field of a name.
behind_field : Bytes → List (Bytes × Bytes) → Option Bytes
behind_field name [] = none
behind_field name ((n, v) ∷ fields) =
    let rest = behind_field name fields in
    if str_eq name n then some (v ++ fields_text fields) else rest

drop-name : (name rest : Bytes) → drop (length (name ++ b':' ∷ [])) (name ++ b':' ∷ rest) ≡ rest
drop-name [] rest = refl
drop-name (c ∷ name) rest = drop-name name rest

behind_end :
    (name : Bytes) → IsName name → behind (crlf ++ (name ++ b':' ∷ [])) (crlf ++ crlf) ≡ none
unfolding behind starts_with
behind_end [] h = refl
behind_end (c ∷ name) h = ground arith

-- The search passes over a field.
behind_past :
    (needle n v t : Bytes)
    → IsName n
    → InLine v
    → behind (b'\r' ∷ needle) (n ++ b':' ∷ (v ++ t)) ≡ behind (b'\r' ∷ needle) t
unfolding behind starts_with
behind_past needle [] v t k l = behind_line needle v t l
behind_past needle (c ∷ n) v t (k, ks) l = ground (arith, behind_past needle n v t ks l)

-- One field is found or passed over.
behind_step :
    (name n v t : Bytes)
    → IsName name
    → IsName n
    → InLine v
    → behind (crlf ++ (name ++ b':' ∷ [])) (crlf ++ (n ++ b':' ∷ (v ++ t)))
      ≡ (if str_eq name n then some (v ++ t) else behind (crlf ++ (name ++ b':' ∷ [])) t)
unfolding behind starts_with
behind_step name n v t h k l = elim (Bool-cases (str_eq name n)) [
  | inl e ↦
      rw (starts_name name n (v ++ t) h k, e, sym ((str_eq_iff name n).0 e))
        (ap some (drop-name name (v ++ t)))
  | inr e ↦
      rw (starts_name name n (v ++ t) h k, e) (behind_past (b'\n' ∷ (name ++ b':' ∷ [])) n v t k l)
]

behind-fields_text :
    (name : Bytes) (fields : List (Bytes × Bytes))
    → IsName name
    → AreFields fields
    → behind (crlf ++ (name ++ b':' ∷ [])) (fields_text fields) ≡ behind_field name fields
unfolding fields_text behind_field
behind-fields_text name [] h hs = behind_end name h
behind-fields_text name ((n, v) ∷ fields) h ((k, l), hs) =
    behind_step name n v (fields_text fields) h k l
    ∙ ap (λ x. if str_eq name n then some (v ++ fields_text fields) else x)
        (behind-fields_text name fields h hs)

-- What `headerValue` makes of the text behind a field.
value_of : Option Bytes → Bytes
value_of (some rest) = drop_blanks (before_crlf rest)
value_of none = []

value_of-behind_field :
    (name : Bytes) (fields : List (Bytes × Bytes))
    → AreFields fields
    → value_of (behind_field name fields) ≡ first_value name fields
unfolding value_of behind_field first_value
value_of-behind_field name [] hs = refl
value_of-behind_field name ((n, v) ∷ fields) ((k, l), hs) = elim (Bool-cases (str_eq name n)) [
  | inl e ↦ rw e (
      ap drop_blanks (
        ap (λ t. before_crlf (v ++ t)) (fields_text-crlf fields).1
        ∙ before_crlf_line v (fields_text-crlf fields).0 l))
  | inr e ↦ rw e (value_of-behind_field name fields hs)
]

header_value_cases :
    (o : Option Bytes) (first : Bool) (s : Bytes)
    → first ≡ false
    → (elim o [
      | some rest ↦ drop_blanks (before_crlf rest)
      | none ↦ if first then drop_blanks (before_crlf (drop 2 s)) else []
    ])
      ≡ value_of o
unfolding value_of
header_value_cases (some rest) first s h = refl
header_value_cases none first s h = rw h refl

header_value-value_of :
    (name s : Bytes)
    → starts_with (name ++ b':' ∷ []) s ≡ false
    → header_value s name ≡ value_of (behind (crlf ++ (name ++ b':' ∷ [])) s)
unfolding header_value
header_value-value_of name s h =
    header_value_cases (behind (crlf ++ (name ++ b':' ∷ [])) s) (starts_with (name ++ b':' ∷ []) s)
      s h

starts_status :
    (name status : Bytes) (fields : List (Bytes × Bytes))
    → IsName name
    → IsName status
    → starts_with (name ++ b':' ∷ []) (status ++ fields_text fields) ≡ false
starts_status name status fields h k =
    ap (λ t. starts_with (name ++ b':' ∷ []) (status ++ t)) (fields_text-crlf fields).1
    ∙ starts_line name status (fields_text-crlf fields).0 h k

-- In headers of a status line without a colon, the fields and an empty line, `headerValue` finds the value of
-- the first field with exactly the name asked for, less the blanks before it, and an empty text where no field
-- has that name; names hold no colon, and neither they nor values a carriage return.
pub header_value-first_value :
    (name status : Bytes) (fields : List (Bytes × Bytes))
    → IsName name
    → IsName status
    → AreFields fields
    → header_value (status ++ fields_text fields) name ≡ first_value name fields
header_value-first_value name status fields h k hs =
    header_value-value_of name (status ++ fields_text fields) (starts_status name status fields h k)
    ∙ ap value_of (
        behind_line (b'\n' ∷ (name ++ b':' ∷ [])) status (fields_text fields)
          (IsName-InLine status k))
    ∙ ap value_of (behind-fields_text name fields h hs)
    ∙ value_of-behind_field name fields hs
