-- ===== src/Merge/Lines.antt =====
-- plugin/src/core/Merge.cpp: `splitLines` undoes `appendLines`.
use mathlib.Core.Path.{ap₂}
use notepadpp_sync.Prelude.{
  ◌≡◌, ◌≢◌, refl, sym, ap, ◌∙◌, List, [], ◌∷◌, ◌++◌, append-nil, append_assoc, arith, Bytes, All,
  All-append, All-mono,
}
use notepadpp_sync.Merge.{drop_cr, split_loop, split_lines}
use notepadpp_sync.Merge.Region.{append_lines}

-- The lines, each with its end, one after the other.
abbrev ended : Bytes → List Bytes → Bytes
ended eol [] = []
ended eol (l ∷ ls) = l ++ (eol ++ ended eol ls)

append_lines-ended :
    (eol out : Bytes) (ls : List Bytes) → append_lines eol out ls ≡ out ++ ended eol ls
unfolding append_lines
append_lines-ended eol out [] = sym (append-nil out)
append_lines-ended eol out (l ∷ ls) =
    append_lines-ended eol (out ++ (l ++ eol)) ls
    ∙ append_assoc out (l ++ eol) (ended eol ls)
    ∙ ap (λ t. out ++ t) (append_assoc l eol (ended eol ls))

split_line :
    (l s cur : Bytes)
    → All (λ c. c ≢ b'\n') l
    → split_loop (l ++ b'\n' ∷ s) cur ≡ drop_cr (cur ++ l) ∷ split_loop s []
unfolding split_loop
split_line [] s cur h = ap (λ t. drop_cr t ∷ split_loop s []) (sym (append-nil cur))
split_line (c ∷ l) s cur (p, h) =
    ground (arith, split_line l s (cur ++ c ∷ []) h, ap drop_cr (append_assoc cur (c ∷ []) l))

split_ended :
    (tail : Bytes) (ls : List Bytes)
    → All (λ c. c ≢ b'\n') tail
    → All (All (λ c. c ≢ b'\n')) ls
    → All (λ l. drop_cr (l ++ tail) ≡ l) ls
    → split_loop (ended (tail ++ b'\n' ∷ []) ls) [] ≡ ls
split_ended tail [] ht h d = unfold split_loop in refl
split_ended tail (l ∷ ls) ht (hl, h) (dl, d) =
    ap (λ t. split_loop t [])
      (ap (λ t. l ++ t) (append_assoc tail (b'\n' ∷ []) rest)
        ∙ sym (append_assoc l tail (b'\n' ∷ rest)))
    ∙ split_line (l ++ tail) rest [] (All-append _ l tail hl ht)
    ∙ ap₂ (λ x xs. x ∷ xs) dl (split_ended tail ls ht h d)
  where
    rest : Bytes
    rest = ended (tail ++ b'\n' ∷ []) ls

drop_cr-append : (l : Bytes) → drop_cr (l ++ b'\r' ∷ []) ≡ l
unfolding drop_cr
drop_cr-append [] = refl
drop_cr-append (c ∷ []) = refl
drop_cr-append (c ∷ d ∷ l) = ap (λ t. c ∷ t) (drop_cr-append (d ∷ l))

All-lines : (ls : List Bytes) → All (λ l. drop_cr (l ++ b'\r' ∷ []) ≡ l) ls
All-lines [] = tt
All-lines (l ∷ ls) = (drop_cr-append l, All-lines ls)

All-lines_nil :
    (ls : List Bytes) → All (λ l. drop_cr l ≡ l) ls → All (λ l. drop_cr (l ++ []) ≡ l) ls
All-lines_nil ls =
    All-mono (λ l. drop_cr l ≡ l) (λ l. drop_cr (l ++ []) ≡ l)
      (λ l e. ap drop_cr (append-nil l) ∙ e) ls

-- Lines without a line feed that are written under `\r\n` are read back, whatever else they hold; under
-- `\n`, if no line ends in `\r`.
pub split_lines-append_lines :
    (ls : List Bytes)
    → All (All (λ c. c ≢ b'\n')) ls
    → (split_lines (append_lines (b'\r' ∷ b'\n' ∷ []) [] ls) ≡ ls)
      × (All (λ l. drop_cr l ≡ l) ls → split_lines (append_lines (b'\n' ∷ []) [] ls) ≡ ls)
unfolding split_lines
split_lines-append_lines ls h = (
  ap (λ t. split_loop t []) (append_lines-ended (b'\r' ∷ b'\n' ∷ []) [] ls)
      ∙ split_ended (b'\r' ∷ []) ls (omega arith) h (All-lines ls),
  λ d.
      ap (λ t. split_loop t []) (append_lines-ended (b'\n' ∷ []) [] ls)
      ∙ split_ended [] ls tt h (All-lines_nil ls d),
)
