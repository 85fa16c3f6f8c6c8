-- ===== src/Merge/Apply.antt =====
-- plugin/src/core/Merge.cpp: the edits of `diffLines` turn the one list of lines into the other.
use notepadpp_sync.Prelude.{
  ℕ, suc, ◌+◌, ◌-◌, ◌≤◌, ◌<◌, ◌≡◌, refl, sym, ap, ◌∙◌, subst, ◌&&◌, Option, none, some, List, [],
  ◌∷◌, ◌++◌, append-nil, append_assoc, arith, ltb, leb, length, take, drop, Bytes, str_eq,
  str_eq_iff, Bool-cases, inl, inr, ◌⊎◌, ◌*◌,
}
use notepadpp_sync.Merge.Diff.{
  Edit, enter, close_region, insert_lines, delete_rest, insert_rest, finish, walk, at, table,
  diff_lines, max_cells,
}

-- The edited lines, where `base` is what stands from `pos` on.
unfoldable pub apply_edits : ℕ → List Bytes → List Edit → List Bytes
apply_edits pos base [] = base
apply_edits pos base (e ∷ es) =
    take (e.a_start - pos) base ++ (e.lines ++ apply_edits e.a_end (drop (e.a_end - pos) base) es)

-- The edits lie between `lo` and `n`, each one behind the last with a line between them.
abbrev pub Between : ℕ → ℕ → List Edit → Type 0
Between lo n [] = Unit
Between lo n (e ∷ es) =
    (lo ≤ e.a_start) × (e.a_start ≤ e.a_end) × (e.a_end ≤ n) × Between (e.a_end + 1) n es

-- What `walk` owes where no region is open, and where one is.
abbrev Owes : Option Edit → ℕ → List Bytes → List Bytes → List Edit → Type 0
Owes none i from to es = Between i (i + length from) es × (apply_edits i from es ≡ to)
Owes (some cur) i from to [] = ⊥
Owes (some cur) i from to (e ∷ es) =
    (e.a_start ≡ cur.a_start)
    × (i ≤ e.a_end)
    × (e.a_end ≤ i + length from)
    × Between (e.a_end + 1) (i + length from) es
    × ((ls : List Bytes) × (e.lines ≡ cur.lines ++ ls)
        × (ls ++ apply_edits e.a_end (drop (e.a_end - i) from) es ≡ to))

take_suc :
    (x : Bytes) (xs : List Bytes) (s i : ℕ)
    → i < s
    → take (s - i) (x ∷ xs) ≡ x ∷ take (s - (i + 1)) xs
take_suc x xs s i h =
    ap (λ k. take k (x ∷ xs)) (let e : s - i ≡ suc (s - (i + 1)) = omega arith in e)

drop_suc :
    (x : Bytes) (xs : List Bytes) (s i : ℕ) → i < s → drop (s - i) (x ∷ xs) ≡ drop (s - (i + 1)) xs
drop_suc x xs s i h =
    ap (λ k. drop k (x ∷ xs)) (let e : s - i ≡ suc (s - (i + 1)) = omega arith in e)

apply_edits-cons :
    (i n : ℕ) (x : Bytes) (xs : List Bytes) (es : List Edit)
    → Between (i + 1) n es
    → apply_edits i (x ∷ xs) es ≡ x ∷ apply_edits (i + 1) xs es
unfolding apply_edits
apply_edits-cons i n x xs [] h = refl
apply_edits-cons i n x xs (e ∷ es) (a, b, c, h) =
    rw (take_suc x xs e.a_start i (omega arith), drop_suc x xs e.a_end i (omega arith))

pub Between-weaken : (lo lo' n : ℕ) (es : List Edit) → lo ≤ lo' → Between lo' n es → Between lo n es
Between-weaken lo lo' n [] h b = tt
Between-weaken lo lo' n (e ∷ es) h (p, q, r, b) = (omega arith, q, r, b)

Between-next :
    (lo i : ℕ) (x : Bytes) (from : List Bytes) (es : List Edit)
    → Between lo (i + 1 + length from) es
    → Between lo (i + length (x ∷ from)) es
Between-next lo i x from es = subst (λ n. Between lo n es) (omega arith)

-- Opening a region where none is open.
Owes-enter :
    (o : Option Edit) (i : ℕ) (from to : List Bytes) (es : List Edit)
    → Owes (some (enter o i)) i from to es
    → Owes o i from to es
unfolding enter apply_edits
Owes-enter (some cur) i from to es h = h
Owes-enter none i from to [] h = elim h [ ]
Owes-enter none i from to (e ∷ es) (s, a, b, c, (ls, l, p)) = (
  (omega arith, omega arith, b, c),
  ground (arith, ap (λ k. take k from) (let z : e.a_start - i ≡ 0 = omega arith in z)),
)

-- Closing a region that is open, at a line that stays.
Owes-close :
    (o : Option Edit) (i : ℕ) (x : Bytes) (from to : List Bytes) (es : List Edit)
    → Owes none (i + 1) from to es
    → Owes o i (x ∷ from) (x ∷ to) (close_region o i es)
unfolding close_region apply_edits
Owes-close none i x from to es (b, p) = (
  Between-weaken i (i + 1) _ es (omega arith) (Between-next (i + 1) i x from es b),
  apply_edits-cons i _ x from es b ∙ ap (λ t. x ∷ t) p,
)
Owes-close (some cur) i x from to es (b, p) = (
  refl,
  omega arith,
  omega arith,
  Between-next (i + 1) i x from es b,
  (
    [],
    sym (append-nil cur.lines),
    ap (λ k. apply_edits i (drop k (x ∷ from)) es) (let z : i - i ≡ 0 = omega arith in z)
        ∙ apply_edits-cons i _ x from es b
        ∙ ap (λ t. x ∷ t) p,
  ),
)

-- A line deleted in an open region.
Owes-delete :
    (cur : Edit) (i : ℕ) (x : Bytes) (from to : List Bytes) (es : List Edit)
    → Owes (some cur) (i + 1) from to es
    → Owes (some cur) i (x ∷ from) to es
Owes-delete cur i x from to [] h = elim h [ ]
Owes-delete cur i x from to (e ∷ es) (s, a, b, c, (ls, l, p)) = (
  s,
  omega arith,
  omega arith,
  Between-next (e.a_end + 1) i x from es c,
  (ls, l, ap (λ t. ls ++ apply_edits e.a_end t es) (drop_suc x from e.a_end i (omega arith)) ∙ p),
)

-- Lines inserted in an open region.
Owes-insert :
    (cur : Edit) (i : ℕ) (new from to : List Bytes) (es : List Edit)
    → Owes (some (insert_lines cur new)) i from to es
    → Owes (some cur) i from (new ++ to) es
unfolding insert_lines
Owes-insert cur i new from to [] h = elim h [ ]
Owes-insert cur i new from to (e ∷ es) (s, a, b, c, (ls, l, p)) = (
  s,
  a,
  b,
  c,
  (new ++ ls, l ∙ append_assoc cur.lines new ls, append_assoc new ls _ ∙ ap (λ t. new ++ t) p),
)

-- What is left behind the loop.
Owes-end : (o : Option Edit) (i : ℕ) → Owes o i [] [] (close_region o i [])
unfolding close_region apply_edits
Owes-end none i = (tt, refl)
Owes-end (some cur) i = (
  refl,
  omega arith,
  omega arith,
  tt,
  ([], sym (append-nil cur.lines), ap (λ k. drop k []) (let z : i - i ≡ 0 = omega arith in z)),
)

Owes-insert_rest :
    (o : Option Edit) (i : ℕ) (to : List Bytes)
    → Owes o i [] to (close_region (insert_rest o i to) i [])
unfolding insert_rest
Owes-insert_rest o i [] = Owes-end o i
Owes-insert_rest o i (y ∷ to) = Owes-enter o i [] (y ∷ to) _ (
    subst
      (λ t.
        Owes (some (enter o i)) i [] t
          (close_region (some (insert_lines (enter o i) (y ∷ to))) i []))
      (append-nil (y ∷ to))
      (Owes-insert (enter o i) i (y ∷ to) [] [] _
        (Owes-end (some (insert_lines (enter o i) (y ∷ to))) i)))

Owes-delete_all :
    (cur : Edit) (i : ℕ) (from to : List Bytes) (es : List Edit)
    → Owes (some cur) (i + length from) [] to es
    → Owes (some cur) i from to es
Owes-delete_all cur i [] to es h = subst (λ k. Owes (some cur) k [] to es) (omega arith) h
Owes-delete_all cur i (x ∷ from) to es h = Owes-delete cur i x from to es (
    Owes-delete_all cur (i + 1) from to es
      (subst (λ k. Owes (some cur) k [] to es) (omega arith) h))

Owes-finish :
    (o : Option Edit) (i : ℕ) (from to : List Bytes) → Owes o i from to (finish i from to o)
unfolding finish delete_rest
Owes-finish o i [] to =
    subst (λ k. Owes o i [] to (close_region (insert_rest o k to) k []))
      (let z : i ≡ i + 0 = omega arith in z) (Owes-insert_rest o i to)
Owes-finish o i (x ∷ from) to = Owes-enter o i (x ∷ from) to _ (
    Owes-delete_all (enter o i) i (x ∷ from) to _
      (Owes-insert_rest (some (enter o i)) (i + length (x ∷ from)) to))

Owes-walk :
    (dp : List (List ℕ)) (i j : ℕ) (from to : List Bytes) (o : Option Edit)
    → Owes o i from to (walk dp i j from to o)
unfolding walk
Owes-walk dp i j [] to o = Owes-finish o i [] to
Owes-walk dp i j (x ∷ from) [] o = Owes-finish o i (x ∷ from) []
Owes-walk dp i j (x ∷ from) (y ∷ to) o = elim (Bool-cases (str_eq x y)) [
  | inl e ↦
      rw (e, walk)
        (subst
          (λ z.
            Owes o i (x ∷ from) (z ∷ to) (close_region o i (walk dp (i + 1) (j + 1) from to none)))
          ((str_eq_iff x y).0 e)
          (Owes-close o i x from to _ (Owes-walk dp (i + 1) (j + 1) from to none)))
  | inr ne ↦ elim (Bool-cases (leb (at dp i (j + 1)) (at dp (i + 1) j))) [
    | inl d ↦
        rw (ne, d, walk)
          (Owes-enter o i (x ∷ from) (y ∷ to) _ (
            Owes-delete (enter o i) i x from (y ∷ to) _
              (Owes-walk dp (i + 1) j from (y ∷ to) (some (enter o i)))))
    | inr n ↦
        rw (ne, n, walk)
          (Owes-enter o i (x ∷ from) (y ∷ to) _ (
            Owes-insert (enter o i) i (y ∷ []) (x ∷ from) to _
              (Owes-walk dp i (j + 1) (x ∷ from) to (some (insert_lines (enter o i) (y ∷ []))))))
  ]
]

-- The edits that `diffLines` finds are in order and apart, and they turn the first text into the
-- second. It gives up on texts that are too large only.
pub diff_lines-apply :
    (from to : List Bytes)
    → ((diff_lines from to ≡ none) × (max_cells < length from * length to))
      ⊎ ((es : List Edit) × (diff_lines from to ≡ some es)
          × Between 0 (length from) es
          × (apply_edits 0 from es ≡ to))
unfolding diff_lines
diff_lines-apply from to =
    let (b, p) = Owes-walk (table from to) 0 0 from to none in
    let b' : Between 0 (length from) (walk (table from to) 0 0 from to none) =
      subst (λ n. Between 0 n (walk (table from to) 0 0 from to none)) (omega arith) b in
    elim (Bool-cases
      (ltb 0 (length from) && ltb 0 (length to) && ltb max_cells (length from * length to))) [
        | inl large ↦ inl (rw (large, diff_lines), ground arith)
        | inr fits ↦ inr (walk (table from to) 0 0 from to none, rw (fits, diff_lines), b', p)
      ]
