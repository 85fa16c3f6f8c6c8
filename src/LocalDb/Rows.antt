-- ===== src/LocalDb/Rows.antt =====
-- plugin/src/LocalDb.cpp: a statement by an id that one row has changes that row alone.
use notepadpp_sync.Prelude.{ℕ, ◌≡◌, refl, true, false, List, [], ◌∷◌, ◌++◌, ◌==◌, All}
use notepadpp_sync.LocalDb.{PendingOp, delete_rows, update_rows}

-- The operations before and behind the one with the id.
abbrev pub Others : ℕ → List PendingOp → Type 0
Others n = All (λ o. (o.id == n) ≡ false)

delete-Others :
    (n : ℕ) (ops : List PendingOp) → Others n ops → delete_rows (λ o. o.id == n) ops ≡ ops
unfolding delete_rows
delete-Others n [] h = refl
delete-Others n (o ∷ ops) (e, h) = rw (e, delete-Others n ops h) refl

update-Others :
    (n : ℕ) (change : PendingOp → PendingOp) (ops : List PendingOp)
    → Others n ops
    → update_rows (λ o. o.id == n) change ops ≡ ops
unfolding update_rows
update-Others n change [] h = refl
update-Others n change (o ∷ ops) (e, h) = rw (e, update-Others n change ops h) refl

pub delete_middle :
    (n : ℕ) (ops : List PendingOp) (o : PendingOp) (rest : List PendingOp)
    → Others n ops
    → (o.id == n) ≡ true
    → Others n rest
    → delete_rows (λ p. p.id == n) (ops ++ o ∷ rest) ≡ ops ++ rest
unfolding delete_rows
delete_middle n [] o rest h e k = rw (e, delete-Others n rest k) refl
delete_middle n (p ∷ ops) o rest (d, h) e k = rw (d, delete_middle n ops o rest h e k) refl

pub update_middle :
    (n : ℕ) (change : PendingOp → PendingOp) (ops : List PendingOp) (o : PendingOp)
    (rest : List PendingOp)
    → Others n ops
    → (o.id == n) ≡ true
    → Others n rest
    → update_rows (λ p. p.id == n) change (ops ++ o ∷ rest) ≡ ops ++ change o ∷ rest
unfolding update_rows
update_middle n change [] o rest h e k = rw (e, update-Others n change rest k) refl
update_middle n change (p ∷ ops) o rest (d, h) e k =
    rw (d, update_middle n change ops o rest h e k) refl
