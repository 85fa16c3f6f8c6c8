-- ===== src/LocalDb/Queue.antt =====
-- plugin/src/LocalDb.cpp: the queue of pending operations.
use notepadpp_sync.Prelude.{
  ℕ, ◌+◌, ◌<◌, ◌≡◌, Bool, false, ◌&&◌, List, [], ◌∷◌, ◌++◌, arith, ◌==◌, Bytes, str_eq, str_eq_iff,
  All, All-append, All-mono, Bool-cases, inl, inr,
}
use notepadpp_sync.LocalDb.{
  PendingOp, LocalDb, delete_rows, update_rows, same_op, enqueue_op, remove_op, mark_op_failed,
}

-- An operation queued earlier than another, on another path or of another kind.
abbrev pub Before : PendingOp → PendingOp → Type 0
Before o p = (o.id < p.id) × (same_op o.kind o.op_path p ≡ false)

abbrev pub Queued : List PendingOp → Type 0
Queued [] = Unit
Queued (o ∷ ops) = All (Before o) ops × Queued ops

-- The ids rise and are below the next one, and no path has two operations of one kind.
abbrev pub IsQueue : LocalDb → Type 0
IsQueue db = All (λ o. o.id < db.next_id) db.pending_ops × Queued db.pending_ops

delete_rows-All :
    (P : PendingOp → Type 0) (goes : PendingOp → Bool) (ops : List PendingOp)
    → All P ops
    → All P (delete_rows goes ops)
unfolding delete_rows
delete_rows-All P goes [] h = tt
delete_rows-All P goes (o ∷ ops) (p, h) = elim (Bool-cases (goes o)) [
  | inl e ↦ rw e (delete_rows-All P goes ops h)
  | inr e ↦ rw e (p, delete_rows-All P goes ops h)
]

delete_rows-Queued :
    (goes : PendingOp → Bool) (ops : List PendingOp) → Queued ops → Queued (delete_rows goes ops)
unfolding delete_rows
delete_rows-Queued goes [] h = tt
delete_rows-Queued goes (o ∷ ops) (p, h) = elim (Bool-cases (goes o)) [
  | inl e ↦ rw e (delete_rows-Queued goes ops h)
  | inr e ↦ rw e (delete_rows-All (Before o) goes ops p, delete_rows-Queued goes ops h)
]

delete_rows_gone :
    (goes : PendingOp → Bool) (ops : List PendingOp)
    → All (λ o. goes o ≡ false) (delete_rows goes ops)
unfolding delete_rows
delete_rows_gone goes [] = tt
delete_rows_gone goes (o ∷ ops) = elim (Bool-cases (goes o)) [
  | inl e ↦ rw e (delete_rows_gone goes ops)
  | inr e ↦ rw e (e, delete_rows_gone goes ops)
]

Queued-append :
    (ops : List PendingOp) (o : PendingOp)
    → Queued ops
    → All (λ p. Before p o) ops
    → Queued (ops ++ o ∷ [])
Queued-append [] o q h = (tt, tt)
Queued-append (p ∷ ops) o (a, q) (b, h) =
    (All-append (Before p) ops (o ∷ []) a (b, tt), Queued-append ops o q h)

same_op_swap :
    (kind path : Bytes) (p : PendingOp)
    → same_op kind path p ≡ false
    → (str_eq path p.op_path && str_eq kind p.kind) ≡ false
unfolding same_op
same_op_swap kind path p h = ground (
  arith,
  str_eq_iff p.op_path path,
  str_eq_iff p.kind kind,
  str_eq_iff path p.op_path,
  str_eq_iff kind p.kind,
)

All-both :
    (P Q : PendingOp → Type 0) (ops : List PendingOp)
    → All P ops
    → All Q ops
    → All (λ o. P o × Q o) ops
All-both P Q [] p q = tt
All-both P Q (o ∷ ops) (p, ps) (q, qs) = ((p, q), All-both P Q ops ps qs)

-- `enqueueOp` keeps the ids rising and below the next one, and no path with two operations of one kind.
pub enqueue_op-IsQueue :
    (kind path new_path : Bytes) (now : ℕ) (db : LocalDb)
    → IsQueue db
    → IsQueue (enqueue_op kind path new_path now db)
unfolding enqueue_op same_op
enqueue_op-IsQueue kind path new_path now db (low, q) =
    let kept = delete_rows (same_op kind path) db.pending_ops in
    let o : PendingOp = record {
      id = db.next_id;
      kind = kind;
      op_path = path;
      new_rel_path = new_path;
      queued_at = now;
      retry_count = 0;
      last_error = [];
    } in
    let below : All (λ p. p.id < db.next_id) kept =
      delete_rows-All (λ p. p.id < db.next_id) (same_op kind path) db.pending_ops low in
    let other : All (λ p. same_op kind path p ≡ false) kept =
      delete_rows_gone (same_op kind path) db.pending_ops in
    (
      All-append (λ p. p.id < db.next_id + 1) kept (o ∷ [])
          (All-mono (λ p. p.id < db.next_id) (λ p. p.id < db.next_id + 1) (λ p h. omega arith) kept
            below)
          (omega arith, tt),
      Queued-append kept o (delete_rows-Queued (same_op kind path) db.pending_ops q) (
          All-mono (λ p. (p.id < db.next_id) × (same_op kind path p ≡ false)) (λ p. Before p o)
            (λ p (a, b). (a, same_op_swap kind path p b)) kept
            (All-both (λ p. p.id < db.next_id) (λ p. same_op kind path p ≡ false) kept below
              other)),
    )

-- `removeOp` keeps them so.
pub remove_op-IsQueue : (id : ℕ) (db : LocalDb) → IsQueue db → IsQueue (remove_op id db)
unfolding remove_op
remove_op-IsQueue id db (low, q) = (
  delete_rows-All (λ o. o.id < db.next_id) (λ o. o.id == id) db.pending_ops low,
  delete_rows-Queued (λ o. o.id == id) db.pending_ops q,
)

module _ (id : ℕ) (err : Bytes) where
  abbrev failed : PendingOp → PendingOp
  failed o = record o { retry_count = o.retry_count + 1; last_error = err }

  update_rows-All :
      (P : PendingOp → Type 0) (ops : List PendingOp)
      → ((o : PendingOp) → P o → P (failed o))
      → All P ops
      → All P (update_rows (λ o. o.id == id) failed ops)
  unfolding update_rows
  update_rows-All P [] f h = tt
  update_rows-All P (o ∷ ops) f (p, h) = elim (Bool-cases (o.id == id)) [
    | inl e ↦ rw e (f o p, update_rows-All P ops f h)
    | inr e ↦ rw e (p, update_rows-All P ops f h)
  ]

  update_rows-Queued :
      (ops : List PendingOp) → Queued ops → Queued (update_rows (λ o. o.id == id) failed ops)
  unfolding update_rows same_op
  update_rows-Queued [] h = tt
  update_rows-Queued (o ∷ ops) (p, h) = elim (Bool-cases (o.id == id)) [
    | inl e ↦ rw e (update_rows-All (Before o) ops (λ q b. b) p, update_rows-Queued ops h)
    | inr e ↦ rw e (update_rows-All (Before o) ops (λ q b. b) p, update_rows-Queued ops h)
  ]

  -- `markOpFailed` keeps the ids rising and below the next one, and no path with two operations of one kind.
  pub mark_op_failed-IsQueue : (db : LocalDb) → IsQueue db → IsQueue (mark_op_failed id err db)
  unfolding mark_op_failed
  mark_op_failed-IsQueue db (low, q) = (
    update_rows-All (λ o. o.id < db.next_id) db.pending_ops (λ o h. h) low,
    update_rows-Queued db.pending_ops q,
  )
