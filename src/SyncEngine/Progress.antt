-- ===== src/SyncEngine/Progress.antt =====
-- plugin/src/SyncEngine.cpp: what a pass of `workerLoop` does to the queue.
use mathlib.Core.Option.{some-injective}
use notepadpp_sync.Prelude.{
  ◌<◌, ◌≤◌, ◌≡◌, inl, inr, refl, sym, ◌∙◌, ap, subst, Bool, true, false, none, some, List, [], ◌∷◌,
  ◌++◌, append_assoc, arith, ◌==◌, Bytes, All, All-append, All-mono, Bool-cases,
}
use notepadpp_sync.Prelude.Results.{by_value, by_none, by_cond, by_option}
use notepadpp_sync.LocalDb.{LocalDb, PendingOp, list_pending_ops}
use notepadpp_sync.LocalDb.Queue.{Before, Queued, IsQueue}
use notepadpp_sync.LocalDb.Rows.{Others}
use notepadpp_sync.SyncEngine.Worker.{World, process_pending_op, process_ops, worker_pass}
use notepadpp_sync.SyncEngine.Fates.{aged, true_not_false, Fate, process_pending_op-Left}

-- What a pass leaves of a queue: an operation is gone, or it failed once more and had not failed more than
-- 25 times.
pub data Aged : List PendingOp → List PendingOp → Type 0 where
  aged_nil : Aged [] []
  aged_gone : {ops rest : List PendingOp} (o : PendingOp) → Aged ops rest → Aged (o ∷ ops) rest
  aged_kept :
      {ops rest : List PendingOp} (o : PendingOp) (err : Bytes)
      → o.retry_count ≤ 25
      → Aged ops rest
      → Aged (o ∷ ops) (aged o err ∷ rest)

-- The ids of all operations of the first queue are below the id.
abbrev Ahead : List PendingOp → PendingOp → Type 0
Ahead ops p = All (λ o. o.id < p.id) ops

Others-Ahead : (p : PendingOp) (ops : List PendingOp) → Ahead ops p → Others p.id ops
Others-Ahead p = All-mono (λ o. o.id < p.id) (λ o. (o.id == p.id) ≡ false) (λ o h. grind arith)

Others-Before : (p : PendingOp) (ops : List PendingOp) → All (Before p) ops → Others p.id ops
Others-Before p = All-mono (Before p) (λ o. (o.id == p.id) ≡ false) (λ o h. grind arith)

stays_offline :
    (world : PendingOp → World) (ops : List PendingOp) (db : LocalDb) (r : Bool × LocalDb)
    → process_ops world ops false db ≡ some r
    → r.0 ≡ false
unfolding process_ops
stays_offline world [] db r e = sym (ap (λ (r : Bool × LocalDb). r.0) (some-injective _ _ e))
stays_offline world (op ∷ ops) db r e =
    sym (ap (λ (r : Bool × LocalDb). r.0) (some-injective _ _ e))

Fate-Aged :
    (op : PendingOp) (kept ops rest : List PendingOp)
    → Fate op kept
    → Aged ops rest
    → Aged (op ∷ ops) (kept ++ rest)
Fate-Aged op kept ops rest (inl e) h = rw e (aged_gone op h)
Fate-Aged op kept ops rest (inr (few, err, e)) h = rw e (aged_kept op err few h)

Fate-Ahead :
    (op : PendingOp) (kept : List PendingOp) (p : PendingOp)
    → Fate op kept
    → op.id < p.id
    → Ahead kept p
Fate-Ahead op kept p (inl e) h = rw e tt
Fate-Ahead op kept p (inr (few, err, e)) h = rw e (h, tt)

Ahead-append :
    (op : PendingOp) (done kept ops : List PendingOp)
    → Fate op kept
    → All (Ahead done) ops
    → All (Before op) ops
    → All (Ahead (done ++ kept)) ops
Ahead-append op done kept [] f h b = tt
Ahead-append op done kept (p ∷ ops) f (a, h) ((lt, _), b) = (
  All-append (λ o. o.id < p.id) done kept a (Fate-Ahead op kept p f lt),
  Ahead-append op done kept ops f h b,
)

-- What a pass that stays online leaves behind the operations that it has dealt with.
abbrev Passed : List PendingOp → List PendingOp → LocalDb → Bool × LocalDb → Type 0
Passed ops done db r =
    r.0 ≡ true
    → (rest : List PendingOp) × Aged ops rest
      × (r.1.pending_ops ≡ done ++ rest)
      × (r.1.next_id ≡ db.next_id)

process_ops-Passed :
    (world : PendingOp → World) (ops done : List PendingOp) (online : Bool) (db : LocalDb)
    (r : Bool × LocalDb)
    → db.pending_ops ≡ done ++ ops
    → Queued ops
    → All (Ahead done) ops
    → process_ops world ops online db ≡ some r
    → Passed ops done db r
unfolding process_ops
process_ops-Passed world [] done online db r e q a =
    by_value (Passed [] done db) r (online, db) (λ on. ([], aged_nil, e, refl))
process_ops-Passed world (op ∷ ops) done online db r e (b, q) (a, ahead) =
    by_cond (Passed (op ∷ ops) done db) r online _ _
      (λ _.
        by_option (Passed (op ∷ ops) done db) r (process_pending_op (world op) op online db) none _
          (λ _. by_none (Passed (op ∷ ops) done db) r)
          (λ s step next on.
            let live : s.online ≡ true = elim (Bool-cases s.online) [
              | inl t ↦ t
              | inr f ↦ absurd (
                  true_not_false (
                    sym on
                    ∙ stays_offline world ops s.db r
                        (subst (λ o. process_ops world ops o s.db ≡ some r) f next)))
            ] in
            let (kept, fate, left, same) =
              process_pending_op-Left (world op) op online done ops db s (Others-Ahead op done a)
                (Others-Before op ops b) e step live in
            let (rest, h, behind, same') =
              process_ops-Passed world ops (done ++ kept) s.online s.db r
                (left ∙ sym (append_assoc done kept ops)) q
                (Ahead-append op done kept ops fate ahead b) next on in
            (
              kept ++ rest,
              Fate-Aged op kept ops rest fate h,
              behind ∙ append_assoc done kept rest,
              same' ∙ same,
            )))
      (λ off.
        by_value (Passed (op ∷ ops) done db) r (online, db)
          (λ on. absurd (true_not_false (sym on ∙ off))))

Ahead-nil : (ops : List PendingOp) → All (Ahead []) ops
Ahead-nil [] = tt
Ahead-nil (o ∷ ops) = (tt, Ahead-nil ops)

-- A pass over the queue at whose end the server can still be reached: each operation is gone, or failed once
-- more and had not failed more than 25 times, and nothing else is queued.
pub worker_pass-Aged :
    (world : PendingOp → World) (db db' : LocalDb)
    → IsQueue db
    → worker_pass world true true db ≡ some (true, db')
    → Aged db.pending_ops db'.pending_ops × (db'.next_id ≡ db.next_id)
unfolding worker_pass list_pending_ops
worker_pass-Aged world db db' (_, q) e =
    let (rest, h, left, same) =
      process_ops-Passed world db.pending_ops [] true db (true, db') refl q
        (Ahead-nil db.pending_ops) e refl in
    (subst (Aged db.pending_ops) (sym left) h, same)
