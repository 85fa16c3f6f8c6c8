-- ===== src/SyncEngine/Drain.antt =====
-- plugin/src/SyncEngine.cpp: the queue over several passes of `workerLoop`.
use notepadpp_sync.Prelude.{
  ℕ, zero, suc, ◌+◌, ◌<◌, ◌≤◌, ◌≡◌, refl, true, some, List, [], ◌∷◌, arith, subst, sym, Bytes, All,
  All-mono,
}
use notepadpp_sync.LocalDb.{LocalDb, PendingOp, same_op}
use notepadpp_sync.LocalDb.Queue.{Before, Queued, IsQueue}
use notepadpp_sync.SyncEngine.Worker.{World, worker_pass}
use notepadpp_sync.SyncEngine.Fates.{aged}
use notepadpp_sync.SyncEngine.Progress.{Aged, aged_nil, aged_gone, aged_kept, worker_pass-Aged}

-- Passes with a server that can be reached and nothing new in the queue.
pub data Passes : ℕ → LocalDb → LocalDb → Type 0 where
  no_pass : (db : LocalDb) → Passes 0 db db
  pass :
      {n : ℕ} {db db' db'' : LocalDb} (world : PendingOp → World)
      → worker_pass world true true db ≡ some (true, db')
      → Passes n db' db''
      → Passes (suc n) db db''

Aged-All :
    (P : PendingOp → Type 0)
    → ((o : PendingOp) (err : Bytes) → P o → P (aged o err))
    → {ops rest : List PendingOp} → Aged ops rest
    → All P ops
    → All P rest
Aged-All P step aged_nil h = tt
Aged-All P step (aged_gone o a) (p, h) = Aged-All P step a h
Aged-All P step (aged_kept o err few a) (p, h) = (step o err p, Aged-All P step a h)

Aged-Queued : {ops rest : List PendingOp} → Aged ops rest → Queued ops → Queued rest
unfolding same_op
Aged-Queued aged_nil q = tt
Aged-Queued (aged_gone o a) (b, q) = Aged-Queued a q
Aged-Queued (aged_kept o err few a) (b, q) =
    (Aged-All (Before o) (λ p err' h. h) a b, Aged-Queued a q)

-- The operations have failed a number of times at least.
abbrev Old : ℕ → List PendingOp → Type 0
Old n = All (λ o. n ≤ o.retry_count)

Aged-Old : (n : ℕ) {ops rest : List PendingOp} → Aged ops rest → Old n ops → Old (suc n) rest
Aged-Old n aged_nil h = tt
Aged-Old n (aged_gone o a) (p, h) = Aged-Old n a h
Aged-Old n (aged_kept o err few a) (p, h) = (omega arith, Aged-Old n a h)

Aged-last : {ops rest : List PendingOp} → Aged ops rest → Old 26 ops → rest ≡ []
Aged-last aged_nil h = refl
Aged-last (aged_gone o a) (p, h) = Aged-last a h
Aged-last (aged_kept o err few a) (p, h) = absurd (omega arith)

Aged-IsQueue :
    (db db' : LocalDb)
    → Aged db.pending_ops db'.pending_ops
    → db'.next_id ≡ db.next_id
    → IsQueue db
    → IsQueue db'
Aged-IsQueue db db' a same (below, q) = (
  subst (λ n. All (λ o. o.id < n) db'.pending_ops) (sym same)
      (Aged-All (λ o. o.id < db.next_id) (λ o err h. h) a below),
  Aged-Queued a q,
)

drain :
    (n k : ℕ) (db db' : LocalDb)
    → 26 ≤ n + k
    → IsQueue db
    → Old k db.pending_ops
    → Passes (suc n) db db'
    → db'.pending_ops ≡ []
drain zero k db db' h q old (pass world e (no_pass _)) =
    let (a, _) = worker_pass-Aged world db db' q e in
    Aged-last a (
      All-mono (λ o. k ≤ o.retry_count) (λ o. 26 ≤ o.retry_count) (λ o g. omega arith)
        db.pending_ops old)
drain (suc n) k db db' h q old (pass {db' = mid} world e rest) =
    let (a, same) = worker_pass-Aged world db mid q e in
    drain n (suc k) mid db' (omega arith) (Aged-IsQueue db mid a same q) (Aged-Old k a old) rest

-- After 27 passes of the worker that return, at each of whose ends the server can still be reached, and between which
-- nothing was queued, the queue is empty, whatever the server answered.
pub Passes-drain : (db db' : LocalDb) → IsQueue db → Passes 27 db db' → db'.pending_ops ≡ []
Passes-drain db db' q = drain 26 0 db db' (omega arith) q (All_zero db.pending_ops)
  where
    All_zero : (ops : List PendingOp) → Old 0 ops
    All_zero [] = tt
    All_zero (o ∷ ops) = (omega arith, All_zero ops)
