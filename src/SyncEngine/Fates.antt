-- ===== src/SyncEngine/Fates.antt =====
-- plugin/src/SyncEngine.cpp: what `processPendingOp` does to the queue.
use notepadpp_sync.Prelude.{
  subst, ◌+◌, ◌≤◌, ◌≡◌, ◌⊎◌, inl, inr, refl, sym, ◌∙◌, Bool, true, false, none, some, List, [], ◌∷◌,
  ◌++◌, arith, ltb, ◌==◌, ==_iff, Bytes, codes, str_eq, Bool-cases,
}
use notepadpp_sync.Prelude.Results.{by_value, by_none, by_cond, by_option}
use notepadpp_sync.LocalDb.{LocalDb, PendingOp, remove_file, remove_op, mark_op_failed}
use notepadpp_sync.LocalDb.Rows.{Others, delete_middle, update_middle}
use notepadpp_sync.SyncEngine.Paths.{abs_path_for_rel}
use notepadpp_sync.SyncEngine.Deletes.{delete_remote_lem, DeleteAnswer, DeleteResult, delete_remote}
use notepadpp_sync.SyncEngine.Upload.{Upload}
use notepadpp_sync.SyncEngine.Uploads.{SameQueue, upload_file-SameQueue}
use notepadpp_sync.SyncEngine.Worker.{World, Step, op_failed, op_result, run_op, process_pending_op}

-- The operation behind a failure.
abbrev pub aged : PendingOp → Bytes → PendingOp
aged o err = record o { retry_count = o.retry_count + 1; last_error = err }

pub true_not_false : true ≡ false → ⊥
true_not_false e = cc

delete-SameQueue :
    (api : Bytes → DeleteAnswer) (online : Bool) (key : Bytes) (db : LocalDb) (r : DeleteResult)
    → delete_remote api online key db ≡ some r
    → SameQueue db r.after
unfolding remove_file
delete-SameQueue api online key db r e = elim (delete_remote_lem api key db online r e) [
  | inl (_, _, after, _) ↦
      subst (λ d. SameQueue db d) {x = remove_file key db} (sym after) (refl, refl)
  | inr (_, _, after) ↦ subst (λ d. SameQueue db d) {x = db} (sym after) (refl, refl)
]

run_op-SameQueue :
    (w : World) (op : PendingOp) (online : Bool) (db : LocalDb) (u : Upload)
    → run_op w op online db ≡ some u
    → SameQueue db u.db
unfolding run_op
run_op-SameQueue w op online db u =
    by_cond (λ v. SameQueue db v.db) u (str_eq op.kind (codes "upload")) _ _
      (λ _.
        by_option (λ v. SameQueue db v.db) u (abs_path_for_rel w.env db op.op_path) _ _
          (λ _. by_value (λ v. SameQueue db v.db) u _ (refl, refl))
          (λ abs _. upload_file-SameQueue w.env w.draws w.server online op.op_path abs db u))
      (λ _.
        by_cond (λ v. SameQueue db v.db) u (str_eq op.kind (codes "delete")) _ _
          (λ _.
            by_option (λ v. SameQueue db v.db) u (delete_remote w.on_delete online op.op_path db)
              none _ (λ _. by_none (λ v. SameQueue db v.db) u)
              (λ r e.
                by_value (λ v. SameQueue db v.db) u _
                  (delete-SameQueue w.on_delete online op.op_path db r e)))
          (λ _. by_value (λ v. SameQueue db v.db) u _ (refl, refl)))

-- What is left of one operation.
abbrev pub Fate : PendingOp → List PendingOp → Type 0
Fate o kept = (kept ≡ []) ⊎ ((o.retry_count ≤ 25) × (err : Bytes) × (kept ≡ aged o err ∷ []))

module _ (op : PendingOp) (before behind : List PendingOp) (earlier : Others op.id before)
    (later : Others op.id behind) where
  same_id : (op.id == op.id) ≡ true
  same_id = ground (arith, ==_iff op.id op.id)

  removed :
      (u : LocalDb)
      → u.pending_ops ≡ before ++ op ∷ behind
      → (remove_op op.id u).pending_ops ≡ before ++ behind
  unfolding remove_op
  removed u e = rw e (delete_middle op.id before op behind earlier same_id later)

  failed :
      (u : LocalDb) (err : Bytes)
      → u.pending_ops ≡ before ++ op ∷ behind
      → (mark_op_failed op.id err u).pending_ops ≡ before ++ aged op err ∷ behind
  unfolding mark_op_failed
  failed u err e =
      rw e (update_middle op.id (λ o. aged o err) before op behind earlier same_id later)

  dropped :
      (u : LocalDb) (err : Bytes)
      → u.pending_ops ≡ before ++ op ∷ behind
      → (remove_op op.id (mark_op_failed op.id err u)).pending_ops ≡ before ++ behind
  unfolding remove_op
  dropped u err e =
      rw (failed u err e) (delete_middle op.id before (aged op err) behind earlier same_id later)

  goes_offline :
      (u : Upload)
      → u.ok ≡ false
      → str_eq u.error_out (codes "offline") ≡ true
      → (op_result op u).online ≡ false
  unfolding op_failed
  goes_offline u bad off = rw (bad, off) refl

  result-Fate :
      (u : Upload)
      → u.db.pending_ops ≡ before ++ op ∷ behind
      → (op_result op u).online ≡ true
      → (kept : List PendingOp) × Fate op kept
        × ((op_result op u).db.pending_ops ≡ before ++ (kept ++ behind))
  unfolding op_failed
  result-Fate u e on = elim (Bool-cases u.ok) [
    | inl ok ↦ rw ok ([], inl refl, removed u.db e)
    | inr bad ↦ elim (Bool-cases (str_eq u.error_out (codes "offline"))) [
      | inl off ↦ absurd (true_not_false (sym on ∙ goes_offline u bad off))
      | inr err ↦ elim (Bool-cases (ltb 25 op.retry_count)) [
        | inl many ↦ rw (bad, err, many) ([], inl refl, dropped u.db u.error_out e)
        | inr few ↦
            rw (bad, err, few)
              (
                aged op u.error_out ∷ [],
                inr (grind arith, u.error_out, refl),
                failed u.db u.error_out e,
              )
      ]
    ]
  ]

result-next_id : (op : PendingOp) (u : Upload) → (op_result op u).db.next_id ≡ u.db.next_id
unfolding op_failed remove_op mark_op_failed
result-next_id op u = elim (Bool-cases u.ok) [
  | inl ok ↦ rw ok refl
  | inr bad ↦ elim (Bool-cases (str_eq u.error_out (codes "offline"))) [
    | inl off ↦ rw (bad, off) refl
    | inr err ↦ elim (Bool-cases (ltb 25 op.retry_count)) [
      | inl many ↦ rw (bad, err, many) refl
      | inr few ↦ rw (bad, err, few) refl
    ]
  ]
]

-- What is left of an operation, between the others.
abbrev pub Left : PendingOp → List PendingOp → List PendingOp → LocalDb → Step → Type 0
Left op before behind db s =
    s.online ≡ true
    → (kept : List PendingOp) × Fate op kept
      × (s.db.pending_ops ≡ before ++ (kept ++ behind))
      × (s.db.next_id ≡ db.next_id)

pub process_pending_op-Left :
    (w : World) (op : PendingOp) (online : Bool) (before behind : List PendingOp) (db : LocalDb)
    (s : Step)
    → Others op.id before
    → Others op.id behind
    → db.pending_ops ≡ before ++ op ∷ behind
    → process_pending_op w op online db ≡ some s
    → Left op before behind db s
unfolding process_pending_op
process_pending_op-Left w op online before behind db s earlier later e =
    by_option (Left op before behind db) s (run_op w op online db) none _
      (λ _. by_none (Left op before behind db) s)
      (λ u ran.
        by_value (Left op before behind db) s _
          (λ on. left u (run_op-SameQueue w op online db u ran) on))
  where
    left : (u : Upload) → SameQueue db u.db → Left op before behind db (op_result op u)
    left u (same, next) on =
        let (kept, fate, q) = result-Fate op before behind earlier later u (same ∙ e) on in
        (kept, fate, q, result-next_id op u ∙ next)
