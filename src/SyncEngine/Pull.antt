-- ===== src/SyncEngine/Pull.antt =====
-- plugin/src/SyncEngine.cpp: `pullChanges`. Each change comes with what the engine is given when its turn
-- comes, and with the server's answer for its file.
use notepadpp_sync.Prelude.{
  ℕ, ◌≡◌, ◌<◌, refl, ◌∙◌, sym, ap, Bool, Option, none, some, List, [], ◌∷◌, arith, ltb,
  if◌then◌else◌, Bytes, codes, str_eq, str_eq_refl, Option-cases, Bool-cases, inl, inr,
}
use notepadpp_sync.VersionVector.Json.{to_string}
use notepadpp_sync.LocalDb.{LocalDb, upsert, select_row, set_meta, get_meta, set_last_change_seq}
use notepadpp_sync.SyncEngine.{Env, Answer}
use notepadpp_sync.SyncEngine.Apply.{apply_remote_file}

-- An element of "changes".
pub record Change : Type 0 where
  pub origin_device_id : Bytes
  pub change_file_id : Bytes
  pub given : Env
  pub answer : Answer

-- `ApiResponse` of `changesSince`: no transport, a status other than 200, or "latest_seq" and "changes" of a body that
-- has them and their members in their types. Where it does not, `value` throws before the number is stored; such a body
-- is no value of this type.
pub data Feed : Type 0 where
  feed_unreachable feed_refused : Feed
  changes_since : ℕ → List Change → Feed

-- The loop over the changes: those of this device are passed over, and the result of the others is not
-- looked at. `none` where `applyRemoteFile` throws, which ends `pullChanges`.
unfoldable pub apply_changes : Bytes → List Change → LocalDb → Option LocalDb
apply_changes device [] db = some db
apply_changes device (c ∷ cs) db =
    let own = apply_changes device cs db in
    let foreign : Option LocalDb = elim (apply_remote_file c.given c.change_file_id c.answer db) [
      | none ↦ none
      | some o ↦ apply_changes device cs o.db
    ] in
    if str_eq c.origin_device_id device then own else foreign

-- `pullChanges`, for a client with tokens and a master key: the database behind it.
unfoldable pub pull_changes : Bytes → Feed → LocalDb → Option LocalDb
pull_changes device feed_unreachable db = some db
pull_changes device feed_refused db = some db
pull_changes device (changes_since latest cs) db = elim (apply_changes device cs db) [
  | none ↦ none
  | some db' ↦ some (if ltb 0 latest then set_last_change_seq latest db' else db')
]

abbrev has_key : Bytes → Bytes × Bytes → Bool
has_key key (k, _) = str_eq k key

select_row-upsert_meta :
    (key value : Bytes) (rows : List (Bytes × Bytes))
    → (elim (select_row
        (λ (k, _). str_eq k key)
        (upsert (λ (k, _). str_eq k key) (λ (k, _). (k, value)) (key, value) rows)) [
          | none ↦ none
          | some (k, v) ↦ some v
        ])
      ≡ some value
unfolding select_row upsert
select_row-upsert_meta key value [] = ground (arith, str_eq_refl key)
select_row-upsert_meta key value ((k, v) ∷ rows) = elim (Bool-cases (str_eq k key)) [
  | inl e ↦ rw (e, select_row, upsert) (rw (e, select_row) refl)
  | inr e ↦ rw (e, select_row, upsert) (rw (e, select_row) (select_row-upsert_meta key value rows))
]

pub get_meta-set_meta :
    (key value : Bytes) (db : LocalDb) → get_meta (set_meta key value db) key ≡ some value
unfolding get_meta set_meta
get_meta-set_meta key value db = select_row-upsert_meta key value db.meta

-- Where the server answers with a positive last change number and `pullChanges` returns, the number that is stored behind
-- it is the server's: a change for which `applyRemoteFile` returned false is not asked for again.
pub pull_changes-get_meta :
    (device : Bytes) (latest : ℕ) (cs : List Change) (db db' : LocalDb)
    → 0 < latest
    → pull_changes device (changes_since latest cs) db ≡ some db'
    → get_meta db' (codes "last_change_seq") ≡ some (to_string latest)
unfolding pull_changes set_last_change_seq
pull_changes-get_meta device latest cs db db' positive e =
    elim (Option-cases (apply_changes device cs db)) [
      | inl q ↦ ground arith
      | inr (d, q) ↦
          let r : set_meta (codes "last_change_seq") (to_string latest) d ≡ db' = ground arith in
          ap (λ x. get_meta x (codes "last_change_seq")) (sym r)
          ∙ get_meta-set_meta (codes "last_change_seq") (to_string latest) d
    ]
