-- ===== src/SyncEngine/Deletes.antt =====
-- plugin/src/SyncEngine.cpp: `deleteRemote`. A stored vector whose counter overflows counts as no row.
use notepadpp_sync.Prelude.Results.{by_value, by_none, by_cond, by_option}
use notepadpp_sync.Prelude.{
  ◌≢◌, ap, ◌∙◌, str_eq_iff, ==_iff, ℕ, ◌≡◌, ◌⊎◌, refl, Bool, true, false, ◌||◌, Option, none, some,
  [], arith, ◌==◌, if◌then◌else◌, Bytes, codes, str_eq, str_eq_refl, inl, inr,
}
use notepadpp_sync.LocalDb.{LocalDb, LocalFileState, get_file, remove_file}
use notepadpp_sync.LocalDb.Files.{get_file-remove_file}

-- `ApiResponse` of `deleteFile`: no transport, or a status and `value("message", "delete failed")` of the body, which
-- throws where the body is null or no object, or its message is no text.
pub data DeleteAnswer : Type 0 where
  no_transport : DeleteAnswer
  status : ℕ → Option Bytes → DeleteAnswer

pub record DeleteResult : Type 0 where
  pub done : Bool
  pub error_out : Bytes
  pub online : Bool
  pub after : LocalDb

-- The file is forgotten.
abbrev pub forgotten : Bool → Bytes → LocalDb → DeleteResult
forgotten online key db = record {
  done = true;
  error_out = [];
  online = online;
  after = remove_file key db;
}

-- A failure.
abbrev pub not_deleted : Bool → Bytes → LocalDb → DeleteResult
not_deleted online message db = record {
  done = false;
  error_out = message;
  online = online;
  after = db;
}

-- What follows the call; `none` where the code throws. The body is looked at only where the status is neither 200 nor
-- 404.
unfoldable pub after_answer : DeleteAnswer → Bytes → LocalDb → Option DeleteResult
after_answer no_transport key db = some (not_deleted false (codes "offline") db)
after_answer (status code message) key db =
    let failed : Option DeleteResult = elim message [
      | none ↦ none
      | some text ↦ some (not_deleted true text db)
    ] in
    if code == 200 || code == 404 then some (forgotten true key db) else failed

-- `deleteRemote`; `api` answers `deleteFile`.
unfoldable pub delete_remote : (Bytes → DeleteAnswer) → Bool → Bytes → LocalDb → Option DeleteResult
delete_remote api online key db = elim (get_file db key) [
  | none ↦ some (forgotten online key db)
  | some s ↦
      if str_eq s.file_id []
      then some (forgotten online key db)
      else after_answer (api s.file_id) key db
]

removed : (key : Bytes) (db : LocalDb) → get_file (remove_file key db) key ≡ none
removed key db = ground (arith, get_file-remove_file key db key, str_eq_refl key)

module _ (api : Bytes → DeleteAnswer) (key : Bytes) (db : LocalDb) where
  -- There is no file on the server, or the server deleted it or does not have it.
  abbrev pub IsGone : Type 0
  IsGone =
      (get_file db key ≡ none)
      ⊎ ((s : LocalFileState) × (get_file db key ≡ some s)
          × ((s.file_id ≡ [])
              ⊎ ((code : ℕ) × (message : Option Bytes) × (api s.file_id ≡ status code message)
                  × ((code ≡ 200) ⊎ (code ≡ 404)))))

  -- The server was not reached, or answered with another status.
  abbrev pub IsRefused : DeleteResult → Type 0
  IsRefused r =
      (s : LocalFileState) × (get_file db key ≡ some s)
      × (((api s.file_id ≡ no_transport) × (r.online ≡ false) × (r.error_out ≡ codes "offline"))
          ⊎ ((code : ℕ) × (api s.file_id ≡ status code (some r.error_out))
              × (code ≢ 200)
              × (code ≢ 404)
              × (r.online ≡ true)))

  abbrev pub Settled : DeleteResult → Type 0
  Settled r =
      ((r.done ≡ true) × IsGone × (r.after ≡ remove_file key db) × (get_file r.after key ≡ none))
      ⊎ ((r.done ≡ false) × IsRefused r × (r.after ≡ db))

  forgotten-Settled : (online : Bool) → IsGone → Settled (forgotten online key db)
  forgotten-Settled online gone = inl (refl, gone, refl, removed key db)

  after_answer-Settled :
      (r : DeleteResult) (s : LocalFileState) (a : DeleteAnswer)
      → get_file db key ≡ some s
      → api s.file_id ≡ a
      → after_answer a key db ≡ some r
      → Settled r
  unfolding after_answer
  after_answer-Settled r s no_transport known came =
      by_value Settled r _ (inr (refl, (s, known, inl (came, refl, refl)), refl))
  after_answer-Settled r s (status code message) known came =
      by_cond Settled r (code == 200 || code == 404) _ _
        (λ good.
          by_value Settled r _
            (forgotten-Settled true (inr (s, known, inr (code, message, came, is_good code good)))))
        (λ bad.
          by_option Settled r message none _ (λ _. by_none Settled r)
            (λ text told. by_value Settled r _ (
              inr (
                refl,
                (
                  s,
                  known,
                  inr (
                    code,
                    came ∙ ap (status code) told,
                    (is_bad code bad).0,
                    (is_bad code bad).1,
                    refl,
                  ),
                ),
                refl,
              ))))
    where
      is_good : (c : ℕ) → (c == 200 || c == 404) ≡ true → (c ≡ 200) ⊎ (c ≡ 404)
      is_good c e = ground (arith, ==_iff c 200, ==_iff c 404)

      is_bad : (c : ℕ) → (c == 200 || c == 404) ≡ false → (c ≢ 200) × (c ≢ 404)
      is_bad c e =
          ((λ p. ground (arith, ==_iff c 200)), (λ p. ground (arith, ==_iff c 200, ==_iff c 404)))

  -- Where `deleteRemote` returns, one of two things holds. It succeeds, the file is no longer known, and either it was not
  -- known or had no id, or the server answered its deletion with the status 200 or 404. Or it fails, the database is as
  -- before, and either the server was not reached and the client is offline, or it answered with another status and the
  -- error is its message.
  pub delete_remote_lem :
      (online : Bool) (r : DeleteResult) → delete_remote api online key db ≡ some r → Settled r
  unfolding delete_remote
  delete_remote_lem online r =
      by_option Settled r (get_file db key) _ _
        (λ unknown. by_value Settled r _ (forgotten-Settled online (inl unknown)))
        (λ s known.
          by_cond Settled r (str_eq s.file_id []) _ _
            (λ bare. by_value Settled r _ (
              forgotten-Settled online
                (inr (s, known, inl (ground (arith, str_eq_iff s.file_id []))))))
            (λ _. after_answer-Settled r s (api s.file_id) known refl))
