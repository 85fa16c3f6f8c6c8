-- ===== src/SyncEngine/UploadCases.antt =====
-- plugin/src/SyncEngine.cpp: how a result of `uploadFile` is taken apart.
use notepadpp_sync.Prelude.{
  ◌≡◌, refl, ℕ, Bool, true, false, Option, none, some, List, [], ◌∷◌, ◌==◌, ltb, length, Bytes,
  codes, ◌||◌,
}
use notepadpp_sync.Prelude.Results.{by_value, by_none, by_cond, by_option}
use notepadpp_sync.VersionVector.{VersionVector}
use notepadpp_sync.VersionVector.Json.{from_json}
use notepadpp_sync.LocalDb.{LocalDb, upsert_file, get_file}
use notepadpp_sync.SyncEngine.{Env}
use notepadpp_sync.SyncEngine.Payload.{Payload, Draws, build_file_payload}
use notepadpp_sync.SyncEngine.Upload.{
  Current, UploadAnswer, no_reply, reply, Request, create_file, update_file, Server, Upload,
  upload_failed, handle_conflict,
}
use notepadpp_sync.SyncEngine.UploadFile.{
  unchanged, base_of, uploaded_state, prepend_request, upload_accepted, upload_answered,
  upload_payload, upload_changed, upload_content, upload_file,
}

module _ (env : Env) (draws : Draws) (server : Server) (key abs : Bytes) (db : LocalDb) where
  -- What every result of `uploadFile` is shown to be: a property of the failures, of the results of a
  -- conflict, of the unchanged file, and of an accepted upload.
  module _ {ℓ} (P : Upload → Type ℓ) (u : Upload) where
    after_prepend :
        (r : Request) (o : Option Upload)
        → ((c : Upload) → o ≡ some c → P (record c { requests = r ∷ c.requests }))
        → prepend_request env draws server key abs db r o ≡ some u
        → P u
    after_prepend r none h = by_none P u
    after_prepend r (some c) h = by_value P u _ (h c refl)

    module _
        (on_failure : (online : Bool) (message : Bytes) (rs : List Request)
          → P (upload_failed online db message rs))
        (on_conflict : (r : Request) (cur : Current) (c : Upload)
          → handle_conflict env draws server true key abs db cur ≡ some c
          → P (record c { requests = r ∷ c.requests }))
        (plaintext : Bytes)
        (on_accepted : (p : Payload) (r : Request) (version : Option ℕ) (vv : VersionVector)
          → from_json p.version_vector ≡ some vv
          → P (record {
            ok = true;
            error_out = [];
            online = true;
            db =
                upsert_file
                  (uploaded_state (get_file db key) key (env.sha256_hex plaintext) p version vv)
                  db;
            effects = [];
            shadows = (key, plaintext) ∷ [];
            requests = r ∷ [];
          })) where
      by_answer :
          (p : Payload) (r : Request) (a : UploadAnswer)
          → upload_answered env draws server key abs db plaintext p r a ≡ some u
          → P u
      unfolding upload_answered upload_accepted
      by_answer p r no_reply = by_value P u _ (on_failure false (codes "offline") (r ∷ []))
      by_answer p r (reply status version message cur) =
          by_cond P u (status == 200 || status == 201) _ _
            (λ _.
              by_option P u (from_json p.version_vector) none _ (λ _. by_none P u)
                (λ vv e. by_value P u _ (on_accepted p r version vv e)))
            (λ _.
              by_cond P u (status == 409) _ _
                (λ _.
                  after_prepend r (handle_conflict env draws server true key abs db cur)
                    (on_conflict r cur))
                (λ _. by_value P u _ (on_failure true _ (r ∷ []))))

      by_payload :
          (base : ℕ) (p : Payload)
          → upload_payload env draws server key abs db plaintext base p ≡ some u
          → P u
      unfolding upload_payload
      by_payload base p =
          by_cond P u (base == 0) _ _ (λ _. by_answer p (create_file p) (server.on_create p))
            (λ _. by_answer p (update_file p.file_id p) (server.on_update p.file_id p))

      pub by_changed : upload_changed env draws server key abs db plaintext ≡ some u → P u
      unfolding upload_changed
      by_changed =
          by_option P u
            (build_file_payload env draws key plaintext (base_of (get_file db key)).0
              (base_of (get_file db key)).1 (get_file db key))
            none _ (λ _. by_none P u) (λ p _. by_payload (base_of (get_file db key)).0 p)

    pub by_content :
        (online : Bool) (plaintext : Bytes)
        → P (upload_failed online db (codes "file exceeds max size") [])
        → (ltb server.max_file_bytes (length plaintext) ≡ false
            → unchanged (get_file db key) (env.sha256_hex plaintext) ≡ true
            → P (record {
              ok = true;
              error_out = [];
              online = online;
              db = db;
              effects = [];
              shadows = [];
              requests = [];
            }))
        → (ltb server.max_file_bytes (length plaintext) ≡ false
            → upload_changed env draws server key abs db plaintext ≡ some u
            → P u)
        → upload_content env draws server key abs db online plaintext ≡ some u
        → P u
    unfolding upload_content
    by_content online plaintext on_large on_unchanged on_changed =
        by_cond P u (ltb server.max_file_bytes (length plaintext)) _ _
          (λ _. by_value P u _ on_large)
          (λ fits.
            by_cond P u (unchanged (get_file db key) (env.sha256_hex plaintext)) _ _
              (λ same. by_value P u _ (on_unchanged fits same)) (λ _. on_changed fits))

    pub by_file :
        (online : Bool)
        → ((message : Bytes) → P (upload_failed online db message []))
        → ((plaintext : Bytes)
            → length env.master_key == 32 ≡ true
            → env.read_file abs ≡ some plaintext
            → upload_content env draws server key abs db online plaintext ≡ some u
            → P u)
        → upload_file env draws server key abs db online ≡ some u
        → P u
    unfolding upload_file
    by_file online on_failure on_content =
        by_cond P u (length env.master_key == 32) _ _
          (λ keyed.
            by_option P u (env.read_file abs) _ _ (λ _. by_value P u _ (on_failure _))
              (λ plaintext read. on_content plaintext keyed read))
          (λ _. by_value P u _ (on_failure _))
