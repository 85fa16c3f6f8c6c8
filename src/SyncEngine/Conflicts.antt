-- ===== src/SyncEngine/Conflicts.antt =====
-- plugin/src/SyncEngine.cpp: what `handleConflict` does with the user's text.
use notepadpp_sync.Prelude.{
  ◌≢◌, ==_iff, Bool-cases, ◌≡◌, ◌⊎◌, inl, inr, refl, ◌∙◌, ap, ℕ, Bool, true, false, not, Option,
  none, some, List, [], ◌∷◌, ◌++◌, ◌==◌, Bytes, codes, str_eq, arith,
}
use notepadpp_sync.Prelude.Results.{by_value, by_none, by_cond, by_option}
use notepadpp_sync.Crypto.Base64.{base64_url_decode}
use notepadpp_sync.Crypto.Envelope.{decrypt}
use notepadpp_sync.Merge.{merge}
use notepadpp_sync.VersionVector.{VersionVector}
use notepadpp_sync.VersionVector.Json.{from_json}
use notepadpp_sync.LocalDb.{
  LocalDb, LocalFileState, ConflictState, get_file, upsert_file, add_conflict,
}
use notepadpp_sync.SyncEngine.{
  written, Env, FileBody, Answer, fetched, unreachable, refused, Effect,
}
use notepadpp_sync.SyncEngine.Payload.{Payload, Draws, build_file_payload}
use notepadpp_sync.SyncEngine.Upload.{
  Current, UploadAnswer, no_reply, reply, Request, Server, Upload, or_else, bak_copy, keep_local,
  merged_state, merge_effects, merge_answered, upload_merged, merge_texts, conflict_body,
  conflict_fetched, handle_conflict,
}

module _ (env : Env) (draws : Draws) (server : Server) (online : Bool) (key abs : Bytes)
    (db : LocalDb) where
  -- The text of the file, and the text that both sides had at last.
  abbrev pub local_text : Bytes
  local_text = or_else (env.read_file abs) []

  abbrev pub base_text : Bytes
  base_text = or_else (server.read_shadow key) []

  -- A failure: nothing was stored or written.
  abbrev pub IsFailed : Upload → Type 0
  IsFailed u = (u.ok ≡ false) × (u.db ≡ db) × (u.effects ≡ []) × (u.shadows ≡ [])

  -- What the server's file of the conflict holds.
  abbrev pub IsRemote : Current → Bytes → Type 0
  IsRemote cur remote_text =
      (f : FileBody) × (server.on_read cur.cur_file_id ≡ fetched f)
      × (enc : Bytes) × (base64_url_decode f.encrypted_content ≡ some enc)
      × (decrypt env.gcm_open env.master_key enc (codes "file") ≡ some remote_text)

  -- The request is the one for a text, on top of the server's version.
  abbrev pub IsSent : Current → Bytes → Payload → Type 0
  IsSent cur text p =
      (vv : VersionVector) × (from_json cur.cur_vector ≡ some vv)
      × (build_file_payload env draws key text cur.cur_version vv (get_file db key) ≡ some p)

  abbrev pub merged_text : Bytes → Bytes
  merged_text remote_text = (merge base_text local_text remote_text).merged

  -- Both sides' changes are in the text that was written over the file, and the server took it.
  abbrev pub IsMerged : Current → Upload → Type 0
  IsMerged cur u =
      (remote_text : Bytes) × IsRemote cur remote_text
      × ((merge base_text local_text remote_text).clean ≡ true)
      × (p : Payload) × IsSent cur (merged_text remote_text) p
      × (version : Option ℕ) × (message : Option Bytes) × (c : Current) × (server.on_update
            cur.cur_file_id p
          ≡ reply 200 version message c)
      × (env.write_ok abs (merged_text remote_text) ≡ true)
      × (u.effects ≡ merge_effects env draws server online key abs db (merged_text remote_text))
      × (u.shadows ≡ (key, merged_text remote_text) ∷ [])
      × (u.ok ≡ true)
      × (f : LocalFileState) × (merged_state env draws server online key abs db cur
            (merged_text remote_text) p.version_vector version
          ≡ some f)
      × (u.db ≡ upsert_file f db)

  -- The server was not reached by the request, or answered with a status other than 200.
  abbrev pub IsRefused : Current → Payload → Type 0
  IsRefused cur p =
      (server.on_update cur.cur_file_id p ≡ no_reply)
      ⊎ ((status : ℕ) × (status ≢ 200)
          × (version : Option ℕ) × (message : Option Bytes) × (c : Current) × (server.on_update
                cur.cur_file_id p
              ≡ reply status version message c))

  -- What was done before the copy is kept: nothing where the merge has conflicts, else the merged text was written and the
  -- server did not take it.
  abbrev pub IsBefore : Current → Bytes → List Effect → Type 0
  IsBefore cur remote_text es =
      (((merge base_text local_text remote_text).clean ≡ false) × (es ≡ []))
      ⊎ (((merge base_text local_text remote_text).clean ≡ true)
          × (es ≡ merge_effects env draws server online key abs db (merged_text remote_text))
          × (p : Payload) × IsSent cur (merged_text remote_text) p
          × IsRefused cur p)

  -- The last thing done is to write the user's text to the conflict copy, which may fail unnoticed, and the conflict is
  -- on record.
  abbrev pub IsKept : Current → Upload → Type 0
  IsKept cur u =
      (remote_text : Bytes) × IsRemote cur remote_text
      × (es : List Effect) × IsBefore cur remote_text es
      × (c : ConflictState) × (u.effects
          ≡ es ++ written env (bak_copy env draws server online key abs db) local_text ∷ [])
      × (u.db ≡ add_conflict c env.now db)
      × (c.conflict_path ≡ key)
      × (c.conflict_file ≡ cur.cur_file_id)
      × (c.conflict_version ≡ cur.cur_version)
      × (c.local_copy_path ≡ env.wide_to_utf8 (bak_copy env draws server online key abs db))
      × (u.ok ≡ true)

  abbrev pub Handled : Current → Upload → Type 0
  Handled cur u = IsFailed u ⊎ IsMerged cur u ⊎ IsKept cur u

  not-false : {b : Bool} → not b ≡ false → b ≡ true
  not-false {b} e = elim (Bool-cases b) [ inl t ↦ t | inr f ↦ ground arith ]

  kept :
      (cur : Current) (remote_text : Bytes) (es : List Effect) (rs : List Request)
      → IsRemote cur remote_text
      → IsBefore cur remote_text es
      → Handled cur (keep_local env draws server online key abs db cur local_text es rs)
  unfolding keep_local
  kept cur remote_text es rs h b =
      inr (inr (remote_text, h, es, b, _, refl, refl, refl, refl, refl, refl, refl))

  module _ (cur : Current) (u : Upload) where
    merge_answered-Handled :
        (remote_text : Bytes) (p : Payload) (a : UploadAnswer)
        → IsRemote cur remote_text
        → (merge base_text local_text remote_text).clean ≡ true
        → env.write_ok abs (merged_text remote_text) ≡ true
        → IsSent cur (merged_text remote_text) p
        → server.on_update cur.cur_file_id p ≡ a
        → merge_answered env draws server online key abs db cur local_text
            (merged_text remote_text)
            p
            a
          ≡ some u
        → Handled cur u
    unfolding merge_answered
    merge_answered-Handled remote_text p no_reply h clean wrote built sent =
        by_value (Handled cur) u _
          (kept cur remote_text _ _ h (inr (clean, refl, p, built, inl sent)))
    merge_answered-Handled remote_text p (reply status version message c) h clean wrote built sent =
        by_cond (Handled cur) u (status == 200) _ _
          (λ ok.
            by_option (Handled cur) u
              (merged_state env draws server online key abs db cur _ p.version_vector version) none
              _ (λ _. by_none (Handled cur) u)
              (λ f stored. by_value (Handled cur) u _ (
                inr (
                  inl (
                    remote_text,
                    h,
                    clean,
                    p,
                    built,
                    version,
                    message,
                    c,
                    accepted ok,
                    wrote,
                    refl,
                    refl,
                    refl,
                    f,
                    stored,
                    refl,
                  )))))
          (λ other. by_value (Handled cur) u _ (
            kept cur remote_text _ _ h (
              inr
                (clean, refl, p, built, inr (status, not_taken other, version, message, c, sent)))))
      where
        accepted :
            status == 200 ≡ true → server.on_update cur.cur_file_id p ≡ reply 200 version message c
        accepted ok = sent ∙ ap (λ s. reply s version message c) (grind arith)

        not_taken : status == 200 ≡ false → status ≢ 200
        not_taken other q = ground (arith, ==_iff status 200)

    upload_merged-Handled :
        (remote_text : Bytes)
        → IsRemote cur remote_text
        → (merge base_text local_text remote_text).clean ≡ true
        → upload_merged env draws server online key abs db cur local_text (merged_text remote_text)
          ≡ some u
        → Handled cur u
    unfolding upload_merged
    upload_merged-Handled remote_text h clean =
        by_cond (Handled cur) u (not (env.write_ok abs (merged_text remote_text))) _ _
          (λ _. by_value (Handled cur) u _ (inl (refl, refl, refl, refl)))
          (λ wrote.
            by_option (Handled cur) u (from_json cur.cur_vector) none _
              (λ _. by_none (Handled cur) u)
              (λ vv read.
                by_option (Handled cur) u
                  (build_file_payload env draws key (merged_text remote_text) cur.cur_version vv
                    (get_file db key))
                  none _ (λ _. by_none (Handled cur) u)
                  (λ p built.
                    merge_answered-Handled remote_text p (server.on_update cur.cur_file_id p) h
                      clean (not-false wrote) (vv, read, built) refl)))

    merge_texts-Handled :
        (remote_text : Bytes)
        → IsRemote cur remote_text
        → merge_texts env draws server online key abs db cur base_text local_text remote_text
          ≡ some u
        → Handled cur u
    unfolding merge_texts
    merge_texts-Handled remote_text h =
        by_cond (Handled cur) u (merge base_text local_text remote_text).clean _ _
          (upload_merged-Handled remote_text h)
          (λ torn. by_value (Handled cur) u _ (kept cur remote_text [] _ h (inl (torn, refl))))

    conflict_body-Handled :
        (f : FileBody)
        → server.on_read cur.cur_file_id ≡ fetched f
        → conflict_body env draws server online key abs db cur f ≡ some u
        → Handled cur u
    unfolding conflict_body
    conflict_body-Handled f came =
        by_option (Handled cur) u (base64_url_decode f.encrypted_content) _ _
          (λ _. by_value (Handled cur) u _ (inl (refl, refl, refl, refl)))
          (λ enc decoded.
            by_option (Handled cur) u (decrypt env.gcm_open env.master_key enc (codes "file")) _ _
              (λ _. by_value (Handled cur) u _ (inl (refl, refl, refl, refl)))
              (λ remote_text opened.
                merge_texts-Handled remote_text (f, came, enc, decoded, opened)))

    conflict_fetched-Handled :
        (a : Answer)
        → server.on_read cur.cur_file_id ≡ a
        → conflict_fetched env draws server online key abs db cur a ≡ some u
        → Handled cur u
    unfolding conflict_fetched
    conflict_fetched-Handled unreachable came =
        by_value (Handled cur) u _ (inl (refl, refl, refl, refl))
    conflict_fetched-Handled refused came =
        by_value (Handled cur) u _ (inl (refl, refl, refl, refl))
    conflict_fetched-Handled (fetched f) came = conflict_body-Handled f came

    -- Where `handleConflict` returns, one of three things holds. It fails, and nothing was stored or written. Or the
    -- text that the server's file of the conflict decrypts to merges without conflict with the user's text on top of the
    -- last common text, the merged text was written over the file, the server took the request built for it on top of
    -- its own version, and the state for it and its shadow were stored. Or that merge has conflicts, or was written over the
    -- file and the server did not take it, the last thing done is to write the user's text to the conflict copy, a write that may fail, and a
    -- conflict with the file, its version and the name of that copy was recorded.
    pub handle_conflict-Handled :
        handle_conflict env draws server online key abs db cur ≡ some u → Handled cur u
    unfolding handle_conflict
    handle_conflict-Handled =
        by_cond (Handled cur) u (str_eq cur.cur_file_id []) _ _
          (λ _. by_value (Handled cur) u _ (inl (refl, refl, refl, refl)))
          (λ _. conflict_fetched-Handled (server.on_read cur.cur_file_id) refl)
