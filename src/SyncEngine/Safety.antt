-- ===== src/SyncEngine/Safety.antt =====
-- plugin/src/SyncEngine.cpp: where `applyRemoteFile` writes, and what it leaves when it fails.
use notepadpp_sync.Prelude.{
  ◌≡◌, ◌⊎◌, refl, subst, Bool, true, false, not, Option, none, some, [], ◌∷◌, arith, if◌then◌else◌,
  Bytes, codes, str_eq, All, All-append, Option-cases, Bool-cases, inl, inr,
}
use notepadpp_sync.Crypto.Base64.{base64_url_decode}
use notepadpp_sync.Crypto.Envelope.{decrypt}
use notepadpp_sync.PathUtil.{normalize_relative}
use notepadpp_sync.LocalDb.{LocalDb, LocalFileState, list_sync_roots, get_file, all_files}
use notepadpp_sync.SyncEngine.{
  written, write_fails, Env, FileBody, Answer, unreachable, refused, fetched, Effect, Outcome,
  backup, remove, make_dirs, notify, write,
}
use notepadpp_sync.SyncEngine.Paths.{abs_path_for_rel, known_key, new_key}
use notepadpp_sync.SyncEngine.Apply.{
  conflict_copy, apply_delete, unsynchronized, record_conflict, stored_state, replace_file,
  apply_plain, apply_content, is_current, apply_state, apply_key, apply_norm, apply_meta,
  apply_body, apply_remote_file,
}

-- What holds of the outcome, if there is one.
module _ (P : Outcome → Type 0) where
  abbrev pub Holds : Option Outcome → Type 0
  Holds none = Unit
  Holds (some o) = P o

  Holds-elim {ℓ} :
      {A : Type ℓ} (o : Option A) (x : Option Outcome) (g : A → Option Outcome)
      → Holds x
      → ((a : A) → Holds (g a))
      → Holds (elim o [ none ↦ x | some a ↦ g a ])
  Holds-elim none x g h k = h
  Holds-elim (some a) x g h k = k a

  Holds-if : (b : Bool) (x y : Option Outcome) → Holds x → Holds y → Holds (if b then x else y)
  Holds-if true x y h k = h
  Holds-if false x y h k = k

  pub holds_of : (o : Option Outcome) (out : Outcome) → Holds o → o ≡ some out → P out
  holds_of none out h e = cc
  holds_of (some o) out h e = let q : o ≡ out = ground arith in subst P q h

-- The path that an effect is about.
abbrev pub target : Effect → Bytes
target (backup p) = p
target (remove p) = p
target (make_dirs p) = p
target (notify p) = p
target (write p _) = p
target (write_fails p) = p

-- The effect is about the path that some key stands for, or about the conflict copy beside it.
abbrev pub Mapped : Env → LocalDb → Effect → Type 0
Mapped env db e =
    (key : Bytes) × (abs : Bytes) × (abs_path_for_rel env db key ≡ some abs)
    × ((target e ≡ abs) ⊎ (target e ≡ conflict_copy abs))

abbrev pub AllMapped : Env → LocalDb → Outcome → Type 0
AllMapped env db o = All (Mapped env db) o.effects

module _ (env : Env) (file_id : Bytes) (f : FileBody) (db : LocalDb) where
  module _ (key abs : Bytes) (st : Option LocalFileState)
      (m : abs_path_for_rel env db key ≡ some abs) where
    at_path : (e : Effect) → target e ≡ abs → Mapped env db e
    at_path e q = (key, abs, m, inl q)

    at_copy : (e : Effect) → target e ≡ conflict_copy abs → Mapped env db e
    at_copy e q = (key, abs, m, inr q)

    before-Mapped :
        All (Mapped env db) (make_dirs abs ∷ (if env.exists abs then backup abs ∷ [] else []))
    before-Mapped = elim (Bool-cases (env.exists abs)) [
      | inl e ↦ rw e (at_path (make_dirs abs) refl, (at_path (backup abs) refl, tt))
      | inr e ↦ rw e (at_path (make_dirs abs) refl, tt)
    ]

    copy-Mapped : (current : Bytes) → Mapped env db (written env (conflict_copy abs) current)
    copy-Mapped current = elim (Bool-cases (env.write_ok (conflict_copy abs) current)) [
      | inl e ↦ rw e (at_copy (write (conflict_copy abs) current) refl)
      | inr e ↦ rw e (at_copy (write_fails (conflict_copy abs)) refl)
    ]

    replace_mapped :
        (plain : Bytes) → Holds (AllMapped env db) (replace_file env file_id f db key abs st plain)
    unfolding replace_file
    replace_mapped plain =
        Holds-if (AllMapped env db) (not (env.write_ok abs plain)) _ _ before-Mapped (
          Holds-elim (AllMapped env db) (stored_state env file_id f db key abs st plain) none _ tt
            (λ nf.
              All-append (Mapped env db)
                (make_dirs abs ∷ (if env.exists abs then backup abs ∷ [] else [])) _ before-Mapped
                (at_path (write abs plain) refl, (at_path (notify abs) refl, tt))))

    delete_mapped : Holds (AllMapped env db) (apply_delete env file_id f db key abs st)
    unfolding apply_delete
    delete_mapped =
        Holds-elim (AllMapped env db) st _ _
          (at_path (backup abs) refl, (at_path (remove abs) refl, tt))
          (λ s. (at_path (backup abs) refl, (at_path (remove abs) refl, tt)))

    plain_mapped :
        (plain : Bytes) → Holds (AllMapped env db) (apply_plain env file_id f db key abs st plain)
    unfolding apply_plain record_conflict
    plain_mapped plain =
        Holds-elim (AllMapped env db) (unsynchronized env file_id f db key abs st) _ _
          (replace_mapped plain) (λ current. (copy-Mapped current, tt))

    content_mapped : Holds (AllMapped env db) (apply_content env file_id f db key abs st)
    unfolding apply_content
    content_mapped =
        Holds-elim (AllMapped env db) (base64_url_decode f.encrypted_content) _ _ tt (λ enc.
          Holds-if (AllMapped env db) (not (str_eq (env.sha256_hex enc) f.content_hash)) _ _ tt (
            Holds-elim (AllMapped env db) (decrypt env.gcm_open env.master_key enc (codes "file")) _
              _ tt (λ plain. plain_mapped plain)))

    state_mapped : Holds (AllMapped env db) (apply_state env file_id f db key abs st)
    unfolding apply_state
    state_mapped =
        Holds-if (AllMapped env db) (is_current st f.version) _ _ tt
          (Holds-if (AllMapped env db) f.is_deleted _ _ delete_mapped content_mapped)

  key_mapped : (norm key : Bytes) → Holds (AllMapped env db) (apply_key env file_id f db norm key)
  unfolding apply_key
  key_mapped norm key = elim (Option-cases (abs_path_for_rel env db key)) [
    | inl e ↦ rw (e, apply_key) tt
    | inr (abs, e) ↦
        rw (e, apply_key)
          (Holds-if (AllMapped env db) (env.ignored norm false) _ _ tt
            (state_mapped key abs (get_file db key) e))
  ]

  norm_mapped : (norm : Bytes) → Holds (AllMapped env db) (apply_norm env file_id f db norm)
  unfolding apply_norm
  norm_mapped norm = Holds-elim (AllMapped env db) (all_files db) _ _ tt (λ all.
      Holds-elim (AllMapped env db) (known_key env all norm) _ _
        (Holds-elim (AllMapped env db) (new_key env (list_sync_roots db) norm) _ _ tt
          (λ key. key_mapped norm key))
        (λ key. key_mapped norm key))

  body_mapped : Holds (AllMapped env db) (apply_body env file_id f db)
  unfolding apply_body apply_meta
  body_mapped =
      Holds-elim (AllMapped env db) (base64_url_decode f.encrypted_metadata) _ _ tt (λ enc.
        Holds-elim (AllMapped env db) (decrypt env.gcm_open env.master_key enc (codes "metadata")) _
          _ tt
          (λ meta. Holds-elim (AllMapped env db) (env.parse_path meta) _ _ tt (λ path.
            Holds-elim (AllMapped env db) path _ _ tt (λ rel.
              Holds-elim (AllMapped env db) (normalize_relative rel) _ _ tt
                (λ norm. norm_mapped norm)))))

pub answer_mapped :
    (env : Env) (file_id : Bytes) (a : Answer) (db : LocalDb)
    → Holds (AllMapped env db) (apply_remote_file env file_id a db)
unfolding apply_remote_file
answer_mapped env file_id unreachable db = tt
answer_mapped env file_id refused db = tt
answer_mapped env file_id (fetched f) db = body_mapped env file_id f db
