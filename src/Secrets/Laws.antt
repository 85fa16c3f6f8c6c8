-- ===== src/Secrets/Laws.antt =====
-- plugin/src/Settings.cpp: what is loaded after a secret was saved or deleted.
use notepadpp_sync.Prelude.{
  ◌≡◌, refl, ◌∙◌, Bool, true, false, none, some, [], ◌∷◌, if◌then◌else◌, arith, Bytes, str_eq,
  str_eq_iff, str_eq_refl,
}
use notepadpp_sync.LocalDb.{upsert, select_row, delete_rows}
use notepadpp_sync.Secrets.{Secrets, named, save_secret, load_secret, delete_secret}

select_row-upsert :
    (m n value : Bytes) (s : Secrets)
    → select_row (named m) (upsert (named n) (λ (j, _). (j, value)) (n, value) s)
      ≡ (if str_eq m n then some (n, value) else select_row (named m) s)
unfolding select_row upsert
select_row-upsert m n value [] = ground (arith, str_eq_iff n m, str_eq_iff m n)
select_row-upsert m n value ((j, w) ∷ s) =
    ground (arith, str_eq_iff j n, str_eq_iff j m, str_eq_iff m n, select_row-upsert m n value s)

select_row-delete_rows :
    (m n : Bytes) (s : Secrets)
    → select_row (named m) (delete_rows (named n) s)
      ≡ (if str_eq m n then none else select_row (named m) s)
unfolding select_row delete_rows
select_row-delete_rows m n [] = ground arith
select_row-delete_rows m n ((j, w) ∷ s) =
    ground (arith, str_eq_iff j n, str_eq_iff j m, str_eq_iff m n, select_row-delete_rows m n s)

-- A secret that could be saved is loaded, and the others are as before.
pub load_secret-save_secret :
    (saves : Bytes → Bool) (m n value : Bytes) (s : Secrets)
    → saves n ≡ true
    → load_secret m (save_secret saves n value s).1
      ≡ (if str_eq m n then some value else load_secret m s)
unfolding load_secret save_secret
load_secret-save_secret saves m n value s e = rw e (ground (arith, select_row-upsert m n value s))

-- A secret that could be deleted is gone, and the others are as before.
pub load_secret-delete_secret :
    (deletes : Bytes → Bool) (m n : Bytes) (s : Secrets)
    → deletes n ≡ true
    → load_secret m (delete_secret deletes n s).1 ≡ (if str_eq m n then none else load_secret m s)
unfolding load_secret delete_secret
load_secret-delete_secret deletes m n s e = rw e (ground (arith, select_row-delete_rows m n s))

pub save_secret_returns :
    (saves : Bytes → Bool) (n value : Bytes) (s : Secrets)
    → (save_secret saves n value s).0 ≡ saves n
unfolding save_secret
save_secret_returns saves n value s = ground arith

pub load_secret_other :
    (deletes : Bytes → Bool) (m n : Bytes) (s : Secrets)
    → deletes n ≡ true
    → str_eq m n ≡ false
    → load_secret m (delete_secret deletes n s).1 ≡ load_secret m s
load_secret_other deletes m n s d e = load_secret-delete_secret deletes m n s d ∙ rw e refl

pub load_secret_deleted :
    (deletes : Bytes → Bool) (n : Bytes) (s : Secrets)
    → deletes n ≡ true
    → load_secret n (delete_secret deletes n s).1 ≡ none
load_secret_deleted deletes n s d =
    load_secret-delete_secret deletes n n s d ∙ rw (str_eq_refl n) refl

pub load_secret_saved :
    (saves : Bytes → Bool) (n value : Bytes) (s : Secrets)
    → saves n ≡ true
    → load_secret n (save_secret saves n value s).1 ≡ some value
load_secret_saved saves n value s e =
    load_secret-save_secret saves n n value s e ∙ rw (str_eq_refl n) refl

pub load_secret_unsaved :
    (saves : Bytes → Bool) (m n value : Bytes) (s : Secrets)
    → saves n ≡ true
    → str_eq m n ≡ false
    → load_secret m (save_secret saves n value s).1 ≡ load_secret m s
load_secret_unsaved saves m n value s e d = load_secret-save_secret saves m n value s e ∙ rw d refl
