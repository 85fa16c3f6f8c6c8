-- ===== src/ApiClient/Requests/Persistence.antt =====
-- plugin/src/SyncEngine.cpp, `init`: the callback `onTokensRotated`, which keeps new tokens in the secrets.
use notepadpp_sync.Prelude.{
  ◌≡◌, inl, inr, refl, sym, ap, ◌∙◌, subst, Bool, true, Option, some, List, [], ◌∷◌, ◌++◌, Bytes,
  codes, str_eq, cmp,
}
use notepadpp_sync.Secrets.{Secrets, save_secret, load_secret}
use notepadpp_sync.Secrets.Laws.{load_secret_saved, load_secret_unsaved}
use notepadpp_sync.ApiClient.Requests.{Network, Client, sends, rotate, request}
use notepadpp_sync.ApiClient.Requests.Courses.{
  Course, nothing_sent, sent_once, refresh_failed, refreshed, request-Course,
}

module _ (saves : Bytes → Bool) where
  -- `api_->onTokensRotated`
  unfoldable pub on_tokens_rotated : Bytes × Bytes → Secrets → Secrets
  on_tokens_rotated (access, refresh) s =
      (save_secret saves (codes "refresh_token") refresh
        (save_secret saves (codes "access_token") access s).1).1

  -- The secrets behind the calls of the callback.
  unfoldable pub persisted : List (Bytes × Bytes) → Secrets → Secrets
  persisted [] s = s
  persisted (p ∷ ps) s = persisted ps (on_tokens_rotated p s)

  -- The secrets hold the tokens of the client.
  abbrev pub IsPersisted : Secrets → Client → Type 0
  IsPersisted s c =
      (load_secret (codes "access_token") (persisted c.rotated s) ≡ some c.access_token)
      × (load_secret (codes "refresh_token") (persisted c.rotated s) ≡ some c.refresh_token)

  persisted-append :
      (ps : List (Bytes × Bytes)) (p : Bytes × Bytes) (s : Secrets)
      → persisted (ps ++ p ∷ []) s ≡ on_tokens_rotated p (persisted ps s)
  unfolding persisted
  persisted-append [] p s = refl
  persisted-append (q ∷ ps) p s = persisted-append ps p (on_tokens_rotated q s)

  module _ (saved : (name : Bytes) → saves name ≡ true) where
    load-on_tokens_rotated :
        (access refresh : Bytes) (s : Secrets)
        → (load_secret (codes "access_token") (on_tokens_rotated (access, refresh) s) ≡ some access)
          × (load_secret (codes "refresh_token") (on_tokens_rotated (access, refresh) s)
              ≡ some refresh)
    unfolding on_tokens_rotated str_eq cmp
    load-on_tokens_rotated access refresh s = (
      load_secret_unsaved saves (codes "access_token") (codes "refresh_token") refresh _ (saved _)
            refl
          ∙ load_secret_saved saves (codes "access_token") access s (saved _),
      load_secret_saved saves (codes "refresh_token") refresh _ (saved _),
    )

    rotate-IsPersisted :
        (s : Secrets) (access refresh : Bytes) (c : Client)
        → IsPersisted s (rotate access refresh c)
    unfolding rotate
    rotate-IsPersisted s access refresh c =
        let stored = load-on_tokens_rotated access refresh (persisted c.rotated s) in
        (
          ap (load_secret (codes "access_token")) (persisted-append c.rotated (access, refresh) s)
              ∙ stored.0,
          ap (load_secret (codes "refresh_token")) (persisted-append c.rotated (access, refresh) s)
              ∙ stored.1,
        )

    module _ {J : Type 0} (net : Network J) (method path : Bytes) (body : Option J) (authed : Bool)
        (s : Secrets) where
      Course-IsPersisted :
          (c d : Client)
          → Course net method path body authed c d
          → IsPersisted s c
          → IsPersisted s d
      unfolding sends
      Course-IsPersisted c _ nothing_sent h = h
      Course-IsPersisted c _ (sent_once r q) h = h
      Course-IsPersisted c _ (refresh_failed r q headers raw sent account token refused asked) h = h
      Course-IsPersisted c d
            (refreshed r q access refresh headers raw _ sent account token refused asked rotated
              (inl e))
            h =
          subst (IsPersisted s) (sym e) (rotate-IsPersisted s access refresh (sends q (sends r c)))
      Course-IsPersisted c d
            (refreshed r q access refresh headers raw _ sent account token refused asked rotated
              (inr (again, last, e)))
            h =
          subst (IsPersisted s) (sym e) (rotate-IsPersisted s access refresh (sends q (sends r c)))

      -- Where the secrets can be written and those that the callback of `init` kept are the tokens of the client,
      -- they are so behind a call too, whatever the server answers.
      pub request-IsPersisted :
          (c : Client)
          → IsPersisted s c
          → IsPersisted s (request net method path body authed c).client
      request-IsPersisted c h =
          Course-IsPersisted c (request net method path body authed c).client
            (request-Course net method path body authed c) h
