-- ===== src/ApiClient/Requests/Courses.antt =====
-- plugin/src/ApiClient.cpp: the courses that `request` can take.
use notepadpp_sync.Prelude.{
  arith, ◌≡◌, ◌≢◌, refl, ap, ◌∙◌, ℕ, ◌==◌, ◌&&◌, ==_iff, Bool, true, false, not, Option, none, some,
  [], Bytes, codes, str_eq, str_eq_iff, Bool-cases, inl, inr, ◌⊎◌,
}
use notepadpp_sync.ApiClient.Url.{
  ParsedUrl, UrlResult, url_throws, url_refused, url_parsed, parse_url,
}
use notepadpp_sync.ApiClient.Requests.{
  Network, ApiResponse, HttpRequest, Opening, open_failed, connect_failed, request_failed, opened,
  Wire, send_failed, answered, Client, Ran, is_empty, then_do, sends, rotate, transport_failure,
  response_of, received, payload_of, request_to, body_of, protocol_of, fails, send, send_opened,
  open_and_send, exchange, token_pair, take_pair, refresh_answered, refresh_body,
  refresh_access_token, retry_after, first_answered, request,
}

module _ {J : Type 0} (net : Network J) where
  -- A request goes to the URL of the settings, with the payload of its body and, where the call is for an
  -- account, the access token of the client.
  abbrev pub IsRequest : Bytes → Bytes → Option J → Bool → Client → HttpRequest → Type 0
  IsRequest method path body authed c r =
      (url : ParsedUrl) × (payload : Bytes) × (parse_url net.widen net.base_url ≡ url_parsed url)
      × (payload_of net body ≡ some payload)
      × (r ≡ request_to net url method path payload authed c)

  -- The refresh of the tokens, which carries no access token.
  abbrev pub IsRefresh : Client → HttpRequest → Type 0
  IsRefresh c = IsRequest (codes "POST") (codes "/auth/refresh") (some (refresh_body net c)) false c

  -- The server answered a refresh with the two tokens, neither of them empty.
  abbrev pub Rotated : Client → HttpRequest → Bytes → Bytes → Type 0
  Rotated c q access refresh =
      (headers : Bytes) × (raw : Bytes) × (net.wire c.sent q ≡ answered 200 headers raw)
      × (token_pair net (body_of net raw) ≡ some (access, refresh))
      × (access ≢ [])
      × (refresh ≢ [])

  -- At most one request.
  abbrev pub Last : Bytes → Bytes → Option J → Bool → Client → Client → Type 0
  Last method path body authed c d =
      (d ≡ c) ⊎ ((r : HttpRequest) × (IsRequest method path body authed c r) × (d ≡ sends r c))

  -- How a client comes out of a call for an account or not: no request; one; one that the server answered with
  -- 401 and a refresh; and, where the refresh brought two tokens, these and perhaps the request once more.
  pub data Course (method path : Bytes) (body : Option J) (authed : Bool) (c : Client)
      : Client → Type 0 where
    nothing_sent : Course method path body authed c c
    sent_once :
        (r : HttpRequest)
        → IsRequest method path body authed c r
        → Course method path body authed c (sends r c)
    refresh_failed :
        (r q : HttpRequest) (headers raw : Bytes)
        → IsRequest method path body authed c r
        → (authed ≡ true)
        → (c.refresh_token ≢ [])
        → (net.wire c.sent r ≡ answered 401 headers raw)
        → IsRefresh (sends r c) q
        → Course method path body authed c (sends q (sends r c))
    refreshed :
        (r q : HttpRequest) (access refresh headers raw : Bytes) (d : Client)
        → IsRequest method path body authed c r
        → (authed ≡ true)
        → (c.refresh_token ≢ [])
        → (net.wire c.sent r ≡ answered 401 headers raw)
        → IsRefresh (sends r c) q
        → Rotated (sends r c) q access refresh
        → Last method path body authed (rotate access refresh (sends q (sends r c))) d
        → Course method path body authed c d

  module _ (method path : Bytes) (body : Option J) (authed : Bool) (c : Client) where
    -- What holds of a client that sent nothing and of one that sent a request holds after an exchange.
    module _ (P : Ran (ApiResponse J) → Type 0) (threw : P (record { outcome = none; client = c }))
        (unsent : (e : Bytes) → P (fails net e c))
        (sent : (r : HttpRequest) → IsRequest method path body authed c r → P (send net r c)) where
      payload_by :
          (url : ParsedUrl) (o : Option Bytes)
          → parse_url net.widen net.base_url ≡ url_parsed url
          → payload_of net body ≡ o
          → P (elim o [
            | none ↦ record { outcome = none; client = c }
            | some payload ↦ send net (request_to net url method path payload authed c) c
          ])
      payload_by url none e h = threw
      payload_by url (some payload) e h = sent _ (url, payload, e, h, refl)

      opening_by :
          (url : ParsedUrl) (o : Opening)
          → parse_url net.widen net.base_url ≡ url_parsed url
          → P (elim o [
            | open_failed ↦ fails net (codes "WinHttpOpen failed") c
            | connect_failed ↦ fails net (codes "WinHttpConnect failed") c
            | request_failed ↦ fails net (codes "WinHttpOpenRequest failed") c
            | opened ↦ send_opened net url method path body authed c
          ])
      unfolding send_opened
      opening_by url open_failed e = unsent _
      opening_by url connect_failed e = unsent _
      opening_by url request_failed e = unsent _
      opening_by url opened e = payload_by url _ e refl

      url_by :
          (u : UrlResult)
          → parse_url net.widen net.base_url ≡ u
          → P (elim u [
            | url_throws ↦ record { outcome = none; client = c }
            | url_refused ↦ fails net (codes "bad base url") c
            | url_parsed url ↦ open_and_send net url method path body authed c
          ])
      unfolding open_and_send
      url_by url_throws e = threw
      url_by url_refused e = unsent _
      url_by (url_parsed url) e = opening_by url _ e

      exchange_by : P (exchange net method path body authed c)
      unfolding exchange
      exchange_by = url_by (parse_url net.widen net.base_url) refl

  is_filled : (s : Bytes) → is_empty s ≡ false → s ≢ []
  is_filled s h e = ground (arith, str_eq_iff s [])

  module _ (method path : Bytes) (body : Option J) (authed : Bool) (c : Client) where
    -- From the request that was answered with 401 on.
    module _ (r : HttpRequest) (sent : IsRequest method path body authed c r)
        (account : authed ≡ true) (token : c.refresh_token ≢ [])
        (refused : (headers : Bytes) × (raw : Bytes) × (net.wire c.sent r
            ≡ answered 401 headers raw))
        (first : ApiResponse J) where
      retry : Ran Bool → Client
      retry R = (then_do R (retry_after net method path body authed first)).client

      failed :
          (q : HttpRequest)
          → IsRefresh (sends r c) q
          → Course method path body authed c (sends q (sends r c))
      failed q h = refresh_failed r q (refused.0) (refused.1) sent account token (refused.2) h

      rotated_by :
          (q : HttpRequest) (access refresh : Bytes)
          → IsRefresh (sends r c) q
          → Rotated (sends r c) q access refresh
          → Course method path body authed c (
              retry (record {
                outcome = some true;
                client = rotate access refresh (sends q (sends r c));
              }))
      unfolding retry then_do retry_after send sends
      rotated_by q access refresh h k =
          let step : (d : Client)
              → Last method path body authed (rotate access refresh (sends q (sends r c))) d
              → Course method path body authed c d =
            λ d l.
              refreshed r q access refresh (refused.0) (refused.1) d sent account token (refused.2)
                h k l in
          exchange_by method path body authed (rotate access refresh (sends q (sends r c)))
            (λ R. Course method path body authed c R.client) (step _ (inl refl))
            (λ e. step _ (inl refl)) (λ s h'. step _ (inr (s, h', refl)))

      pair_by :
          (q : HttpRequest) (o : Option (Bytes × Bytes)) (headers raw : Bytes)
          → IsRefresh (sends r c) q
          → (net.wire (sends r c).sent q ≡ answered 200 headers raw)
          → token_pair net (body_of net raw) ≡ o
          → Course method path body authed c (retry (take_pair net o (sends q (sends r c))))
      unfolding retry then_do retry_after take_pair
      pair_by q none headers raw h k l = failed q h
      pair_by q (some (access, refresh)) headers raw h k l = elim (Bool-cases (is_empty access)) [
        | inl e ↦ rw e (failed q h)
        | inr e ↦ elim (Bool-cases (is_empty refresh)) [
          | inl e' ↦ rw (e, e') (failed q h)
          | inr e' ↦
              rw (e, e')
                (rotated_by q access refresh h
                  (headers, raw, k, l, is_filled access e, is_filled refresh e'))
        ]
      ]

      refresh_answered_by :
          (q : HttpRequest) (w : Wire)
          → IsRefresh (sends r c) q
          → net.wire (sends r c).sent q ≡ w
          → Course method path body authed c
              (retry (refresh_answered net (received net w) (sends q (sends r c))))
      unfolding retry then_do retry_after refresh_answered received transport_failure response_of
      refresh_answered_by q (send_failed e) h k = failed q h
      refresh_answered_by q (answered status headers raw) h k = elim (Bool-cases (status == 200)) [
        | inl e ↦ rw e (
            pair_by q _ headers raw h
              (k ∙ ap (λ s. answered s headers raw) ((==_iff status 200).0 e)) refl)
        | inr e ↦ rw e (failed q h)
      ]

      refresh_by : Course method path body authed c (retry (refresh_access_token net (sends r c)))
      unfolding retry then_do refresh_access_token send transport_failure refresh_answered
          retry_after
      refresh_by =
          exchange_by (codes "POST") (codes "/auth/refresh") (some (refresh_body net (sends r c)))
            false (sends r c)
            (λ R. Course method path body authed c (retry (then_do R (refresh_answered net))))
            (sent_once r sent) (λ e. sent_once r sent) (λ q h. refresh_answered_by q _ h refl)

    abbrev tries_again : ℕ → Bool
    tries_again status = status == 401 && authed && not (is_empty c.refresh_token)

    tries_again_parts :
        (status : ℕ)
        → tries_again status ≡ true
        → (status ≡ 401) × (authed ≡ true) × (c.refresh_token ≢ [])
    tries_again_parts status e =
        let (a, b, f) : (status == 401 ≡ true)
            × (authed ≡ true)
            × (is_empty c.refresh_token ≡ false) =
          ground arith in
        ((==_iff status 401).0 a, b, is_filled c.refresh_token f)

    first_by :
        (r : HttpRequest) (w : Wire)
        → IsRequest method path body authed c r
        → net.wire c.sent r ≡ w
        → Course method path body authed c
            (first_answered net method path body authed (received net w) (sends r c)).client
    unfolding first_answered received transport_failure response_of retry str_eq then_do body_of
        protocol_of sends
    first_by r (send_failed e) h k = sent_once r h
    first_by r (answered status headers raw) h k = elim (Bool-cases (tries_again status)) [
      | inr e ↦ rw e (sent_once r h)
      | inl e ↦
          let (a, b, f) = tries_again_parts status e in
          rw e (
            refresh_by r h b f (headers, raw, k ∙ ap (λ s. answered s headers raw) a)
              (response_of net status headers raw))
    ]

  -- A call sends nothing, or one request; where that was answered with 401, the call is for an account and there
  -- is a refresh token, it may ask once for new tokens, and only where the server answers that with two tokens,
  -- neither empty, are they taken, as a pair, and is the request sent once more, with the new access token.
  pub request-Course :
      (method path : Bytes) (body : Option J) (authed : Bool) (c : Client)
      → Course method path body authed c (request net method path body authed c).client
  unfolding request then_do send first_answered transport_failure
  request-Course method path body authed c =
      exchange_by method path body authed c
        (λ R.
          Course method path body authed c
            (then_do R (first_answered net method path body authed)).client)
        nothing_sent (λ e. nothing_sent) (λ r h. first_by method path body authed c r _ h refl)
