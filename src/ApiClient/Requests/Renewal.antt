-- ===== src/ApiClient/Requests/Renewal.antt =====
-- plugin/src/ApiClient.cpp: what a caller sees of an access token that ran out.
use notepadpp_sync.Prelude.{
  ◌≡◌, ◌≢◌, refl, ap, ◌∙◌, ◌++◌, Bool, true, false, Option, some, List, [], Bytes, codes, str_eq,
  arith, str_eq_iff,
}
use notepadpp_sync.ApiClient.Url.{ParsedUrl, url_parsed, parse_url}
use notepadpp_sync.ApiClient.Requests.{
  bearer, Network, HttpRequest, opened, answered, Client, is_empty, then_do, sends, rotate,
  received, response_of, body_of, payload_of, request_to, send, send_opened, open_and_send,
  exchange, token_pair, take_pair, refresh_answered, refresh_body, refresh_access_token,
  retry_after, first_answered, request,
}

module _ {J : Type 0} (net : Network J) (url : ParsedUrl)
    (usable : parse_url net.widen net.base_url ≡ url_parsed url)
    (can_open : (log : List HttpRequest) (method path : Bytes)
      → net.opens log url method path ≡ opened) where
  exchange-send :
      (method path : Bytes) (body : Option J) (authed : Bool) (c : Client) (payload : Bytes)
      → payload_of net body ≡ some payload
      → exchange net method path body authed c
        ≡ send net (request_to net url method path payload authed c) c
  unfolding exchange open_and_send send_opened
  exchange-send method path body authed c payload e =
      rw
        (
          exchange,
          usable,
          open_and_send,
          can_open c.sent method (url.base_path ++ path),
          send_opened,
          e,
        )
        refl

  is_filled : (s : Bytes) → s ≢ [] → is_empty s ≡ false
  is_filled s h = ground (arith, str_eq_iff s [])

  take_pair-rotate :
      (access refresh : Bytes) (c : Client)
      → access ≢ []
      → refresh ≢ []
      → take_pair net (some (access, refresh)) c
        ≡ record { outcome = some true; client = rotate access refresh c }
  unfolding take_pair
  take_pair-rotate access refresh c h k = rw (is_filled access h, is_filled refresh k) refl

  module _ (method path : Bytes) (body : Option J) (c : Client)
      (payload refresh_payload : Bytes) where
    abbrev pub first : HttpRequest
    first = request_to net url method path payload true c

    abbrev pub refresh : HttpRequest
    refresh =
        request_to net url (codes "POST") (codes "/auth/refresh") refresh_payload false
          (sends first c)

    abbrev pub renewed : Bytes → Bytes → Client
    renewed access token = rotate access token (sends refresh (sends first c))

    abbrev pub again : Bytes → Bytes → HttpRequest
    again access token = request_to net url method path payload true (renewed access token)

    refresh_access_token-rotate :
        (headers raw access token : Bytes)
        → payload_of net (some (refresh_body net (sends first c))) ≡ some refresh_payload
        → net.wire (sends first c).sent refresh ≡ answered 200 headers raw
        → token_pair net (body_of net raw) ≡ some (access, token)
        → access ≢ []
        → token ≢ []
        → refresh_access_token net (sends first c)
          ≡ record { outcome = some true; client = renewed access token }
    unfolding refresh_access_token then_do send received response_of refresh_answered
    refresh_access_token-rotate headers raw access token p e t h k =
        ap (λ R. then_do R (refresh_answered net))
          (exchange-send _ _ _ false (sends first c) refresh_payload p)
        ∙ ap (λ w. refresh_answered net (received net w) (sends refresh (sends first c))) e
        ∙ ap (λ o. take_pair net o (sends refresh (sends first c))) t
        ∙ take_pair-rotate access token (sends refresh (sends first c)) h k

    -- Where the server answers a call for an account with 401 and a refresh with two tokens, neither empty, the
    -- caller gets the answer to the call sent again with the new access token, and the tokens are the new ones;
    -- the URL is usable, WinHTTP opens requests, and the bodies can be written.
    pub request-again :
        (headers raw headers' raw' access token : Bytes)
        → payload_of net body ≡ some payload
        → payload_of net (some (refresh_body net (sends first c))) ≡ some refresh_payload
        → c.refresh_token ≢ []
        → net.wire c.sent first ≡ answered 401 headers raw
        → net.wire (sends first c).sent refresh ≡ answered 200 headers' raw'
        → token_pair net (body_of net raw') ≡ some (access, token)
        → access ≢ []
        → token ≢ []
        → request net method path body true c ≡ send net (again access token) (renewed access token)
    unfolding request then_do send received response_of first_answered retry_after str_eq rotate
        bearer sends
    request-again headers raw headers' raw' access token p q held e e' t h k =
        ap (λ R. then_do R (first_answered net method path body true))
          (exchange-send method path body true c payload p)
        ∙ ap (λ w. first_answered net method path body true (received net w) (sends first c)) e
        ∙ rw
            (
              first_answered,
              is_filled c.refresh_token held,
              refresh_access_token-rotate headers' raw' access token q e' t h k,
            )
            (exchange-send method path body true (renewed access token) payload p)
