-- ===== src/ApiClient/Requests.antt =====
-- plugin/src/ApiClient.h and ApiClient.cpp: `request`, `refreshAccessToken` and the tokens. WinHTTP is two
-- functions of the requests sent so far: whether it opens a request, and what comes back from the server.
pub mod Courses
pub mod Endpoints
pub mod Renewal
pub mod Persistence
use notepadpp_sync.Prelude.{
  ℕ, ◌∷◌, ◌++◌, ◌==◌, ◌&&◌, ◌||◌, Bool, true, false, not, Option, none, some, List, [],
  if◌then◌else◌, Bytes, codes, str_eq,
}
use notepadpp_sync.VersionVector.Json.{to_string}
use notepadpp_sync.Integers.{ℤ, pos, atoi}
use notepadpp_sync.ApiClient.Headers.{header_value}
use notepadpp_sync.ApiClient.Url.{ParsedUrl, url_throws, url_refused, url_parsed, parse_url}

-- The JSON library: `dump` and `value(key, "")` may throw.
pub record JsonLib (J : Type 0) : Type 0 where
  pub dump : J → Option Bytes
  pub parse : Bytes → Option J
  pub empty : J
  pub value : J → Bytes → Option Bytes
  pub text : Bytes → J
  pub integer : ℤ → J
  pub object : List (Bytes × J) → J

-- `ApiResponse`. The protocol is `none` where `atoi` has no defined value.
pub record ApiResponse (J : Type 0) : Type 0 where
  pub status : ℕ
  pub body : J
  pub raw_body : Bytes
  pub server_protocol : Option ℤ
  pub transport_ok : Bool
  pub transport_error : Bytes

-- What is handed to WinHTTP; a token is the one of the `Authorization` header.
pub record HttpRequest : Type 0 where
  pub url : ParsedUrl
  pub method : Bytes
  pub path : Bytes
  pub token : Option Bytes
  pub payload : Bytes

pub data Opening : Type 0 where
  open_failed connect_failed request_failed opened : Opening

-- What `WinHttpSendRequest` and the calls that follow bring: an error, or the status, the headers, the body.
pub data Wire : Type 0 where
  send_failed : ℕ → Wire
  answered : ℕ → Bytes → Bytes → Wire

-- `ApiClient`: its tokens, the calls of `onTokensRotated`, the requests sent; the latest last.
pub record Client : Type 0 where
  pub access_token : Bytes
  pub refresh_token : Bytes
  pub rotated : List (Bytes × Bytes)
  pub sent : List HttpRequest

-- What a client is given: the JSON library, the conversion to UTF-16, the address of the server, and WinHTTP.
pub record Network (J : Type 0) : Type 0 where
  pub lib : JsonLib J
  pub widen : Bytes → Bytes
  pub base_url : Bytes
  pub opens : List HttpRequest → ParsedUrl → Bytes → Bytes → Opening
  pub wire : List HttpRequest → HttpRequest → Wire

-- A call that returned, or threw (`none`), and the client after it.
pub record Ran (A : Type 0) : Type 0 where
  pub outcome : Option A
  pub client : Client

abbrev pub is_empty : Bytes → Bool
is_empty s = str_eq s []

unfoldable pub then_do : {A B : Type 0} → Ran A → (A → Client → Ran B) → Ran B
then_do r f = elim r.outcome [
  | none ↦ record { outcome = none; client = r.client }
  | some a ↦ f a r.client
]

unfoldable pub set_tokens : Bytes → Bytes → Client → Client
set_tokens access refresh c = record c { access_token = access; refresh_token = refresh }

unfoldable pub clear_tokens : Client → Client
clear_tokens c = record c { access_token = []; refresh_token = [] }

unfoldable pub sends : HttpRequest → Client → Client
sends r c = record c { sent = c.sent ++ r ∷ [] }

-- The end of `refreshAccessToken`.
unfoldable pub rotate : Bytes → Bytes → Client → Client
rotate access refresh c = record c {
  access_token = access;
  refresh_token = refresh;
  rotated = c.rotated ++ (access, refresh) ∷ [];
}

module _ {J : Type 0} (net : Network J) where
  unfoldable pub transport_failure : Bytes → ApiResponse J
  transport_failure e = record {
    status = 0;
    body = net.lib.empty;
    raw_body = [];
    server_protocol = some (pos 0);
    transport_ok = false;
    transport_error = e;
  }

  unfoldable pub body_of : Bytes → J
  body_of raw =
      if is_empty raw
      then net.lib.empty
      else elim (net.lib.parse raw) [ none ↦ net.lib.empty | some j ↦ j ]

  unfoldable pub protocol_of : Bytes → Option ℤ
  protocol_of proto = if is_empty proto then some (pos 0) else atoi proto

  unfoldable pub response_of : ℕ → Bytes → Bytes → ApiResponse J
  response_of status headers raw = record {
    status = status;
    body = body_of raw;
    raw_body = raw;
    server_protocol = protocol_of (header_value headers (codes "X-NPSync-Protocol"));
    transport_ok = true;
    transport_error = [];
  }

  unfoldable pub received : Wire → ApiResponse J
  received (send_failed e) = transport_failure (codes "send/receive failed: " ++ to_string e)
  received (answered status headers raw) = response_of status headers raw

  unfoldable pub bearer : Bool → Client → Option Bytes
  bearer authed c = if authed && not (is_empty c.access_token) then some c.access_token else none

  unfoldable pub payload_of : Option J → Option Bytes
  payload_of (some body) = net.lib.dump body
  payload_of none = some []

  abbrev pub request_to : ParsedUrl → Bytes → Bytes → Bytes → Bool → Client → HttpRequest
  request_to url method path payload authed c = record {
    url = url;
    method = method;
    path = url.base_path ++ path;
    token = bearer authed c;
    payload = payload;
  }

  unfoldable pub send : HttpRequest → Client → Ran (ApiResponse J)
  send r c = record { outcome = some (received (net.wire c.sent r)); client = sends r c }

  unfoldable pub send_opened :
      ParsedUrl → Bytes → Bytes → Option J → Bool → Client → Ran (ApiResponse J)
  send_opened url method path body authed c = elim (payload_of body) [
    | none ↦ record { outcome = none; client = c }
    | some payload ↦ send (request_to url method path payload authed c) c
  ]

  abbrev pub fails : Bytes → Client → Ran (ApiResponse J)
  fails e c = record { outcome = some (transport_failure e); client = c }

  unfoldable pub open_and_send :
      ParsedUrl → Bytes → Bytes → Option J → Bool → Client → Ran (ApiResponse J)
  open_and_send url method path body authed c =
      elim (net.opens c.sent url method (url.base_path ++ path)) [
        | open_failed ↦ fails (codes "WinHttpOpen failed") c
        | connect_failed ↦ fails (codes "WinHttpConnect failed") c
        | request_failed ↦ fails (codes "WinHttpOpenRequest failed") c
        | opened ↦ send_opened url method path body authed c
      ]

  -- `request` without the retry.
  unfoldable pub exchange : Bytes → Bytes → Option J → Bool → Client → Ran (ApiResponse J)
  exchange method path body authed c = elim (parse_url net.widen net.base_url) [
    | url_throws ↦ record { outcome = none; client = c }
    | url_refused ↦ fails (codes "bad base url") c
    | url_parsed url ↦ open_and_send url method path body authed c
  ]

  -- Two values of a body, where neither throws.
  unfoldable pub token_pair : J → Option (Bytes × Bytes)
  token_pair j = elim (net.lib.value j (codes "access_token")) [
    | none ↦ none
    | some access ↦ elim (net.lib.value j (codes "refresh_token")) [
      | none ↦ none
      | some refresh ↦ some (access, refresh)
    ]
  ]

  unfoldable pub take_pair : Option (Bytes × Bytes) → Client → Ran Bool
  take_pair none c = record { outcome = none; client = c }
  take_pair (some (access, refresh)) c =
      if is_empty access || is_empty refresh
      then record { outcome = some false; client = c }
      else record { outcome = some true; client = rotate access refresh c }

  unfoldable pub refresh_answered : ApiResponse J → Client → Ran Bool
  refresh_answered r c =
      if not (r.status == 200)
      then record { outcome = some false; client = c }
      else take_pair (token_pair r.body) c

  abbrev pub refresh_body : Client → J
  refresh_body c = net.lib.object ((codes "refresh_token", net.lib.text c.refresh_token) ∷ [])

  unfoldable pub refresh_access_token : Client → Ran Bool
  refresh_access_token c =
      then_do (exchange (codes "POST") (codes "/auth/refresh") (some (refresh_body c)) false c)
        refresh_answered

  unfoldable pub retry_after :
      Bytes → Bytes → Option J → Bool → ApiResponse J → Bool → Client → Ran (ApiResponse J)
  retry_after method path body authed r true c = exchange method path body authed c
  retry_after method path body authed r false c = record { outcome = some r; client = c }

  unfoldable pub first_answered :
      Bytes → Bytes → Option J → Bool → ApiResponse J → Client → Ran (ApiResponse J)
  first_answered method path body authed r c =
      if r.status == 401 && authed && not (is_empty c.refresh_token)
      then then_do (refresh_access_token c) (retry_after method path body authed r)
      else record { outcome = some r; client = c }

  -- `request`, with the retry that it has unless it is called again by itself.
  unfoldable pub request : Bytes → Bytes → Option J → Bool → Client → Ran (ApiResponse J)
  request method path body authed c =
      then_do (exchange method path body authed c) (first_answered method path body authed)
