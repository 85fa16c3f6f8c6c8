-- ===== src/ApiClient/Tests.antt =====
-- plugin/src/ApiClient.cpp on a concrete server, whose access token "old" ran out.
use notepadpp_sync.Prelude.{
  ◌||◌, ◌≡◌, refl, Bool, true, false, none, some, List, [], ◌∷◌, ◌++◌, arith, if◌then◌else◌,
  drop_back, Bytes, codes, All, str_eq, cmp,
}
use notepadpp_sync.VersionVector.Json.{
  to_string, is_digit, skip_ws, is_space, skip_char, starts_minus,
}
use notepadpp_sync.Crypto.Recovery.{starts_with}
use notepadpp_sync.Integers.{int_of, leading_number, signed, to_word}
use notepadpp_sync.ApiClient.Url.{
  ParsedUrl, url_throws, url_parsed, before_first, from_first, split_last, url_of, parse_host,
  parse_rest, parse_scheme, parse_url,
}
use notepadpp_sync.ApiClient.Url.Laws.{parse_url-scheme}
use notepadpp_sync.ApiClient.Headers.{behind, before_crlf, drop_blanks, header_value}
use notepadpp_sync.ApiClient.Headers.Laws.{fields_text, first_value, header_value-first_value}
use notepadpp_sync.ApiClient.Requests.{
  Network, JsonLib, HttpRequest, Opening, opened, Wire, answered, Client, exchange, open_and_send,
  send_opened, send, payload_of, then_do, received, response_of, body_of, first_answered, request,
  token_pair, sends, bearer, set_tokens,
}
use notepadpp_sync.ApiClient.Requests.Courses.{Course, request-Course}
use notepadpp_sync.ApiClient.Requests.Renewal.{again, renewed, request-again}
use notepadpp_sync.ApiClient.Requests.Endpoints.{take_tokens, login}
use notepadpp_sync.ApiClient.Channel.{
  closed, message, Attempt, no_token, refused, connected, crash, sleeps, on_state, on_event,
  events_of, receive, session, next_backoff, run,
}
use notepadpp_sync.ApiClient.Channel.Backoff.{IsShort, run-IsShort}
use notepadpp_sync.LocalDb.{select_row}
use notepadpp_sync.Secrets.{Secrets, load_secret}
use notepadpp_sync.ApiClient.Requests.Persistence.{persisted, IsPersisted, request-IsPersisted}

abbrev base : Bytes
base = codes "https://host:8443/v1/"

-- Documents that are lists of named texts.
abbrev Doc : Type 0
Doc = List (Bytes × Bytes)

abbrev tokens : Doc
tokens = (codes "access_token", codes "new") ∷ (codes "refresh_token", codes "next") ∷ []

look_up : Bytes → Doc → Bytes
look_up key [] = []
look_up key ((k, v) ∷ doc) = if str_eq key k then v else look_up key doc

first_text : Doc → Bytes
first_text [] = []
first_text ((k, v) ∷ doc) = v

fields_of : List (Bytes × Doc) → Doc
fields_of [] = []
fields_of ((k, d) ∷ fields) = (k, first_text d) ∷ fields_of fields

abbrev lib : JsonLib Doc
lib = record {
  dump = λ d. some (first_text d);
  parse = λ raw. if str_eq raw (codes "tokens") then some tokens else none;
  empty = [];
  value = λ d key. some (look_up key d);
  text = λ t. ([], t) ∷ [];
  integer = λ n. [];
  object = fields_of;
}

abbrev opens : List HttpRequest → ParsedUrl → Bytes → Bytes → Opening
opens log url method path = opened

abbrev wire : List HttpRequest → HttpRequest → Wire
wire log r =
    if str_eq r.path (codes "/v1/auth/refresh") || str_eq r.path (codes "/v1/auth/login")
    then answered 200 [] (codes "tokens")
    else elim r.token [
      | none ↦ answered 401 [] []
      | some t ↦
          if str_eq t (codes "new") then answered 200 [] (codes "files") else answered 401 [] []
    ]

abbrev net : Network Doc
net = record { lib = lib; widen = λ s. s; base_url = base; opens = opens; wire = wire }

abbrev client : Client
client = record {
  access_token = codes "old";
  refresh_token = codes "held";
  rotated = [];
  sent = [];
}

abbrev host_url : ParsedUrl
host_url = record { host = codes "host"; port = 8443; https = true; base_path = codes "/v1" }

base_parsed : parse_url (λ s. s) base ≡ url_parsed host_url
unfolding parse_url parse_rest parse_host url_of to_word parse_scheme starts_with before_first
    from_first split_last drop_back str_eq cmp int_of leading_number signed is_digit skip_ws
    is_space skip_char starts_minus
base_parsed = refl

-- A port that is no number makes `std::stoi` throw, before anything is sent.
port_missing_test : parse_url (λ s. s) (codes "https://host:/v1") ≡ url_throws
unfolding parse_url parse_rest parse_host url_of to_word parse_scheme starts_with before_first
    from_first split_last drop_back str_eq cmp int_of leading_number signed is_digit skip_ws
    is_space skip_char starts_minus
port_missing_test = refl

-- The text behind the last colon of an address of IP version 6 is taken for its port.
colons_test :
    parse_url (λ s. s) (codes "http://[::1]")
    ≡ url_parsed (record { host = codes "[:"; port = 1; https = false; base_path = [] })
unfolding parse_url parse_rest parse_host url_of to_word parse_scheme starts_with before_first
    from_first split_last drop_back str_eq cmp int_of leading_number signed is_digit skip_ws
    is_space skip_char starts_minus
colons_test = refl

parse_url-scheme_example :
    parse_url
      (λ s. s)
      (codes "https://" ++ (codes "host" ++ b':' ∷ (to_string 8443 ++ codes "/v1")))
    ≡ url_parsed host_url
unfolding drop_back
parse_url-scheme_example =
    parse_url-scheme (λ s. s) true (codes "host") (codes "/v1") 8443 (λ e. ground arith)
      ((λ e. omega arith), ((λ e. omega arith), ((λ e. omega arith), ((λ e. omega arith), tt))))
      (omega arith) refl refl

abbrev name : Bytes
name = codes "Age"

abbrev status_line : Bytes
status_line = codes "HTTP"

abbrev fields : List (Bytes × Bytes)
fields = (codes "To", codes " 1") ∷ (name, codes " 7") ∷ []

header_value-first_value_example :
    header_value (status_line ++ fields_text fields) name ≡ first_value name fields
header_value-first_value_example =
    header_value-first_value name status_line fields
      (
        ((λ e. omega arith), (λ e. omega arith)),
        (((λ e. omega arith), (λ e. omega arith)), (((λ e. omega arith), (λ e. omega arith)), tt)),
      )
      (
        ((λ e. omega arith), (λ e. omega arith)),
        (
          ((λ e. omega arith), (λ e. omega arith)),
          (
            ((λ e. omega arith), (λ e. omega arith)),
            (((λ e. omega arith), (λ e. omega arith)), tt),
          ),
        ),
      )
      (
        (
          (
            ((λ e. omega arith), (λ e. omega arith)),
            (((λ e. omega arith), (λ e. omega arith)), tt),
          ),
          ((λ e. omega arith), ((λ e. omega arith), tt)),
        ),
        (
          (
            (
              ((λ e. omega arith), (λ e. omega arith)),
              (
                ((λ e. omega arith), (λ e. omega arith)),
                (((λ e. omega arith), (λ e. omega arith)), tt),
              ),
            ),
            ((λ e. omega arith), ((λ e. omega arith), tt)),
          ),
          tt,
        ),
      )

-- Header names in lower case are not found.
lower_case_test : header_value (codes "HTTP\r\nage: 7\r\n\r\n") name ≡ []
unfolding header_value behind before_crlf drop_blanks starts_with
lower_case_test = refl

-- In the first line the value starts at its third character, whatever the name is.
first_line_test : header_value (codes "Age: 7\r\n\r\n") name ≡ codes "e: 7"
unfolding header_value behind before_crlf drop_blanks starts_with
first_line_test = refl

abbrev method : Bytes
method = codes "GET"

request-Course_example :
    Course net method
      (codes "/sync/files")
      none
      true
      client
      (request net method (codes "/sync/files") none true client).client
request-Course_example = request-Course net method (codes "/sync/files") none true client

abbrev before : Client
before =
    renewed net host_url base_parsed (λ log m p. refl) method (codes "/sync/files") none client []
      (codes "held") (codes "new") (codes "next")

request-again_example :
    request net method (codes "/sync/files") none true client
    ≡ send net
        (again net host_url base_parsed
          (λ log m p. refl)
          method
          (codes "/sync/files")
          none
          client
          []
          (codes "held")
          (codes "new")
          (codes "next"))
        before
unfolding payload_of bearer token_pair body_of look_up str_eq cmp first_text fields_of sends
request-again_example =
    request-again net host_url base_parsed (λ log m p. refl) method (codes "/sync/files") none
      client [] (codes "held") [] [] [] (codes "tokens") (codes "new") (codes "next") refl refl
      (λ e. ground arith) refl refl refl (λ e. ground arith) (λ e. ground arith)

-- The channel opens at the third attempt; then it is lost for good.
abbrev attempts : List (Attempt × Bool)
attempts =
    (refused, true)
    ∷ (refused, true)
    ∷ (connected (message (codes "tokens") ∷ message (codes "half") ∷ closed ∷ []), true)
    ∷ (refused, true)
    ∷ (no_token, true)
    ∷ (refused, false)
    ∷ []

channel_test :
    run lib.parse (url_parsed host_url) 2 attempts
    ≡ sleeps 4
      ∷ sleeps 8
      ∷ on_state true
      ∷ on_event tokens
      ∷ on_state false
      ∷ sleeps 4
      ∷ sleeps 8
      ∷ sleeps 20
      ∷ []
unfolding run session receive events_of next_backoff str_eq cmp
channel_test = refl

-- An address with a port that is no number ends the thread by an exception.
crash_test : run lib.parse url_throws 2 ((refused, true) ∷ []) ≡ crash ∷ []
unfolding run
crash_test = refl

run-IsShort_example : All IsShort (run lib.parse (url_parsed host_url) 2 attempts)
run-IsShort_example =
    run-IsShort lib.parse (url_parsed host_url) 2 attempts (omega arith) (omega arith)

login_test :
    (login net (codes "a") (codes "p") (codes "d") client).client.access_token ≡ codes "new"
unfolding login take_tokens then_do request exchange open_and_send send_opened send payload_of
    received response_of body_of token_pair first_answered set_tokens sends look_up fields_of
    first_text parse_url parse_rest parse_host url_of to_word parse_scheme starts_with before_first
    from_first split_last drop_back str_eq cmp int_of leading_number signed is_digit skip_ws
    is_space skip_char starts_minus
login_test = refl

abbrev held_secrets : Secrets
held_secrets = (codes "access_token", codes "old") ∷ (codes "refresh_token", codes "held") ∷ []

request-IsPersisted_example :
    IsPersisted
      (λ name. true)
      held_secrets
      (request net method (codes "/sync/files") none true client).client
unfolding persisted load_secret select_row str_eq cmp
request-IsPersisted_example =
    request-IsPersisted (λ name. true) (λ name. refl) net method (codes "/sync/files") none true
      held_secrets client (refl, refl)
