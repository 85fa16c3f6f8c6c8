-- ===== src/ApiClient/Channel.antt =====
-- plugin/src/ApiClient.cpp: `WsClient::run`, on the attempts that its loop makes until `stop`.
pub mod Backoff
use notepadpp_sync.Prelude.{
  ℕ, ◌+◌, ◌*◌, leb, Bool, true, false, Option, none, some, List, [], ◌∷◌, ◌++◌, if◌then◌else◌,
  Bytes,
}
use notepadpp_sync.ApiClient.Url.{UrlResult, url_throws, url_refused, url_parsed}

-- What `WinHttpWebSocketReceive` brings; a text may be a whole message or a fragment of one.
pub data Frame : Type 0 where
  receive_failed closed binary : Frame
  message : Bytes → Frame

-- A pass of the loop: there is no token, the channel does not open, or it opens and brings frames until `stop`.
pub data Attempt : Type 0 where
  no_token refused : Attempt
  connected : List Frame → Attempt

-- What the loop does; `crash` is an exception that leaves the thread, `sleeps` a number of half seconds.
pub data Action (J : Type 0) : Type 0 where
  crash : Action J
  sleeps : ℕ → Action J
  on_state : Bool → Action J
  on_event : J → Action J

module _ {J : Type 0} (parse : Bytes → Option J) where
  unfoldable pub events_of : Bytes → List (Action J)
  events_of msg = elim (parse msg) [ none ↦ [] | some ev ↦ on_event ev ∷ [] ]

  -- The receive loop.
  unfoldable pub receive : List Frame → List (Action J)
  receive [] = []
  receive (receive_failed ∷ frames) = []
  receive (closed ∷ frames) = []
  receive (binary ∷ frames) = receive frames
  receive (message msg ∷ frames) = events_of msg ++ receive frames

  unfoldable pub session : List Frame → List (Action J)
  session frames = on_state true ∷ (receive frames ++ on_state false ∷ [])

  -- `(std::min)(backoffSec * 2, 60)`
  unfoldable pub next_backoff : ℕ → ℕ
  next_backoff backoff = if leb (backoff * 2) 60 then backoff * 2 else 60

  -- The loop for a `parseUrl` that ended so, each attempt with whether the client still runs after it.
  unfoldable pub run : UrlResult → ℕ → List (Attempt × Bool) → List (Action J)
  run url backoff [] = []
  run url backoff ((no_token, running) ∷ attempts) =
      sleeps 20 ∷ (if running then run url backoff attempts else [])
  run url_throws backoff ((a, running) ∷ attempts) = crash ∷ []
  run url_refused backoff ((a, running) ∷ attempts) = []
  run (url_parsed u) backoff ((refused, running) ∷ attempts) =
      if running
      then sleeps (backoff * 2) ∷ run (url_parsed u) (next_backoff backoff) attempts
      else []
  run (url_parsed u) backoff ((connected frames, running) ∷ attempts) =
      session frames
      ++ (if running then sleeps (2 * 2) ∷ run (url_parsed u) (next_backoff 2) attempts else [])
