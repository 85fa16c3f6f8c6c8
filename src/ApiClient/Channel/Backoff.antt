-- ===== src/ApiClient/Channel/Backoff.antt =====
-- plugin/src/ApiClient.cpp: how long `WsClient::run` waits between its attempts.
use notepadpp_sync.Prelude.{
  ◌≡◌, ap, ◌∙◌, ℕ, zero, suc, ◌+◌, ◌*◌, ◌^◌, ◌≤◌, leb, Bool, true, false, Option, none, some, List,
  [], ◌∷◌, ◌++◌, if◌then◌else◌, Bytes, arith, All, All-append,
}
use notepadpp_sync.ApiClient.Url.{ParsedUrl, UrlResult, url_throws, url_refused, url_parsed}
use notepadpp_sync.ApiClient.Channel.{
  Frame, receive_failed, closed, binary, message, Attempt, no_token, refused, connected, Action,
  sleeps, on_event, events_of, receive, session, next_backoff, run,
}

-- A wait of two seconds at least and a minute at most.
unfoldable pub IsShort : {J : Type 0} → Action J → Type 0
IsShort (sleeps n) = (4 ≤ n) × (n ≤ 120)
IsShort _ = Unit

-- The seconds behind `n` failures in a row.
unfoldable pub delay : ℕ → ℕ
delay n = if leb (2 ^ n) 30 then 2 * 2 ^ n else 60

pub failures : ℕ → List (Attempt × Bool)
failures zero = []
failures (suc n) = (refused, true) ∷ failures n

-- The waits of as many failures, behind others.
pub waits : {J : Type 0} → ℕ → ℕ → List (Action J)
waits k zero = []
waits k (suc n) = sleeps (delay k * 2) ∷ waits (suc k) n

module _ {J : Type 0} (parse : Bytes → Option J) where
  next_backoff-delay : (n : ℕ) → next_backoff parse (delay n) ≡ delay (suc n)
  unfolding next_backoff delay
  next_backoff-delay n = ground arith

  events_of-IsShort : (msg : Bytes) → All (IsShort {J = J}) (events_of parse msg)
  unfolding events_of IsShort
  events_of-IsShort msg =
      elim (parse msg)
        as (λ o. All (IsShort {J = J}) (elim o [ none ↦ [] | some ev ↦ on_event ev ∷ [] ])) [
          | none ↦ tt
          | some ev ↦ (tt, tt)
        ]

  receive-IsShort : (frames : List Frame) → All (IsShort {J = J}) (receive parse frames)
  unfolding receive
  receive-IsShort [] = tt
  receive-IsShort (receive_failed ∷ frames) = tt
  receive-IsShort (closed ∷ frames) = tt
  receive-IsShort (binary ∷ frames) = receive-IsShort frames
  receive-IsShort (message msg ∷ frames) =
      All-append IsShort (events_of parse msg) (receive parse frames) (events_of-IsShort msg)
        (receive-IsShort frames)

  session-IsShort : (frames : List Frame) → All (IsShort {J = J}) (session parse frames)
  unfolding session IsShort
  session-IsShort frames =
      (tt, All-append IsShort (receive parse frames) _ (receive-IsShort frames) (tt, tt))

  rest-IsShort :
      (running : Bool) (xs : List (Action J))
      → All IsShort xs
      → All IsShort (if running then xs else [])
  rest-IsShort true xs h = h
  rest-IsShort false xs h = tt

  -- From a wait of at least two seconds and at most a minute on, every wait that `WsClient::run` makes is one,
  -- whatever the server and the network do.
  pub run-IsShort :
      (url : UrlResult) (backoff : ℕ) (attempts : List (Attempt × Bool))
      → 2 ≤ backoff
      → backoff ≤ 60
      → All IsShort (run parse url backoff attempts)
  unfolding run IsShort next_backoff
  run-IsShort url backoff [] h k = tt
  run-IsShort url backoff ((no_token, running) ∷ attempts) h k =
      ((omega arith, omega arith), rest-IsShort running _ (run-IsShort url backoff attempts h k))
  run-IsShort url_throws backoff ((refused, running) ∷ attempts) h k = (tt, tt)
  run-IsShort url_throws backoff ((connected frames, running) ∷ attempts) h k = (tt, tt)
  run-IsShort url_refused backoff ((refused, running) ∷ attempts) h k = tt
  run-IsShort url_refused backoff ((connected frames, running) ∷ attempts) h k = tt
  run-IsShort (url_parsed u) backoff ((refused, running) ∷ attempts) h k = rest-IsShort running _ (
    (omega arith, omega arith),
    run-IsShort (url_parsed u) (next_backoff parse backoff) attempts (ground arith) (ground arith),
  )
  run-IsShort (url_parsed u) backoff ((connected frames, running) ∷ attempts) h k =
      All-append IsShort (session parse frames) _ (session-IsShort frames) (
        rest-IsShort running _ (
          (omega arith, omega arith),
          run-IsShort (url_parsed u) (next_backoff parse 2) attempts (ground arith) (ground arith),
        ))

  -- Failures in a row, the first of them behind a start or a channel that opened, are followed by waits of 2, 4,
  -- 8, 16, 32 and from then on 60 seconds each, and the loop goes on with the wait that follows them.
  pub run-failures :
      (u : ParsedUrl) (k n : ℕ) (attempts : List (Attempt × Bool))
      → run parse (url_parsed u) (delay k) (failures n ++ attempts)
        ≡ waits k n ++ run parse (url_parsed u) (delay (k + n)) attempts
  unfolding run failures waits
  run-failures u k zero attempts =
      ap (λ m. run parse (url_parsed u) (delay m) attempts) (omega arith)
  run-failures u k (suc n) attempts =
      ap (λ xs. sleeps (delay k * 2) ∷ xs)
        (ap (λ b. run parse (url_parsed u) b (failures n ++ attempts)) (next_backoff-delay k)
          ∙ run-failures u (suc k) n attempts
          ∙ ap (λ m. waits (suc k) n ++ run parse (url_parsed u) (delay m) attempts) (omega arith))
