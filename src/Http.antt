-- ===== src/Http.antt =====
-- src/http_server.h and src/http_server.cpp: the class HttpServer. httplib's server enters by what its `listen` did;
-- Routes has what it was told about routing.
pub mod Handlers
pub mod Lifecycle
pub mod Routes
mod Tests
use pgw.Base.{
  ℕ, ◌+◌, ◌-◌, Bool, true, false, List, Text, codes, Option, none, some, if◌then◌else◌, Outcome,
  returns, throws, terminates, ◌>>=◌, try_catch,
}
use pgw.Json.{JsonLibrary}
use pgw.Sessions.State.{Manager}
use pgw.Sessions.Requests.{session_exists}
use pgw.Sessions.Shutdown.{start_graceful_shutdown}

pub record HttpResponse : Type 0 where
  pub status : ℕ
  pub content : Text

abbrev pub text_plain : ℕ → Text → HttpResponse
text_plain status content = record { status = status; content = content }

unfoldable pub check_field : Option Text → Manager → HttpResponse
check_field none m = text_plain 400 (codes "Invalid request: missing 'imsi' field")
check_field (some imsi) m =
    text_plain 200 (if session_exists imsi m then codes "active" else codes "not active")

module _ (json : JsonLibrary) where
  -- The field "imsi" of a request, if it is there and a string.
  unfoldable pub imsi_field : json.Value → Option Text
  imsi_field value = elim (json.member_of (codes "imsi") value) [
    | none ↦ none
    | some field ↦ json.as_string field
  ]

  unfoldable pub check_parsed : Option json.Value → Manager → HttpResponse
  check_parsed none m = text_plain 400 (codes "Invalid JSON")
  check_parsed (some value) m = check_field (imsi_field value) m

  unfoldable pub handle_check_subscriber : Text → Manager → HttpResponse
  handle_check_subscriber body m = check_parsed (json.parse body) m

-- `joinable` is that of `server_thread_`; `pending_stops` counts the detached threads that have not come back from `stop`,
-- and `stopping` says that one of them is between the exchange of the flag and its `join`.
pub record HttpServer : Type 0 where
  pub running : Bool
  pub joinable : Bool
  pub shutdown_requested : Bool
  pub stopping : Bool
  pub pending_stops : ℕ

abbrev pub new_server : HttpServer
new_server = record {
  running = false;
  joinable = false;
  shutdown_requested = false;
  stopping = false;
  pending_stops = 0;
}

-- Assigning to a `std::thread` that is still joinable is `std::terminate`.
unfoldable pub start : HttpServer → Outcome HttpServer
start s =
    if s.running
    then returns s
    else (if s.joinable then terminates else returns (record s { running = true; joinable = true }))

-- The server's thread, when `listen` came back: with an error, or after a stop.
unfoldable pub listen_ended : HttpServer → HttpServer
listen_ended s = record s { running = false }

-- A call that no `start` of another thread meets.
unfoldable pub stop : HttpServer → HttpServer
stop s = if s.running then record s { running = false; joinable = false } else s

-- The destructor: `stop`, then the members'. That of a joinable `std::thread` is `std::terminate`.
unfoldable pub destroy : HttpServer → Outcome HttpServer
destroy s = let t = stop s in if t.joinable then terminates else returns t

-- A detached thread's call of `stop`, whose other threads go on meanwhile, in two steps: the exchange of the flag, after
-- which the call is over if the flag was down, and the `join`.
unfoldable pub delayed_exchange : HttpServer → HttpServer
delayed_exchange s =
    if s.running
    then record s { running = false; stopping = true }
    else record s { pending_stops = s.pending_stops - 1 }

unfoldable pub delayed_join : HttpServer → HttpServer
delayed_join s =
    if s.stopping
    then record s { joinable = false; stopping = false; pending_stops = s.pending_stops - 1 }
    else s

unfoldable pub handle_stop : HttpServer → Manager → Outcome (HttpServer × Manager × HttpResponse)
handle_stop s m =
    try_catch
      (do
        n ← start_graceful_shutdown m
        returns (
          record s { shutdown_requested = true; pending_stops = s.pending_stops + 1 },
          n,
          text_plain 200 (codes "Graceful shutdown initiated"),
        ))
      (λ what. returns (s, m, text_plain 500 (codes "Internal server error")))
