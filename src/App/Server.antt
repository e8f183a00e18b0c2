-- ===== src/App/Server.antt =====
-- The running server of src/pgw_server_app.cpp: the UDP server's thread, the queue, the workers with their calls of
-- `create_session`, and the threads of the SessionManager, as steps in any order. A packet that ends the process
-- (src/event_dispatcher.cpp:59) is no step; what `try_enqueue` answers is left open.
pub mod Answers
pub mod Verdicts
pub mod Histories
pub mod Records
pub mod Checks
pub mod Refusals
pub mod Completion
mod Tests
use pgw.Base.{
  ℕ, ◌==◌, Bool, true, false, List, [], ◌∷◌, ◌++◌, ◌≡◌, Option, none, some, Text, codes, returns,
  if◌then◌else◌,
}
use pgw.Imsi.{Imsi, from_bcd}
use pgw.Events.{Address, UdpEvent, HttpEvent, Event, udp, http, Response}
use pgw.Sessions.State.{Manager, Instant}
use pgw.Sessions.Requests.{blacklisted, open_session}
use pgw.Sessions.Threads.{Thread, between, opening, begin_create, Action, act}
use pgw.Dispatcher.{response_text, respond}
use pgw.Dispatcher.Workers.{
  polling, handling, Pool, At, move, IsIdle, Step, leaves, takes, misses, handles, locks, holds,
  fails, blocks, clears, enqueues, announces, notifies, notifies_nobody, stops,
}

-- `calls` says of a worker whether it stands between the two sections of `create_session`, and for which subscriber.
-- `received` are the senders of the datagrams that the UDP server has read, oldest first.
pub record Server : Type 0 where
  pub pool : Pool
  pub manager : Manager
  pub calls : ℕ → Option Text
  pub received : List Address
  pub sent : List Response

abbrev pub new_server : Pool → Manager → Server
new_server p m = record { pool = p; manager = m; calls = λ i. none; received = []; sent = [] }

abbrev pub request : List ℕ → Address → UdpEvent
request bytes client = record { bytes = bytes; client_addr = client; has_response = true }

abbrev pub enter : Pool → Event → Pool
enter p e = record p { queue = p.queue ++ e ∷ []; arrived = p.arrived ++ e ∷ [] }

abbrev pub assign : (ℕ → Option Text) → ℕ → Option Text → ℕ → Option Text
assign calls i call j = if j == i then call else calls j

-- The section of a worker's `create_session` up to the check of the blacklist.
abbrev pub checked : Instant → Text → Manager → Manager × Thread
checked now imsi m = begin_create now imsi [] m

-- A section of the manager's own threads, or a start of the graceful shutdown.
abbrev pub in_background : Action → Manager → Manager
in_background a m = (act a (record { manager = m; threads = [] })).manager

pub data Serve : Server → Server → Type 0 where
  works :
      (s : Server) {p : Pool} (step : Step s.pool p) → IsIdle step → Serve s (record s { pool = p })
  queues :
      (s : Server) (bytes : List ℕ) (client : Address)
      → Serve s (record s {
        pool = enter s.pool (udp (request bytes client));
        received = s.received ++ client ∷ [];
      })
  bounces :
      (s : Server) (client : Address)
      → Serve s (record s {
        received = s.received ++ client ∷ [];
        sent = s.sent ++ record { text = codes "rejected"; client = client } ∷ [];
      })
  refuses :
      (s : Server) (i : ℕ) (event : UdpEvent) (imsi : Imsi) (now : Instant)
      → At s.pool i (handling (udp event))
      → s.calls i ≡ none
      → from_bcd event.bytes ≡ returns imsi
      → (checked now imsi.digits s.manager).1 ≡ between []
      → Serve s (record s {
        pool = move s.pool i polling;
        manager = (checked now imsi.digits s.manager).0;
        sent = s.sent ++ respond event (response_text blacklisted);
      })
  admits :
      (s : Server) (i : ℕ) (event : UdpEvent) (imsi : Imsi) (now : Instant)
      → At s.pool i (handling (udp event))
      → s.calls i ≡ none
      → from_bcd event.bytes ≡ returns imsi
      → (checked now imsi.digits s.manager).1 ≡ opening now imsi.digits []
      → Serve s (record s {
        manager = (checked now imsi.digits s.manager).0;
        calls = assign s.calls i (some imsi.digits);
      })
  answers :
      (s : Server) (i : ℕ) (event : UdpEvent) (imsi : Text) (now : Instant)
      → At s.pool i (handling (udp event))
      → s.calls i ≡ some imsi
      → Serve s (record s {
        pool = move s.pool i polling;
        manager = (open_session now imsi s.manager).0;
        calls = assign s.calls i none;
        sent = s.sent ++ respond event (response_text (open_session now imsi s.manager).1);
      })
  ignores :
      (s : Server) (i : ℕ) (event : HttpEvent)
      → At s.pool i (handling (http event))
      → Serve s (record s { pool = move s.pool i polling })
  background :
      (s : Server) (a : Action) → Serve s (record s { manager = in_background a s.manager })

pub data Serves (s : Server) : Server → Type 0 where
  at_start : Serves s s
  after : {t u : Server} → Serves s t → Serve t u → Serves s u
