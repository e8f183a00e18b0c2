-- ===== src/Dispatcher.antt =====
-- src/event_dispatcher.cpp: the class EventDispatcher. Here what a worker does with an event; Workers has
-- the threads that wait for events.
pub mod Datagrams
pub mod Workers
pub mod Joining
pub mod WakeUps
pub mod Exclusion
pub mod Progress
pub mod Recovery
mod Tests
use pgw.Base.{
  ℕ, Bool, true, false, List, [], ◌∷◌, ◌++◌, Text, codes, if◌then◌else◌, Outcome, returns, throws,
  terminates, ◌>>=◌, try_catch,
}
use pgw.Imsi.{Imsi, from_bcd}
use pgw.Sessions.State.{Manager, Instant}
use pgw.Sessions.Requests.{CreateResult, created, already_exists, blacklisted, create_session}
use pgw.Events.{UdpEvent, HttpEvent, Event, udp, http, Response}

unfoldable pub response_text : CreateResult → Text
response_text created = codes "created"
response_text already_exists = codes "created"
response_text blacklisted = codes "rejected"

-- `if (event.response_callback) event.response_callback(text, event.client_addr)`.
unfoldable pub respond : UdpEvent → Text → List Response
respond event text =
    if event.has_response then record { text = text; client = event.client_addr } ∷ [] else []

unfoldable pub handle_udp_event : Instant → UdpEvent → Manager → Outcome (Manager × List Response)
handle_udp_event now event m =
    try_catch
      (do
        imsi ← from_bcd event.bytes
        let (n, result) = create_session now imsi.digits m
        returns (n, respond event (response_text result)))
      (λ e. returns (m, respond event (codes "rejected")))

-- `std::visit`: nothing is done with an HTTP event.
unfoldable pub handle_event : Instant → Event → Manager → Outcome (Manager × List Response)
handle_event now (udp event) m = handle_udp_event now event m
handle_event now (http event) m = returns (m, [])

-- The inner loop of a worker, over the events that it takes from the queue.
unfoldable pub handle_events : List (Instant × Event) → Manager → Outcome (Manager × List Response)
handle_events [] m = returns (m, [])
handle_events ((now, event) ∷ rest) m = do
  (n, sent) ← handle_event now event m
  (o, more) ← handle_events rest n
  returns (o, sent ++ more)
