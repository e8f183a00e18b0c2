-- ===== src/App/Service.antt =====
-- The way of requests through the parts that src/pgw_server_app.cpp puts together: from the socket (src/udp_server.cpp)
-- over the queue to a worker (src/event_dispatcher.cpp), the sessions (src/session_manager.cpp) and back.
use pgw.Base.{
  ℕ, ◌≤◌, ◌≡◌, refl, sym, ap, ◌∙◌, arith, true, List, [], ◌∷◌, ◌++◌, append_assoc, append-nil, map,
  take, take_all, length, all, All, Text, codes, if◌then◌else◌, returns, ◌>>=◌, member,
}
use pgw.Imsi.{to_bcd}
use pgw.Imsi.Encode.{length-to_bcd}
use pgw.Imsi.Valid.{IsValid}
use pgw.Events.{Address, Event, udp, Response}
use pgw.Sessions.State.{Manager, Instant, emit_event}
use pgw.Sessions.Requests.{create_session, check_blacklist, open_session}
use pgw.Dispatcher.{handle_event, handle_events}
use pgw.Dispatcher.Datagrams.{handle_udp_event-to_bcd}
use pgw.Udp.{
  Server, Received, datagram, would_block, Accepts, enqueue, notify, returned,
  process_incoming_packets,
}
use pgw.Udp.Intake.{offer_all, is_readable, process_incoming_packets_lem}

-- A request: when a worker takes it, for whom, and where it comes from.
pub record Request : Type 0 where
  pub now : Instant
  pub imsi : Text
  pub client : Address

abbrev pub sent_as : Request → Received
sent_as r = datagram (to_bcd (record { digits = r.imsi })) r.client

abbrev pub queued_as : Request → Event
queued_as r = udp (record {
  bytes = to_bcd (record { digits = r.imsi });
  client_addr = r.client;
  has_response = true;
})

-- What is promised in return.
abbrev pub promised : List Text → Request → Response
promised blacklist r = record {
  text = if member r.imsi blacklist then codes "rejected" else codes "created";
  client = r.client;
}

-- The sessions after the requests, in order.
abbrev pub create_all : List Request → Manager → Manager
create_all [] m = m
create_all (r ∷ rs) m = create_all rs (create_session r.now r.imsi m).0

-- Each event with the instant at which it is handled.
abbrev pub taken_at : List Request → List Event → List (Instant × Event)
taken_at [] events = []
taken_at (r ∷ rs) [] = []
taken_at (r ∷ rs) (e ∷ events) = (r.now, e) ∷ taken_at rs events

create_session-blacklist :
    (now : Instant) (imsi : Text) (m : Manager)
    → (create_session now imsi m).0.blacklist ≡ m.blacklist
unfolding create_session check_blacklist open_session emit_event
create_session-blacklist now imsi m = ground arith

handle_events-promised :
    (rs : List Request) (m : Manager)
    → All (λ r. IsValid r.imsi) rs
    → handle_events (taken_at rs (map queued_as rs)) m
      ≡ returns (create_all rs m, map (promised m.blacklist) rs)
unfolding handle_events handle_event
handle_events-promised [] m v = refl
handle_events-promised (r ∷ rs) m v =
    ap
      (λ o. o >>= (λ x.
        handle_events (taken_at rs (map queued_as rs)) x.0 >>= (λ y. returns (y.0, x.1 ++ y.1))))
      (handle_udp_event-to_bcd r.now r.imsi
        (record {
          bytes = to_bcd (record { digits = r.imsi });
          client_addr = r.client;
          has_response = true;
        })
        m v.0 refl refl)
    ∙ ap (λ o. o >>= (λ y. returns (y.0, promised m.blacklist r ∷ y.1)))
        (handle_events-promised rs (create_session r.now r.imsi m).0 v.1)
    ∙ ap
        (λ b. returns (
          create_all rs (create_session r.now r.imsi m).0,
          promised m.blacklist r ∷ map (promised b) rs,
        ))
        (create_session-blacklist r.now r.imsi m)

enqueue-roomy :
    (accepts : Accepts) (bytes : List ℕ) (client : Address) (s : Server)
    → accepts s.queue ≡ true
    → ((enqueue accepts bytes client s).queue
        ≡ s.queue ++ udp (record { bytes = bytes; client_addr = client; has_response = true }) ∷ [])
unfolding enqueue notify
enqueue-roomy accepts bytes client s h = ground (arith, h)

offer_all-queued :
    (accepts : Accepts) (limit : ℕ) (rs : List Request) (s : Server)
    → ((queue : List Event) → accepts queue ≡ true)
    → 8 ≤ limit
    → All (λ r. IsValid r.imsi) rs
    → (offer_all accepts limit (map sent_as rs) s).queue ≡ s.queue ++ map queued_as rs
unfolding offer_all
offer_all-queued accepts limit [] s roomy wide v = sym (append-nil s.queue)
offer_all-queued accepts limit (r ∷ rs) s roomy wide v =
    let bytes = to_bcd (record { digits = r.imsi }) in
    let whole : take limit bytes ≡ bytes =
      take_all limit bytes (omega (arith, length-to_bcd r.imsi, v.0.short)) in
    let t = enqueue accepts (take limit bytes) r.client s in
    offer_all-queued accepts limit rs t roomy wide v.1
    ∙ ap (λ q. q ++ map queued_as rs)
        (enqueue-roomy accepts (take limit bytes) r.client s (roomy s.queue))
    ∙ ap
        (λ b.
          (s.queue ++ udp (record { bytes = b; client_addr = r.client; has_response = true }) ∷ [])
          ++ map queued_as rs)
        whole
    ∙ append_assoc s.queue (queued_as r ∷ []) (map queued_as rs)

sent_as-is_readable : (rs : List Request) → all is_readable (map sent_as rs) ≡ true
sent_as-is_readable [] = refl
sent_as-is_readable (r ∷ rs) = sent_as-is_readable rs

-- A running server whose queue has room and whose buffer has eight bytes or more reads the datagrams of any
-- requests for valid IMSIs into its empty queue; a worker that takes them in order sends each client the answer
-- promised by the blacklist, and leaves the sessions that the requests make one after the other.
pub requests-promised :
    (accepts : Accepts) (rs : List Request) (buffer : List ℕ) (s : Server) (m : Manager)
    → ((queue : List Event) → accepts queue ≡ true)
    → 8 ≤ length buffer
    → All (λ r. IsValid r.imsi) rs
    → s.running ≡ true
    → s.queue ≡ []
    → (later : List ℕ) × (t : Server) × (process_incoming_packets accepts
          (map sent_as rs ++ would_block ∷ [])
          buffer
          s
        ≡ returned later t)
      × (handle_events (taken_at rs t.queue) m
          ≡ returns (create_all rs m, map (promised m.blacklist) rs))
requests-promised accepts rs buffer s m roomy wide v on empty =
    let (later, e) =
      process_incoming_packets_lem accepts (map sent_as rs) [] buffer s (sent_as-is_readable rs)
        on in
    let queued =
      offer_all-queued accepts (length buffer) rs s roomy wide v
      ∙ ap (λ q. q ++ map queued_as rs) empty in
    (
      later,
      offer_all accepts (length buffer) (map sent_as rs) s,
      e,
      ap (λ q. handle_events (taken_at rs q) m) queued ∙ handle_events-promised rs m v,
    )
