-- ===== src/Udp/Epoll.antt =====
-- src/udp_server.cpp: `start` and `epoll_loop`. The answers of `epoll_wait`, and those of `recvfrom` for
-- each ready socket, enter as lists.
use pgw.Base.{
  ℕ, Bool, true, false, ◌&&◌, ◌==◌, List, [], ◌∷◌, ◌++◌, if◌then◌else◌, length, all, All, take, ◌≡◌,
  refl, arith, ◌∙◌,
}
use pgw.Udp.{
  Server, Received, datagram, interrupted, failure, enqueue, would_block, Accepts, Poll, returned,
  waiting, undefined, process_incoming_packets,
}
use pgw.Udp.Intake.{is_readable, offer_all, process-append}

-- One `epoll_event`; its errors are only logged.
pub record Ready : Type 0 where
  pub fd : ℕ
  pub readable : Bool
  pub reads : List Received

-- One answer of `epoll_wait`: events, EINTR, or another error.
pub data Wait : Type 0 where
  ready : List Ready → Wait
  eintr broken : Wait

-- `running_.exchange(true)`: whether the call starts the thread.
unfoldable pub start : Server → Server × Bool
start s = (record s { running = true }, if s.running then false else true)

-- What follows a read that returned.
abbrev pub and_then : Poll → (List ℕ → Server → Poll) → Poll
and_then (returned buffer s) next = next buffer s
and_then (waiting buffer s) next = waiting buffer s
and_then undefined next = undefined

unfoldable pub handle_ready : Accepts → List Ready → List ℕ → Server → Poll
handle_ready accepts [] buffer s = returned buffer s
handle_ready accepts (event ∷ rest) buffer s =
    and_then
      (if (event.fd == s.server_fd) && event.readable
        then process_incoming_packets accepts event.reads buffer s
        else returned buffer s)
      (handle_ready accepts rest)

unfoldable pub epoll_loop : Accepts → List Wait → List ℕ → Server → Poll
epoll_loop accepts [] buffer s = if s.running then waiting buffer s else returned buffer s
epoll_loop accepts (eintr ∷ rest) buffer s =
    let again = epoll_loop accepts rest buffer s in if s.running then again else returned buffer s
epoll_loop accepts (broken ∷ rest) buffer s = returned buffer s
epoll_loop accepts (ready events ∷ rest) buffer s =
    let round = and_then (handle_ready accepts events buffer s) (epoll_loop accepts rest) in
    if s.running then round else returned buffer s

-- The bursts, one after the other.
abbrev pub bursts : ℕ → List (List Received) → List Wait
bursts fd [] = []
bursts fd (reads ∷ rest) =
    ready (record { fd = fd; readable = true; reads = reads ++ would_block ∷ [] } ∷ [])
    ∷ bursts fd rest

abbrev pub offer_bursts : Accepts → ℕ → List (List Received) → Server → Server
offer_bursts accepts limit [] s = s
offer_bursts accepts limit (reads ∷ rest) s =
    offer_bursts accepts limit rest (offer_all accepts limit reads s)

offer_all-same :
    (accepts : Accepts) (limit : ℕ) (reads : List Received) (s : Server)
    → ((offer_all accepts limit reads s).running ≡ s.running)
      × ((offer_all accepts limit reads s).server_fd ≡ s.server_fd)
unfolding offer_all enqueue
offer_all-same accepts limit [] s = (refl, refl)
offer_all-same accepts limit (interrupted ∷ reads) s = offer_all-same accepts limit reads s
offer_all-same accepts limit (would_block ∷ reads) s = offer_all-same accepts limit reads s
offer_all-same accepts limit ((failure client) ∷ reads) s = offer_all-same accepts limit reads s
offer_all-same accepts limit (datagram bytes client ∷ reads) s =
    let t = enqueue accepts (take limit bytes) client s in
    ground (arith, offer_all-same accepts limit reads t)

module _ (accepts : Accepts) where
  handle_burst :
      (fd : ℕ) (reads : List Received) (buffer : List ℕ) (s : Server)
      → all is_readable reads ≡ true
      → s.running ≡ true
      → s.server_fd ≡ fd
      → (later : List ℕ) × (length later ≡ length buffer)
        × (handle_ready accepts
              (record { fd = fd; readable = true; reads = reads ++ would_block ∷ [] } ∷ [])
              buffer
              s
            ≡ returned later (offer_all accepts (length buffer) reads s))
  unfolding handle_ready process_incoming_packets
  handle_burst fd reads buffer s h r f =
      let (later, l, e, on) = process-append accepts reads (would_block ∷ []) buffer s h r in
      (later, l, ground (arith, e))

  epoll_round :
      (events : List Ready) (rest : List Wait) (buffer later : List ℕ) (s t : Server)
      → s.running ≡ true
      → handle_ready accepts events buffer s ≡ returned later t
      → epoll_loop accepts (ready events ∷ rest) buffer s ≡ epoll_loop accepts rest later t
  unfolding epoll_loop
  epoll_round events rest buffer later s t r e = ground arith

  -- While the server runs, the loop offers the datagrams of all bursts to the queue, in order, and then waits
  -- for more.
  pub epoll_loop-bursts :
      (fd : ℕ) (rounds : List (List Received)) (buffer : List ℕ) (s : Server)
      → All (λ reads. all is_readable reads ≡ true) rounds
      → s.running ≡ true
      → s.server_fd ≡ fd
      → (later : List ℕ) × (epoll_loop accepts (bursts fd rounds) buffer s
          ≡ waiting later (offer_bursts accepts (length buffer) rounds s))
  unfolding epoll_loop
  epoll_loop-bursts fd [] buffer s h r f = (buffer, ground arith)
  epoll_loop-bursts fd (reads ∷ rounds) buffer s h r f =
      let (b, l, e) = handle_burst fd reads buffer s h.0 r f in
      let (on, same) = offer_all-same accepts (length buffer) reads s in
      let (later, ih) =
        epoll_loop-bursts fd rounds b (offer_all accepts (length buffer) reads s) h.1 (on ∙ r)
          (same ∙ f) in
      (later, epoll_round _ _ buffer b s _ r e ∙ (rw l at ih))
