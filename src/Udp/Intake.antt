-- ===== src/Udp/Intake.antt =====
-- src/udp_server.cpp: no datagram that is read goes without an event or an answer.
use pgw.Base.{
  ℕ, suc, ◌+◌, Bool, true, false, List, [], ◌∷◌, ◌++◌, codes, take, length, length-append, all, ◌≡◌,
  refl, arith, ◌∙◌, ap,
}
use pgw.Events.{Address, udp}
use pgw.Udp.{
  Server, Received, datagram, would_block, interrupted, failure, Accepts, fill, copy_range, enqueue,
  Poll, returned, waiting, undefined, process_incoming_packets,
}
use pgw.Udp.Buffers.{length-fill, copy_range-fill}

-- The specification of a read: each datagram, cut at `limit` bytes, is offered to the queue in its turn.
unfoldable pub offer_all : Accepts → ℕ → List Received → Server → Server
offer_all accepts limit [] s = s
offer_all accepts limit (datagram bytes client ∷ rest) s =
    offer_all accepts limit rest (enqueue accepts (take limit bytes) client s)
offer_all accepts limit (_ ∷ rest) s = offer_all accepts limit rest s

-- What the loop goes on after: a datagram, or an interrupted call.
abbrev pub is_readable : Received → Bool
is_readable (datagram bytes client) = true
is_readable interrupted = true
is_readable would_block = false
is_readable (failure client) = false

-- An error that the loop does not know comes before the socket is found empty.
abbrev pub meets_failure : List Received → Bool
meets_failure [] = false
meets_failure (would_block ∷ rest) = false
meets_failure (interrupted ∷ rest) = meets_failure rest
meets_failure (failure client ∷ rest) = true
meets_failure (datagram bytes client ∷ rest) = meets_failure rest

abbrev pub is_undefined : Poll → Bool
is_undefined undefined = true
is_undefined (returned buffer s) = false
is_undefined (waiting buffer s) = false

enqueue-running :
    (accepts : Accepts) (bytes : List ℕ) (client : Address) (s : Server)
    → (enqueue accepts bytes client s).running ≡ s.running
unfolding enqueue
enqueue-running accepts bytes client s = ground arith

module _ (accepts : Accepts) where
  process-datagram :
      (bytes : List ℕ) (client : Address) (rest : List Received) (buffer : List ℕ) (s : Server)
      → s.running ≡ true
      → process_incoming_packets accepts (datagram bytes client ∷ rest) buffer s
        ≡ process_incoming_packets accepts rest
            (fill bytes buffer)
            (enqueue accepts (take (length buffer) bytes) client s)
  unfolding process_incoming_packets
  process-datagram bytes client rest buffer s r =
      rw (copy_range-fill bytes buffer, r, process_incoming_packets) refl

  -- The loop over what it goes on after, with any rest behind it.
  pub process-append :
      (reads rest : List Received) (buffer : List ℕ) (s : Server)
      → all is_readable reads ≡ true
      → s.running ≡ true
      → (later : List ℕ) × (length later ≡ length buffer)
        × (process_incoming_packets accepts (reads ++ rest) buffer s
            ≡ process_incoming_packets accepts rest later
                (offer_all accepts (length buffer) reads s))
        × ((offer_all accepts (length buffer) reads s).running ≡ true)
  unfolding process_incoming_packets offer_all
  process-append [] rest buffer s h r = (buffer, refl, refl, r)
  process-append (interrupted ∷ reads) rest buffer s h r =
      let (later, l, e, on) = process-append reads rest buffer s h r in (later, l, ground arith, on)
  process-append (would_block ∷ reads) rest buffer s h r = cc
  process-append (failure client ∷ reads) rest buffer s h r = cc
  process-append (datagram bytes client ∷ reads) rest buffer s h r =
      let t = enqueue accepts (take (length buffer) bytes) client s in
      let (later, l, e, on) =
        process-append reads rest (fill bytes buffer) t h
          (enqueue-running accepts (take (length buffer) bytes) client s ∙ r) in
      let same = length-fill bytes buffer in
      (
        later,
        l ∙ same,
        process-datagram bytes client (reads ++ rest) buffer s r ∙ (rw same at e),
        rw same at on,
      )

  -- Before the socket runs dry: the call returns, and every datagram, cut at the buffer's length, was offered to the
  -- queue in its turn.
  pub process_incoming_packets_lem :
      (reads rest : List Received) (buffer : List ℕ) (s : Server)
      → all is_readable reads ≡ true
      → s.running ≡ true
      → (later : List ℕ) × (process_incoming_packets accepts (reads ++ would_block ∷ rest) buffer s
          ≡ returned later (offer_all accepts (length buffer) reads s))
  unfolding process_incoming_packets
  process_incoming_packets_lem reads rest buffer s h r =
      let (later, l, e, on) = process-append reads (would_block ∷ rest) buffer s h r in (later, e)

  -- While the server runs, the call comes to copy what is no range of the buffer exactly if `recvfrom` fails with an error
  -- that the loop does not know before it finds the socket empty; no datagram, of whatever length, brings it there.
  pub process_incoming_packets-undefined :
      (reads : List Received) (buffer : List ℕ) (s : Server)
      → s.running ≡ true
      → is_undefined (process_incoming_packets accepts reads buffer s) ≡ meets_failure reads
  unfolding process_incoming_packets copy_range
  process_incoming_packets-undefined [] buffer s r = ground (arith, r)
  process_incoming_packets-undefined (would_block ∷ rest) buffer s r = refl
  process_incoming_packets-undefined (interrupted ∷ rest) buffer s r =
      ground (arith, r, process_incoming_packets-undefined rest buffer s r)
  process_incoming_packets-undefined (failure client ∷ rest) buffer s r = ground (arith, r)
  process_incoming_packets-undefined (datagram bytes client ∷ rest) buffer s r =
      ap is_undefined (process-datagram bytes client rest buffer s r)
      ∙ process_incoming_packets-undefined rest (fill bytes buffer)
          (enqueue accepts (take (length buffer) bytes) client s)
          (enqueue-running accepts (take (length buffer) bytes) client s ∙ r)

abbrev pub datagrams : List Received → ℕ
datagrams [] = 0
datagrams (datagram bytes client ∷ rest) = suc (datagrams rest)
datagrams (_ ∷ rest) = datagrams rest

enqueue-counts :
    (accepts : Accepts) (bytes : List ℕ) (client : Address) (s : Server)
    → s.has_notification ≡ true
    → (length (enqueue accepts bytes client s).queue + length (enqueue accepts bytes client s).sent
        ≡ length s.queue + length s.sent + 1)
      × ((enqueue accepts bytes client s).notified + length s.queue
          ≡ s.notified + length (enqueue accepts bytes client s).queue)
      × ((enqueue accepts bytes client s).has_notification ≡ true)
unfolding enqueue
enqueue-counts accepts bytes client s h = ground (
  arith,
  length-append s.queue
      (udp (record { bytes = bytes; client_addr = client; has_response = true }) ∷ []),
  length-append s.sent (record { text = codes "rejected"; client = client } ∷ []),
)

-- Each datagram adds one event to the queue or one answer to those sent, and the dispatcher is notified once for
-- each event.
pub offer_all-counts :
    (accepts : Accepts) (limit : ℕ) (reads : List Received) (s : Server)
    → s.has_notification ≡ true
    → let t = offer_all accepts limit reads s in
      (length t.queue + length t.sent ≡ length s.queue + length s.sent + datagrams reads)
      × (t.notified + length s.queue ≡ s.notified + length t.queue)
unfolding offer_all
offer_all-counts accepts limit [] s h = omega arith
offer_all-counts accepts limit (interrupted ∷ reads) s h = offer_all-counts accepts limit reads s h
offer_all-counts accepts limit (would_block ∷ reads) s h = offer_all-counts accepts limit reads s h
offer_all-counts accepts limit (failure client ∷ reads) s h =
    offer_all-counts accepts limit reads s h
offer_all-counts accepts limit (datagram bytes client ∷ reads) s h =
    let (one, noted, on) = enqueue-counts accepts (take limit bytes) client s h in
    let ih =
      offer_all-counts accepts limit reads (enqueue accepts (take limit bytes) client s) on in
    omega (arith, one, noted, ih)
