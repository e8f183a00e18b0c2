-- ===== src/Udp.antt =====
-- src/udp_server.h and src/udp_server.cpp: the class UdpServer. What the system calls answer enters as
-- lists; `try_enqueue` of the queue library is a parameter, which says of a queue whether it takes
-- one event more.
pub mod Buffers
pub mod Intake
pub mod Epoll
pub mod Setup
mod Tests
use pgw.Base.{
  ℕ, zero, suc, ◌+◌, Bool, true, false, ◌&&◌, List, [], ◌∷◌, ◌++◌, Text, codes, if◌then◌else◌, take,
  length, leb, Option, none, some,
}
use pgw.Events.{Address, UdpEvent, Event, udp, Response}

abbrev pub buffer_size : ℕ
buffer_size = 1024

pub record Server : Type 0 where
  pub running : Bool
  pub server_fd : ℕ
  pub queue : List Event
  pub has_notification : Bool
  pub notified : ℕ
  pub sent : List Response

-- One answer of `recvfrom`: a datagram and its sender, or an error by its `errno`; with any other error than the two that the
-- loop knows, what then stands in `client_addr`.
pub data Received : Type 0 where
  datagram : List ℕ → Address → Received
  would_block interrupted : Received
  failure : Address → Received

abbrev pub Accepts : Type 0
Accepts = List Event → Bool

-- The bytes of a datagram land at the start of the buffer; what does not fit is lost.
unfoldable pub fill : List ℕ → List ℕ → List ℕ
fill [] buffer = buffer
fill (b ∷ bytes) [] = []
fill (b ∷ bytes) (old ∷ buffer) = b ∷ fill bytes buffer

-- The number that `recvfrom` returns.
unfoldable pub received_length : List ℕ → List ℕ → ℕ
received_length [] buffer = 0
received_length (b ∷ bytes) [] = 0
received_length (b ∷ bytes) (old ∷ buffer) = suc (received_length bytes buffer)

-- What `recvfrom` returns, an `ssize_t`.
pub data Length : Type 0 where
  counted : ℕ → Length
  minus_one : Length

-- The vector from `buffer.begin()` to `buffer.begin() + recv`; `none` if that is no range of the buffer, for which
-- the standard defines nothing.
unfoldable pub copy_range : Length → List ℕ → Option (List ℕ)
copy_range (counted n) buffer = if leb n (length buffer) then some (take n buffer) else none
copy_range minus_one buffer = none

-- `send_response`: what is handed to `sendto`; its failure is only logged.
unfoldable pub send_response : Text → Address → Server → Server
send_response text client s = record s {
  sent = s.sent ++ record { text = text; client = client } ∷ [];
}

unfoldable pub notify : Server → Server
notify s = if s.has_notification then record s { notified = s.notified + 1 } else s

-- The second half of the loop's body: a new event with a copy of the first `recv` bytes of the buffer.
unfoldable pub enqueue : Accepts → List ℕ → Address → Server → Server
unfolding notify send_response
enqueue accepts bytes client s =
    if accepts s.queue
    then notify (record s {
      queue =
          s.queue ++ udp (record { bytes = bytes; client_addr = client; has_response = true }) ∷ [];
    })
    else send_response (codes "rejected") client s

-- How `process_incoming_packets` ends: it returns the buffer and the server, `recvfrom` has not answered yet, or it
-- has copied what is no range of the buffer.
pub data Poll : Type 0 where
  returned waiting : List ℕ → Server → Poll
  undefined : Poll

unfoldable pub process_incoming_packets : Accepts → List Received → List ℕ → Server → Poll
process_incoming_packets accepts [] buffer s =
    if s.running then waiting buffer s else returned buffer s
process_incoming_packets accepts (would_block ∷ rest) buffer s = returned buffer s
process_incoming_packets accepts (interrupted ∷ rest) buffer s =
    let again = process_incoming_packets accepts rest buffer s in
    if s.running then again else returned buffer s
process_incoming_packets accepts (failure client ∷ rest) buffer s =
    let after_copy : Poll = elim (copy_range minus_one buffer) [
      | none ↦ undefined
      | some copied ↦ process_incoming_packets accepts rest buffer (enqueue accepts copied client s)
    ] in
    if s.running then after_copy else returned buffer s
process_incoming_packets accepts (datagram bytes client ∷ rest) buffer s =
    let filled = fill bytes buffer in
    let after_copy : Poll = elim (copy_range (counted (received_length bytes buffer)) filled) [
      | none ↦ undefined
      | some copied ↦ process_incoming_packets accepts rest filled (enqueue accepts copied client s)
    ] in
    if s.running then after_copy else returned buffer s
