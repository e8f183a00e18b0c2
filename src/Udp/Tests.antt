-- ===== src/Udp/Tests.antt =====
-- src/udp_server.cpp: the theorems at inputs.
use pgw.Base.{ℕ, ◌≡◌, refl, true, List, [], ◌∷◌, ◌++◌, length, replicate}
use pgw.Events.{Address}
use pgw.Udp.{
  Server, Received, datagram, interrupted, failure, Accepts, waiting, process_incoming_packets,
}
use pgw.Udp.Intake.{process_incoming_packets-undefined, meets_failure, is_undefined}
use pgw.Udp.Epoll.{epoll_loop, bursts, offer_bursts, epoll_loop-bursts}

abbrev client : Address
client = record { s_addr = 2130706433; sin_port = 5000 }

abbrev server : Server
server = record {
  running = true;
  server_fd = 3;
  queue = [];
  has_notification = true;
  notified = 0;
  sent = [];
}

-- A queue that never refuses.
abbrev roomy : Accepts
roomy queue = true

abbrev buffer : List ℕ
buffer = replicate 4 0

abbrev reads : List Received
reads =
    datagram (0x21 ∷ 0xF3 ∷ []) client ∷ interrupted ∷ datagram (1 ∷ 2 ∷ 3 ∷ 4 ∷ 5 ∷ []) client ∷ []

process_incoming_packets-undefined_example :
    is_undefined (process_incoming_packets roomy (reads ++ failure client ∷ []) buffer server)
    ≡ meets_failure (reads ++ failure client ∷ [])
process_incoming_packets-undefined_example =
    process_incoming_packets-undefined roomy (reads ++ failure client ∷ []) buffer server refl

epoll_loop-bursts_example :
    (later : List ℕ) × (epoll_loop roomy (bursts 3 (reads ∷ reads ∷ [])) buffer server
      ≡ waiting later (offer_bursts roomy (length buffer) (reads ∷ reads ∷ []) server))
epoll_loop-bursts_example =
    epoll_loop-bursts roomy 3 (reads ∷ reads ∷ []) buffer server (refl, (refl, tt)) refl refl
