-- ===== src/Dispatcher/Datagrams.antt =====
-- src/event_dispatcher.cpp: what becomes of a datagram, from the client's coding to the answer.
use pgw.Base.{
  true, [], ◌∷◌, Text, codes, if◌then◌else◌, returns, terminates, ◌≡◌, arith, ite, if_pos, if_neg,
  All, member,
}
use pgw.Imsi.{to_bcd}
use pgw.Imsi.Valid.{IsValid}
use pgw.Imsi.Decode.{IsByte, IsPacket-dec, decoded, from_bcd-IsPacket, from_bcd-not_IsPacket}
use pgw.Imsi.RoundTrip.{from_bcd-to_bcd}
use pgw.Sessions.State.{Manager, Instant}
use pgw.Sessions.Requests.{create_session, check_blacklist, open_session}
use pgw.Sessions.Refinement.{is_imsi-IsValid}
use pgw.Events.{UdpEvent}
use pgw.Dispatcher.{response_text, respond, handle_udp_event}

-- A datagram that codes an IMSI is handled by `create_session` on that IMSI, and the sender gets the one answer that
-- the result stands for. At any other datagram the process ends, `catch` clause or not.
pub handle_udp_event_lem :
    (now : Instant) (event : UdpEvent) (m : Manager)
    → All IsByte event.bytes
    → handle_udp_event now event m
      ≡ ite
          (IsPacket-dec event.bytes)
          (returns (
            (create_session now (decoded event.bytes) m).0,
            respond event (response_text (create_session now (decoded event.bytes) m).1),
          ))
          terminates
unfolding handle_udp_event
handle_udp_event_lem now event m h = elim (IsPacket-dec event.bytes) [
  | yes p ↦ rw (from_bcd-IsPacket event.bytes h p, if_pos (IsPacket-dec event.bytes) p)
  | no n ↦ rw (from_bcd-not_IsPacket event.bytes h n, if_neg (IsPacket-dec event.bytes) n)
]

-- What the answer to a valid IMSI says.
create_session-answer :
    (now : Instant) (imsi : Text) (m : Manager)
    → IsValid imsi
    → response_text (create_session now imsi m).1
      ≡ (if member imsi m.blacklist then codes "rejected" else codes "created")
unfolding create_session check_blacklist open_session response_text
create_session-answer now imsi m v = ground (arith, is_imsi-IsValid imsi v)

-- From client to server: for a valid IMSI the datagram that the client's `to_bcd` writes is answered "rejected" if the IMSI
-- stands in the blacklist and "created" if not, and the manager has run `create_session` on that IMSI.
pub handle_udp_event-to_bcd :
    (now : Instant) (imsi : Text) (event : UdpEvent) (m : Manager)
    → IsValid imsi
    → event.bytes ≡ to_bcd (record { digits = imsi })
    → event.has_response ≡ true
    → handle_udp_event now event m
      ≡ returns (
        (create_session now imsi m).0,
        record {
          text = if member imsi m.blacklist then codes "rejected" else codes "created";
          client = event.client_addr;
        }
            ∷ [],
      )
unfolding handle_udp_event respond
handle_udp_event-to_bcd now imsi event m v e r =
    rw (e, (from_bcd-to_bcd imsi v).0, create_session-answer now imsi m v, r)
