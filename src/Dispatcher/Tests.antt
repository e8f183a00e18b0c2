-- ===== src/Dispatcher/Tests.antt =====
-- src/event_dispatcher.cpp: the theorems at inputs.
use pgw.Base.{ℕ, ◌≡◌, true, List, [], ◌∷◌, codes, arith, returns, terminates, ite}
use pgw.Imsi.Decode.{IsPacket-dec, decoded}
use pgw.Sessions.State.{Manager, Instant, init}
use pgw.Sessions.Requests.{create_session}
use pgw.Events.{Address, UdpEvent, Event, udp}
use pgw.Dispatcher.{respond, response_text, handle_udp_event}
use pgw.Dispatcher.Datagrams.{handle_udp_event_lem}
use pgw.Dispatcher.Workers.{new_pool, Reach}
use pgw.Dispatcher.Joining.{IsServing, Reach-IsServing}
use pgw.Dispatcher.WakeUps.{stranded, stranded-Reach}

abbrev client : Address
client = record { s_addr = 2130706433; sin_port = 5000 }

abbrev manager : Manager
manager = init 30 20 (codes "001010123456789" ∷ []) true

abbrev noon : Instant
noon = record { steady = 5; system = 9; ticks = λ left. 9 }

abbrev datagram : List ℕ → UdpEvent
datagram bytes = record { bytes = bytes; client_addr = client; has_response = true }

handle_udp_event_lem_example :
    handle_udp_event noon (datagram (0x21 ∷ [])) manager
    ≡ ite
        (IsPacket-dec (0x21 ∷ []))
        (returns (
          (create_session noon (decoded (0x21 ∷ [])) manager).0,
          respond
              (datagram (0x21 ∷ []))
              (response_text (create_session noon (decoded (0x21 ∷ [])) manager).1),
        ))
        terminates
handle_udp_event_lem_example =
    handle_udp_event_lem noon (datagram (0x21 ∷ [])) manager (omega arith)

abbrev packet_event : Event
packet_event = udp (datagram (0x21 ∷ []))

Reach-IsServing_example : IsServing (stranded packet_event)
Reach-IsServing_example = Reach-IsServing 1 (stranded-Reach packet_event)

stranded-Reach_example : Reach (new_pool 1) (stranded packet_event)
stranded-Reach_example = stranded-Reach packet_event
