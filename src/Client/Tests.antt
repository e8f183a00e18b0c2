-- ===== src/Client/Tests.antt =====
-- client/: the theorems at inputs.
use pgw.Base.{Text_discrete, ◌≡◌, refl, arith, true, [], ◌∷◌, Text, codes, member}
use pgw.Imsi.{to_bcd}
use pgw.Imsi.Valid.{IsValid}
use pgw.Events.{Address, Response}
use pgw.Sessions.State.{Manager, Instant, init}
use pgw.Sessions.Requests.{create_session}
use pgw.Dispatcher.Datagrams.{handle_udp_event-to_bcd}
use pgw.Client.{success, Answers, accepted, readable, datagram, send_imsi_with_response}
use pgw.Client.Replies.{verdict, send_imsi_with_response-handle_udp_event}

abbrev subscriber : Text
subscriber = codes "123456789012345"

subscriber-IsValid : IsValid subscriber
subscriber-IsValid = omega arith

abbrev server : Address
server = record { s_addr = 2130706433; sin_port = 9000 }

abbrev here : Address
here = record { s_addr = 2130706433; sin_port = 5000 }

abbrev manager : Manager
manager = init 30 20 (subscriber ∷ []) true

abbrev noon : Instant
noon = record { steady = 5; system = 9; ticks = λ left. 9 }

abbrev rejection : Answers
rejection = record {
  start_time = 0;
  end_time = 7000000;
  sent = accepted 8;
  selected = readable;
  received = datagram (codes "rejected") server;
}

abbrev response : Response
response = record { text = codes "rejected"; client = here }

send_imsi_with_response-handle_udp_event_example :
    ((send_imsi_with_response rejection subscriber).0
      ≡ to_bcd (record { digits = subscriber }) ∷ [])
    × ((send_imsi_with_response rejection subscriber).1.result ≡ success)
    × ((send_imsi_with_response rejection subscriber).1.response_text ≡ verdict subscriber manager)
unfolding member init Text_discrete
send_imsi_with_response-handle_udp_event_example =
    send_imsi_with_response-handle_udp_event rejection 8 noon subscriber manager here server
      (create_session noon subscriber manager).0 response subscriber-IsValid
      (handle_udp_event-to_bcd noon subscriber
        (record {
          bytes = to_bcd (record { digits = subscriber });
          client_addr = here;
          has_response = true;
        })
        manager subscriber-IsValid refl refl)
      refl refl refl

rejection-success : (send_imsi_with_response rejection subscriber).1.result ≡ success
rejection-success = send_imsi_with_response-handle_udp_event_example.1
