-- ===== src/Client/Replies.antt =====
-- client/udp_client.cpp: when a request succeeds, and what it then says.
use pgw.Base.{
  ℕ, ◌+◌, ◌*◌, ◌<◌, ◌≡◌, ◌≢◌, refl, true, sym, ap, Bool-cases, ◌∙◌, ite, subst, if_pos, if_neg, ◌⊎◌,
  inl, inr, List, [], ◌∷◌, Text, codes, Text_discrete, take, arith, returns, if◌then◌else◌, member,
}
use pgw.Imsi.{to_bcd}
use pgw.Imsi.Valid.{IsValid, IsValid-dec, make-IsValid, make-not_IsValid}
use pgw.Events.{Address, UdpEvent, Response}
use pgw.Sessions.State.{Manager, Instant}
use pgw.Dispatcher.{handle_udp_event}
use pgw.Dispatcher.Datagrams.{handle_udp_event-to_bcd}
use pgw.Client.{
  success, invalid_response, reply, Sent, accepted, would_block, refused, Selected, interrupted,
  timed_out, readable, other_descriptor, select_failed, Received, no_data, receive_failed, datagram,
  receive_response, validate, to_timeval, wait_for_response, Answers, request, send_made,
  send_imsi_with_response,
}

-- The seconds and microseconds of the `timeval` are the timeout, and it is a proper one.
to_timeval_lem :
    (ms : ℕ)
    → ((to_timeval ms).tv_sec * 1000000 + (to_timeval ms).tv_usec ≡ ms * 1000)
      × ((to_timeval ms).tv_usec < 1000000)
unfolding to_timeval
to_timeval_lem ms = omega arith

-- One of the two words of the protocol.
abbrev pub IsAnswer : Text → Type 0
IsAnswer t = (t ≡ codes "created") ⊎ (t ≡ codes "rejected")

-- `validate` by its two tests.
validate-created : (t : Text) → t ≡ codes "created" → validate t ≡ reply success t
unfolding validate
validate-created t p =
    if_pos (Text_discrete t (codes "created")) p (reply success t)
      (ite (Text_discrete t (codes "rejected")) (reply success t) (reply invalid_response t))

validate-not_created :
    (t : Text)
    → t ≢ codes "created"
    → validate t
      ≡ ite (Text_discrete t (codes "rejected")) (reply success t) (reply invalid_response t)
unfolding validate
validate-not_created t n =
    if_neg (Text_discrete t (codes "created")) n (reply success t)
      (ite (Text_discrete t (codes "rejected")) (reply success t) (reply invalid_response t))

validate-cases :
    (t : Text)
    → (IsAnswer t × (validate t ≡ reply success t)) ⊎ (validate t ≡ reply invalid_response t)
validate-cases t = elim (Text_discrete t (codes "created")) [
  | yes p ↦ inl (inl p, validate-created t p)
  | no n ↦ elim (Text_discrete t (codes "rejected")) [
    | yes q ↦ inl (
      inr q,
      validate-not_created t n
          ∙ if_pos (Text_discrete t (codes "rejected")) q (reply success t)
              (reply invalid_response t),
    )
    | no k ↦ inr (
        validate-not_created t n
        ∙ if_neg (Text_discrete t (codes "rejected")) k (reply success t)
            (reply invalid_response t))
  ]
]

validate-IsAnswer : (t : Text) → (validate t).result ≡ success → IsAnswer (validate t).response_text
validate-IsAnswer t h = elim (validate-cases t) [
  | inl (a, e) ↦ subst (λ r. IsAnswer r.response_text) (sym e) a
  | inr e ↦ cc (h, e)
]

IsAnswer-validate : (t : Text) → IsAnswer t → validate t ≡ reply success t
IsAnswer-validate t (inl p) = validate-created t p
IsAnswer-validate t (inr q) = elim (Text_discrete t (codes "created")) [
  | yes p ↦ validate-created t p
  | no n ↦
      validate-not_created t n
      ∙ if_pos (Text_discrete t (codes "rejected")) q (reply success t) (reply invalid_response t)
]

receive_response-success :
    (r : Received)
    → (receive_response r).result ≡ success
    → IsAnswer (receive_response r).response_text
unfolding receive_response
receive_response-success no_data h = cc
receive_response-success (receive_failed e) h = cc
receive_response-success (datagram [] from) h = cc
receive_response-success (datagram (b ∷ bytes) from) h = validate-IsAnswer (take 1023 (b ∷ bytes)) h

-- The sender of the datagram has no say in what the client makes of it.
pub receive_response-sender :
    (bytes : List ℕ) (from other : Address)
    → receive_response (datagram bytes from) ≡ receive_response (datagram bytes other)
unfolding receive_response
receive_response-sender [] from other = refl
receive_response-sender (b ∷ bytes) from other = refl

-- The waiting and the reading together: a success is a word of the protocol that `select` announced.
wait_for_response-success :
    (s : Selected)
    → (r : Received) → (wait_for_response s r).result ≡ success
    → (s ≡ readable) × IsAnswer (wait_for_response s r).response_text
unfolding wait_for_response
wait_for_response-success interrupted r h = cc
wait_for_response-success (select_failed e) r h = cc
wait_for_response-success timed_out r h = cc
wait_for_response-success readable r h = (refl, receive_response-success r h)
wait_for_response-success other_descriptor r h = cc

request-success :
    (a : Answers) (s : Sent)
    → (request a s).result ≡ success
    → (a.selected ≡ readable) × IsAnswer (request a s).response_text
unfolding request
request-success a would_block h = cc
request-success a (refused e) h = cc
request-success a (accepted n) h = wait_for_response-success a.selected a.received h

-- A request that ends in success sent one datagram, the code of a valid IMSI, and brought "created" or "rejected".
send_imsi_with_response-success :
    (a : Answers)
    → (imsi : Text) → (send_imsi_with_response a imsi).1.result ≡ success
    → IsValid imsi
      × ((send_imsi_with_response a imsi).0 ≡ to_bcd (record { digits = imsi }) ∷ [])
      × IsAnswer (send_imsi_with_response a imsi).1.response_text
unfolding send_imsi_with_response send_made
send_imsi_with_response-success a imsi h = elim (IsValid-dec imsi) [
  | yes v ↦ ground (arith, make-IsValid imsi v, request-success a a.sent)
  | no n ↦ ground (arith, make-not_IsValid imsi n)
]

-- An invalid IMSI is refused before anything is sent; a valid one is sent, once.
pub send_imsi_with_response-datagrams :
    (a : Answers)
    → (imsi : Text)
    → send_imsi_with_response a imsi
      ≡ ite
          (IsValid-dec imsi)
          (to_bcd (record { digits = imsi }) ∷ [], request a a.sent)
          ([], reply invalid_response (codes "Invalid IMSI string"))
unfolding send_imsi_with_response send_made
send_imsi_with_response-datagrams a imsi = elim (IsValid-dec imsi) [
  | yes v ↦ rw (make-IsValid imsi v, if_pos (IsValid-dec imsi) v)
  | no n ↦ rw (make-not_IsValid imsi n, if_neg (IsValid-dec imsi) n)
]

take-IsAnswer : (t : Text) → IsAnswer t → take 1023 t ≡ t
take-IsAnswer t (inl p) = ap (take 1023) p ∙ sym p
take-IsAnswer t (inr q) = ap (take 1023) q ∙ sym q

receive_response-IsAnswer :
    (t : Text) (from : Address) → IsAnswer t → receive_response (datagram t from) ≡ reply success t
unfolding receive_response
receive_response-IsAnswer [] from (inl p) = cc
receive_response-IsAnswer [] from (inr q) = cc
receive_response-IsAnswer (b ∷ rest) from a =
    ap validate (take-IsAnswer (b ∷ rest) a) ∙ IsAnswer-validate (b ∷ rest) a

abbrev pub verdict : Text → Manager → Text
verdict imsi m = if member imsi m.blacklist then codes "rejected" else codes "created"

verdict-IsAnswer : (imsi : Text) (m : Manager) → IsAnswer (verdict imsi m)
verdict-IsAnswer imsi m = elim (Bool-cases (member imsi m.blacklist)) [
  | inl e ↦ inr (rw (e))
  | inr e ↦ inl (rw (e))
]

-- What the client makes of the answer, once it came through.
request-verdict :
    (a : Answers) (n : ℕ) (imsi : Text) (m : Manager) (server : Address)
    → a.selected ≡ readable
    → a.received ≡ datagram (verdict imsi m) server
    → ((request a (accepted n)).result ≡ success)
      × ((request a (accepted n)).response_text ≡ verdict imsi m)
unfolding request wait_for_response
request-verdict a n imsi m server s r = (
  rw (s, r, receive_response-IsAnswer (verdict imsi m) server (verdict-IsAnswer imsi m)),
  rw (s, r, receive_response-IsAnswer (verdict imsi m) server (verdict-IsAnswer imsi m)),
)

module _ (a : Answers) (n : ℕ) (now : Instant) (imsi : Text) (m : Manager)
    (client server : Address) where
  -- The event that the client's datagram becomes at the server.
  abbrev arrived : UdpEvent
  arrived = record {
    bytes = to_bcd (record { digits = imsi });
    client_addr = client;
    has_response = true;
  }

  answered :
      (m' : Manager) (response : Response)
      → IsValid imsi
      → handle_udp_event now arrived m ≡ returns (m', response ∷ [])
      → response.text ≡ verdict imsi m
  answered m' response v h = cc (h, handle_udp_event-to_bcd now imsi arrived m v refl refl)

  -- From end to end: for a valid IMSI the client sends one datagram; if the server handles it with one response, and the
  -- client then reads that response, its request succeeds and says "rejected" if the IMSI was in the server's blacklist,
  -- and "created" if not.
  pub send_imsi_with_response-handle_udp_event :
      (m' : Manager) (response : Response)
      → IsValid imsi
      → handle_udp_event now arrived m ≡ returns (m', response ∷ [])
      → a.sent ≡ accepted n
      → a.selected ≡ readable
      → a.received ≡ datagram response.text server
      → ((send_imsi_with_response a imsi).0 ≡ arrived.bytes ∷ [])
        × ((send_imsi_with_response a imsi).1.result ≡ success)
        × ((send_imsi_with_response a imsi).1.response_text ≡ verdict imsi m)
  unfolding send_imsi_with_response send_made
  send_imsi_with_response-handle_udp_event m' response v h sent s r =
      let q =
        request-verdict a n imsi m server s
          (r ∙ ap (λ t. datagram t server) (answered m' response v h)) in
      (
        ap (λ o. (send_made a o).0) (make-IsValid imsi v),
        ap (λ o. (send_made a o).1.result) (make-IsValid imsi v)
            ∙ ap (λ s. (request a s).result) sent
            ∙ q.0,
        ap (λ o. (send_made a o).1.response_text) (make-IsValid imsi v)
            ∙ ap (λ s. (request a s).response_text) sent
            ∙ q.1,
      )
