-- ===== src/App/Server/Completion.antt =====
-- How the workers can come to answer what the running server has read, if one is awake and each packet codes an IMSI.
pub mod Readable
pub mod Hands
pub mod Rounds
use pgw.Base.{ℕ, ◌≡◌, refl, ap, ◌∙◌, arith, Bool, [], total}
use pgw.Events.{Address}
use pgw.Sessions.State.{Manager, Instant}
use pgw.Dispatcher.Workers.{new_pool}
use pgw.App.Server.{Server, new_server, Serves, at_start}
use pgw.App.Server.Answers.{owed, from_chosen, to_chosen, Serves-IsAnswered}
use pgw.App.Server.Completion.Readable.{AreReadable}
use pgw.App.Server.Completion.Hands.{busy, owed_by-busy}
use pgw.App.Server.Completion.Rounds.{
  IsAwake, Proceeds, IsAble, Serves-Reach, Serves-Proceeds, Led-append, to_polling, serve_queue,
  empty_hands,
}

-- If a worker is at the head of its loop, has come out of its wait or has an event in hand, and the packets in the queue and
-- in hand all code an IMSI, then steps of the workers alone, without another datagram or notification, can lead from what the
-- server has come to, to an empty queue and, for any choice of clients, as many answers sent as datagrams read.
pub Serves-complete :
    (n : ℕ) (m : Manager) (s : Server) (i : ℕ)
    → Serves (new_server (new_pool n) m) s
    → IsAwake s.pool i
    → AreReadable s.pool
    → (t : Server) × Proceeds s t
      × (t.received ≡ s.received)
      × (t.pool.queue ≡ [])
      × ((chosen : Address → Bool)
          → total (from_chosen chosen) t.received ≡ total (to_chosen chosen) t.sent)
Serves-complete n m s i r awake readable =
    let able : IsAble now n s = record { reach = Serves-Reach r; readable = readable } in
    let (o, up, at, untouched) = to_polling now n s i able awake in
    let (t, led, empty) = serve_queue now n i o.pool.queue o up.able at refl in
    let (u, more, same, none_left) =
      empty_hands now n (total busy t.pool.workers) t led.able refl in
    let all = Led-append now up (Led-append now led more) in
    let no_queue = same ∙ empty in
    (
      u,
      all.way,
      all.quiet,
      no_queue,
      (λ chosen.
          let balance = Serves-IsAnswered chosen n m (Serves-Proceeds r all.way) in
          let nothing_waits : total (owed chosen) u.pool.queue ≡ 0 =
            ap (total (owed chosen)) no_queue in
          omega (arith, balance, nothing_waits, owed_by-busy chosen u.pool.workers none_left)),
    )
  where
    now : Instant
    now = record { steady = 0; system = 0; ticks = λ left. 0 }
