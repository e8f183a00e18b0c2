-- ===== src/App/Server/Answers.antt =====
-- Datagrams and answers of the running server.
use pgw.Base.{
  ℕ, ◌+◌, ◌≡◌, refl, arith, Bool, ◌&&◌, [], ◌∷◌, Text, codes, total, total-append, total-set,
  total-map, total-replicate, if◌then◌else◌,
}
use pgw.Events.{Address, UdpEvent, Event, udp, http, Response}
use pgw.Sessions.State.{Manager}
use pgw.Sessions.Requests.{blacklisted, open_session}
use pgw.Dispatcher.{respond, response_text}
use pgw.Dispatcher.Workers.{
  Pc, polling, handling, locking, testing, failed, passed, asleep, finished, Pool, IsIdle, new_pool,
  woken, stop_and_notify, Step, leaves, takes, misses, handles, locks, holds, fails, blocks, clears,
  enqueues, announces, notifies, notifies_nobody, stops,
}
use pgw.App.Server.{
  Server, new_server, request, Serve, works, queues, bounces, refuses, admits, answers, ignores,
  background, Serves, at_start, after,
}

-- The clients that are looked at are those that pass a test.
module _ (chosen : Address → Bool) where
  -- The answers that an event still calls for.
  abbrev pub owed : Event → ℕ
  owed (udp event) = if event.has_response && chosen event.client_addr then 1 else 0
  owed (http event) = 0

  abbrev pub owed_by : Pc → ℕ
  owed_by (handling e) = owed e
  owed_by _ = 0

  abbrev pub from_chosen : Address → ℕ
  from_chosen client = if chosen client then 1 else 0

  abbrev pub to_chosen : Response → ℕ
  to_chosen r = from_chosen r.client

  -- What waits in the queue, and what the workers have in hand.
  abbrev pub waiting : Pool → ℕ
  waiting p = total owed p.queue

  abbrev pub in_hand : Pool → ℕ
  in_hand p = total owed_by p.workers

  abbrev pub IsAnswered : Server → Type 0
  IsAnswered s =
      total from_chosen s.received ≡ total to_chosen s.sent + waiting s.pool + in_hand s.pool

  woken-owed_by : (c : Pc) → owed_by (woken c) ≡ owed_by c
  woken-owed_by c = ground arith

  Step-owed :
      {p q : Pool} (step : Step p q) → IsIdle step → waiting q + in_hand q ≡ waiting p + in_hand p
  unfolding stop_and_notify
  Step-owed (leaves p i a s) h = omega (arith, total-set owed_by p.workers i polling finished a)
  Step-owed (takes p i e rest a s q) h =
      ground (arith, total-set owed_by p.workers i polling (handling e) a)
  Step-owed (misses p i a s q) h = omega (arith, total-set owed_by p.workers i polling locking a)
  Step-owed (handles p i e a) h = absurd h
  Step-owed (locks p i a l) h = omega (arith, total-set owed_by p.workers i locking testing a)
  Step-owed (holds p i a x) h = omega (arith, total-set owed_by p.workers i testing passed a)
  Step-owed (fails p i a x) h = omega (arith, total-set owed_by p.workers i testing failed a)
  Step-owed (blocks p i a) h = omega (arith, total-set owed_by p.workers i failed asleep a)
  Step-owed (clears p i a) h = omega (arith, total-set owed_by p.workers i passed polling a)
  Step-owed (enqueues p e) h = absurd h
  Step-owed (announces p) h = refl
  Step-owed (notifies p i a) h = omega (arith, total-set owed_by p.workers i asleep locking a)
  Step-owed (notifies_nobody p n) h = refl
  Step-owed (stops p) h = ground (arith, total-map owed_by woken p.workers woken-owed_by)

  respond-owed :
      (event : UdpEvent) (text : Text) → total to_chosen (respond event text) ≡ owed (udp event)
  unfolding respond
  respond-owed event text = ground arith

  Serve-IsAnswered : {s t : Server} → Serve s t → IsAnswered s → IsAnswered t
  Serve-IsAnswered (works s step h) v = omega (arith, Step-owed step h, v)
  Serve-IsAnswered (queues s bytes client) v = omega (
    arith,
    v,
    total-append from_chosen s.received (client ∷ []),
    total-append owed s.pool.queue (udp (request bytes client) ∷ []),
  )
  Serve-IsAnswered (bounces s client) v = omega (
    arith,
    v,
    total-append from_chosen s.received (client ∷ []),
    total-append to_chosen s.sent (record { text = codes "rejected"; client = client } ∷ []),
  )
  Serve-IsAnswered (refuses s i event imsi now a c d e) v = omega (
    arith,
    v,
    total-set owed_by s.pool.workers i (handling (udp event)) polling a,
    respond-owed event (response_text blacklisted),
    total-append to_chosen s.sent (respond event (response_text blacklisted)),
  )
  Serve-IsAnswered (admits s i event imsi now a c d e) v = v
  Serve-IsAnswered (answers s i event imsi now a c) v =
      let text = response_text (open_session now imsi s.manager).1 in
      omega (
        arith,
        v,
        total-set owed_by s.pool.workers i (handling (udp event)) polling a,
        respond-owed event text,
        total-append to_chosen s.sent (respond event text),
      )
  Serve-IsAnswered (ignores s i event a) v =
      omega (arith, v, total-set owed_by s.pool.workers i (handling (http event)) polling a)
  Serve-IsAnswered (background s act) v = v

  -- Whatever the order of steps, of the datagrams that the server has read from the chosen clients, as many have been answered
  -- as are neither waiting in the queue nor in the hands of a worker: none is answered twice, and none is dropped.
  pub Serves-IsAnswered :
      (thread_count : ℕ) (m : Manager) {s : Server}
      → Serves (new_server (new_pool thread_count) m) s
      → IsAnswered s
  unfolding new_pool
  Serves-IsAnswered n m at_start = omega (arith, total-replicate owed_by n polling refl)
  Serves-IsAnswered n m (after r step) = Serve-IsAnswered step (Serves-IsAnswered n m r)
