-- ===== src/App/Server/Verdicts/Counts.antt =====
-- The count of the answers that refuse, step by step.
use pgw.Base.{
  ℕ, ◌+◌, ◌≡◌, refl, sym, ap, ◌∙◌, subst, arith, Bool, true, List, [], ◌∷◌, Text, codes,
  Text_discrete, ℕ_discrete, total, total-append, total-set, total-map, total-replicate, returns,
  member, some,
}
use pgw.Imsi.{Imsi, from_bcd}
use pgw.Events.{Address, UdpEvent, udp, http}
use pgw.Sessions.State.{Manager, Instant}
use pgw.Sessions.Requests.{created, already_exists, blacklisted, open_session}
use pgw.Sessions.Threads.{between}
use pgw.Dispatcher.{respond, response_text}
use pgw.Dispatcher.Workers.{
  Pc, polling, handling, locking, testing, failed, passed, asleep, finished, Pool, At, IsIdle,
  new_pool, woken, stop_and_notify, Step, leaves, takes, misses, handles, locks, holds, fails,
  blocks, clears, enqueues, announces, notifies, notifies_nobody, stops,
}
use pgw.App.Server.{
  Server, new_server, request, checked, Serve, works, queues, bounces, refuses, admits, answers,
  ignores, background, Serves, at_start, after,
}
use pgw.App.Server.Answers.{owed, from_chosen}
use pgw.App.Server.Verdicts.{bad, bad_by, judged, refusal_to, IsJudged}
use pgw.App.Server.Verdicts.Blacklists.{
  checked-blacklist, open_session-blacklist, checked-member, in_background-blacklist,
}
use pgw.App.Server.Verdicts.Calls.{AreClear, Serve-AreClear}

module _ (chosen : Address → Bool) (blacklist : List Text) where
  abbrev dealt : Pool → ℕ
  dealt p = total (bad_by chosen blacklist) p.workers

  woken-bad_by : (c : Pc) → bad_by chosen blacklist (woken c) ≡ bad_by chosen blacklist c
  woken-bad_by c = ground arith

  Step-judged :
      {p q : Pool} (step : Step p q)
      → IsIdle step
      → (dealt q + total (bad chosen blacklist) p.taken
          ≡ dealt p + total (bad chosen blacklist) q.taken)
        × (q.arrived ≡ p.arrived)
  unfolding stop_and_notify
  Step-judged (leaves p i a s) h =
      (omega (arith, total-set (bad_by chosen blacklist) p.workers i polling finished a), refl)
  Step-judged (takes p i e rest a s q) h = (
    omega (
      arith,
      total-set (bad_by chosen blacklist) p.workers i polling (handling e) a,
      total-append (bad chosen blacklist) p.taken (e ∷ []),
    ),
    refl,
  )
  Step-judged (misses p i a s q) h =
      (omega (arith, total-set (bad_by chosen blacklist) p.workers i polling locking a), refl)
  Step-judged (handles p i e a) h = absurd h
  Step-judged (locks p i a l) h =
      (omega (arith, total-set (bad_by chosen blacklist) p.workers i locking testing a), refl)
  Step-judged (holds p i a x) h =
      (omega (arith, total-set (bad_by chosen blacklist) p.workers i testing passed a), refl)
  Step-judged (fails p i a x) h =
      (omega (arith, total-set (bad_by chosen blacklist) p.workers i testing failed a), refl)
  Step-judged (blocks p i a) h =
      (omega (arith, total-set (bad_by chosen blacklist) p.workers i failed asleep a), refl)
  Step-judged (clears p i a) h =
      (omega (arith, total-set (bad_by chosen blacklist) p.workers i passed polling a), refl)
  Step-judged (enqueues p e) h = absurd h
  Step-judged (announces p) h = (refl, refl)
  Step-judged (notifies p i a) h =
      (omega (arith, total-set (bad_by chosen blacklist) p.workers i asleep locking a), refl)
  Step-judged (notifies_nobody p n) h = (refl, refl)
  Step-judged (stops p) h =
      ground (arith, total-map (bad_by chosen blacklist) woken p.workers woken-bad_by)

  -- The three things that an answer can say.
  respond-refusal :
      (event : UdpEvent)
      → (total (refusal_to chosen blacklist) (respond event (response_text blacklisted))
          ≡ owed chosen (udp event))
        × (total (refusal_to chosen blacklist) (respond event (response_text created)) ≡ 0)
        × (total (refusal_to chosen blacklist) (respond event (response_text already_exists)) ≡ 0)
  unfolding respond response_text Text_discrete ℕ_discrete
  respond-refusal event = ground arith

  open_session-created :
      (event : UdpEvent) (now : Instant) (imsi : Text) (m : Manager)
      → total
          (refusal_to chosen blacklist)
          (respond event (response_text (open_session now imsi m).1))
        ≡ 0
  unfolding open_session
  open_session-created event now imsi m = ground (arith, respond-refusal event)

  refused-bad :
      (s : Server) (event : UdpEvent) (imsi : Imsi) (now : Instant)
      → s.manager.blacklist ≡ blacklist
      → from_bcd event.bytes ≡ returns imsi
      → (checked now imsi.digits s.manager).1 ≡ between []
      → bad chosen blacklist (udp event) ≡ owed chosen (udp event)
  refused-bad s event imsi now b d e =
      let barred : member imsi.digits blacklist ≡ true =
        subst (λ l. member imsi.digits l ≡ true) b
          ((checked-member now event.bytes imsi s.manager d).0 e) in
      let all : judged chosen blacklist (returns imsi) event ≡ owed chosen (udp event) =
        ground (arith, barred) in
      ap (λ o. judged chosen blacklist o event) d ∙ all

  -- The event of a worker that goes on to open a session calls for no refusal.
  clear-bad :
      (s : Server) (i : ℕ) (event : UdpEvent) (imsi : Text)
      → AreClear chosen blacklist s
      → At s.pool i (handling (udp event))
      → s.calls i ≡ some imsi
      → bad chosen blacklist (udp event) ≡ 0
  clear-bad s i event imsi v a c =
      let (other, at, clear) = v i imsi c in
      let same : handling (udp other) ≡ handling (udp event) = cc (at, a) in
      ap (bad_by chosen blacklist) (sym same) ∙ clear

  Serve-IsJudged :
      {s t : Server}
      → Serve s t
      → s.manager.blacklist ≡ blacklist
      → AreClear chosen blacklist s
      → IsJudged chosen blacklist s
      → IsJudged chosen blacklist t
  unfolding Text_discrete ℕ_discrete
  Serve-IsJudged (works s {p} step h) b c v =
      let (same, arrived) = Step-judged step h in
      let arrivals : total (owed chosen) p.arrived ≡ total (owed chosen) s.pool.arrived =
        ap (total (owed chosen)) arrived in
      omega (arith, v, same, arrivals)
  Serve-IsJudged (queues s bytes client) b c v = omega (
    arith,
    v,
    total-append (from_chosen chosen) s.received (client ∷ []),
    total-append (owed chosen) s.pool.arrived (udp (request bytes client) ∷ []),
  )
  Serve-IsJudged (bounces s client) b c v = omega (
    arith,
    v,
    total-append (from_chosen chosen) s.received (client ∷ []),
    total-append (refusal_to chosen blacklist) s.sent
        (record { text = codes "rejected"; client = client } ∷ []),
  )
  Serve-IsJudged (refuses s i event imsi now a d e x) b c v = omega (
    arith,
    v,
    refused-bad s event imsi now b e x,
    total-set (bad_by chosen blacklist) s.pool.workers i (handling (udp event)) polling a,
    (respond-refusal event).0,
    total-append (refusal_to chosen blacklist) s.sent (respond event (response_text blacklisted)),
  )
  Serve-IsJudged (admits s i event imsi now a d e x) b c v = v
  Serve-IsJudged (answers s i event imsi now a d) b c v = omega (
    arith,
    v,
    clear-bad s i event imsi c a d,
    total-set (bad_by chosen blacklist) s.pool.workers i (handling (udp event)) polling a,
    open_session-created event now imsi s.manager,
    total-append (refusal_to chosen blacklist) s.sent
        (respond event (response_text (open_session now imsi s.manager).1)),
  )
  Serve-IsJudged (ignores s i event a) b c v = omega (
    arith,
    v,
    total-set (bad_by chosen blacklist) s.pool.workers i (handling (http event)) polling a,
  )
  Serve-IsJudged (background s act) b c v = v

  Serve-blacklist : {s t : Server} → Serve s t → t.manager.blacklist ≡ s.manager.blacklist
  Serve-blacklist (works s step h) = refl
  Serve-blacklist (queues s bytes client) = refl
  Serve-blacklist (bounces s client) = refl
  Serve-blacklist (refuses s i event imsi now a d e x) = checked-blacklist now imsi.digits s.manager
  Serve-blacklist (admits s i event imsi now a d e x) = checked-blacklist now imsi.digits s.manager
  Serve-blacklist (answers s i event imsi now a d) = open_session-blacklist now imsi s.manager
  Serve-blacklist (ignores s i event a) = refl
  Serve-blacklist (background s act) = in_background-blacklist act s.manager

  record Verdict (s : Server) : Type 0 where
    same : s.manager.blacklist ≡ blacklist
    clear : AreClear chosen blacklist s
    judged_so : IsJudged chosen blacklist s

  Serve-Verdict : {s t : Server} → Serve s t → Verdict s → Verdict t
  Serve-Verdict step v = record {
    same = Serve-blacklist step ∙ v.same;
    clear = Serve-AreClear chosen blacklist step v.same v.clear;
    judged_so = Serve-IsJudged step v.same v.clear v.judged_so;
  }

-- Whatever the order of steps of the running server, for the clients that pass a test: the answers that say "rejected", the
-- events in the hands of workers that code an IMSI on the blacklist of the start, and the datagrams that reached the queue
-- are together as many as the datagrams read and the events taken that code such an IMSI.
pub Serves-IsJudged :
    (chosen : Address → Bool) (thread_count : ℕ) (m : Manager) {s : Server}
    → Serves (new_server (new_pool thread_count) m) s
    → IsJudged chosen m.blacklist s
unfolding new_pool
Serves-IsJudged chosen n m r = (verdict r).judged_so
  where
    start : Verdict chosen m.blacklist (new_server (new_pool n) m)
    start = record {
      same = refl;
      clear = λ i imsi e. cc e;
      judged_so = omega (arith, total-replicate (bad_by chosen m.blacklist) n polling refl);
    }

    verdict : {s : Server} → Serves (new_server (new_pool n) m) s → Verdict chosen m.blacklist s
    verdict at_start = start
    verdict (after r step) = Serve-Verdict chosen m.blacklist step (verdict r)
