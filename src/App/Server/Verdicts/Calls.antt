-- ===== src/App/Server/Verdicts/Calls.antt =====
-- Workers between the two sections of `create_session`: what they have in hand, while others move.
use pgw.Base.{
  ℕ, zero, suc, ◌==◌, ◌≡◌, ◌≢◌, refl, sym, ap, ◌∙◌, subst, arith, Bool, false, Bool-cases, inl, inr,
  List, [], ◌∷◌, none, some, Text, get_elem?, set, map, returns, member,
}
use pgw.Imsi.{Imsi, from_bcd}
use pgw.Events.{Address, UdpEvent, Event, udp, http}
use pgw.Sessions.State.{Instant}
use pgw.Sessions.Threads.{opening}
use pgw.Dispatcher.Workers.{
  Pc, polling, handling, locking, testing, failed, passed, asleep, finished, Pool, At, move, woken,
  stop_and_notify, Step, IsIdle, leaves, takes, misses, handles, locks, holds, fails, blocks,
  clears, enqueues, announces, notifies, notifies_nobody, stops,
}
use pgw.App.Server.{
  Server, checked, Serve, works, queues, bounces, refuses, admits, answers, ignores, background,
}
use pgw.App.Server.Verdicts.{bad, judged}
use pgw.App.Server.Verdicts.Blacklists.{checked-member}

set-elsewhere :
    (cs : List Pc) (i j : ℕ) (c d : Pc)
    → i ≢ j
    → get_elem? cs i ≡ some c
    → get_elem? (set cs j d) i ≡ some c
set-elsewhere [] i j c d n a = cc
set-elsewhere (b ∷ cs) zero zero c d n a = absurd (n refl)
set-elsewhere (b ∷ cs) zero (suc j) c d n a = a
set-elsewhere (b ∷ cs) (suc i) zero c d n a = a
set-elsewhere (b ∷ cs) (suc i) (suc j) c d n a =
    set-elsewhere cs i j c d (λ e. n (omega (arith, e))) a

module _ (cs : List Pc) where
  -- Another worker moves, as it is where this one is not.
  set-other :
      (i j : ℕ) (b c d : Pc)
      → get_elem? cs i ≡ some c
      → get_elem? cs j ≡ some b
      → b ≢ c
      → get_elem? (set cs j d) i ≡ some c
  set-other i j b c d a e n =
      set-elsewhere cs i j c d
        (λ same.
          let both : some b ≡ some c = sym e ∙ ap (get_elem? cs) (sym same) ∙ a in n (cc both))
        a

map-woken :
    (cs : List Pc) (i : ℕ) (e : Event)
    → get_elem? cs i ≡ some (handling e)
    → get_elem? (map woken cs) i ≡ some (handling e)
map-woken [] i e a = cc
map-woken (c ∷ cs) zero e a = let same : c ≡ handling e = cc a in ap (λ x. some (woken x)) same
map-woken (c ∷ cs) (suc i) e a = map-woken cs i e a

Step-handling :
    {p q : Pool} (step : Step p q) (i : ℕ) (e : Event)
    → IsIdle step
    → At p i (handling e)
    → At q i (handling e)
unfolding stop_and_notify
Step-handling (leaves p j a s) i e h v =
    set-other p.workers i j polling (handling e) finished v a (cc)
Step-handling (takes p j x rest a s q) i e h v =
    set-other p.workers i j polling (handling e) (handling x) v a (cc)
Step-handling (misses p j a s q) i e h v =
    set-other p.workers i j polling (handling e) locking v a (cc)
Step-handling (handles p j x a) i e h v = absurd h
Step-handling (locks p j a l) i e h v =
    set-other p.workers i j locking (handling e) testing v a (cc)
Step-handling (holds p j a x) i e h v = set-other p.workers i j testing (handling e) passed v a (cc)
Step-handling (fails p j a x) i e h v = set-other p.workers i j testing (handling e) failed v a (cc)
Step-handling (blocks p j a) i e h v = set-other p.workers i j failed (handling e) asleep v a (cc)
Step-handling (clears p j a) i e h v = set-other p.workers i j passed (handling e) polling v a (cc)
Step-handling (enqueues p x) i e h v = absurd h
Step-handling (announces p) i e h v = v
Step-handling (notifies p j a) i e h v =
    set-other p.workers i j asleep (handling e) locking v a (cc)
Step-handling (notifies_nobody p n) i e h v = v
Step-handling (stops p) i e h v = ground (arith, v, map-woken p.workers i e v)

module _ (chosen : Address → Bool) (blacklist : List Text) where
  -- The worker has an event in hand that calls for no refusal.
  abbrev pub IsClear : Pool → ℕ → Type 0
  IsClear p i =
      (event : UdpEvent) × At p i (handling (udp event)) × (bad chosen blacklist (udp event) ≡ 0)

  abbrev pub AreClear : Server → Type 0
  AreClear s = (i : ℕ) (imsi : Text) → s.calls i ≡ some imsi → IsClear s.pool i

  moved-IsClear : (p : Pool) (i j : ℕ) (d : Pc) → i ≢ j → IsClear p i → IsClear (move p j d) i
  moved-IsClear p i j d n (event, a, clear) =
      (event, set-elsewhere p.workers i j (handling (udp event)) d n a, clear)

  admitted-IsClear :
      (s : Server) (i : ℕ) (event : UdpEvent) (imsi : Imsi) (now : Instant)
      → s.manager.blacklist ≡ blacklist
      → At s.pool i (handling (udp event))
      → from_bcd event.bytes ≡ returns imsi
      → (checked now imsi.digits s.manager).1 ≡ opening now imsi.digits []
      → IsClear s.pool i
  admitted-IsClear s i event imsi now b a d e =
      let free : member imsi.digits blacklist ≡ false =
        subst (λ l. member imsi.digits l ≡ false) b
          ((checked-member now event.bytes imsi s.manager d).1 e) in
      let clear : judged chosen blacklist (returns imsi) event ≡ 0 = ground (arith, free) in
      (event, a, ap (λ o. judged chosen blacklist o event) d ∙ clear)

  pub Serve-AreClear :
      {s t : Server} → Serve s t → s.manager.blacklist ≡ blacklist → AreClear s → AreClear t
  Serve-AreClear (works s step h) b v i imsi e =
      let (event, a, clear) = v i imsi e in (event, Step-handling step i (udp event) h a, clear)
  Serve-AreClear (queues s bytes client) b v i imsi e = v i imsi e
  Serve-AreClear (bounces s client) b v i imsi e = v i imsi e
  Serve-AreClear (refuses s j event imsi now a c d x) b v i k e =
      moved-IsClear s.pool i j polling
        (λ same. let none_here : s.calls i ≡ none = ap s.calls same ∙ c in cc (none_here, e))
        (v i k e)
  Serve-AreClear (admits s j event imsi now a c d x) b v i k e = elim (Bool-cases (i == j)) [
    | inl q ↦
        let same : j ≡ i = ground (arith, q) in
        subst (IsClear s.pool) same (admitted-IsClear s j event imsi now b a d x)
    | inr q ↦ v i k (ground (arith, q, e))
  ]
  Serve-AreClear (answers s j event imsi now a c) b v i k e = elim (Bool-cases (i == j)) [
    | inl q ↦ absurd (ground (arith, q, e))
    | inr q ↦
        let old : s.calls i ≡ some k = ground (arith, q, e) in
        moved-IsClear s.pool i j polling (ground (arith, q)) (v i k old)
  ]
  Serve-AreClear (ignores s j event a) b v i k e =
      let (other, at, clear) = v i k e in
      (other, set-other s.pool.workers i j (handling (http event)) _ polling at a (cc), clear)
  Serve-AreClear (background s act) b v i imsi e = v i imsi e
