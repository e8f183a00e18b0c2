-- ===== src/App/Server/Completion/Rounds.antt =====
-- Steps of workers by which the running server deals with the events that it holds.
use pgw.Base.{
  ℕ, zero, suc, ◌≡◌, refl, sym, ap, ◌∙◌, subst, arith, Option-cases, inl, inr, ◌⊎◌, List, [], ◌∷◌,
  some, Option, Text, total, total-set, All, All-get_elem?,
}
use pgw.Events.{UdpEvent, Event, udp, http}
use pgw.Sessions.State.{Manager, Instant}
use pgw.Sessions.Threads.{between, opening, begin_create}
use pgw.Dispatcher.Workers.{
  polling, handling, passed, Pool, new_pool, At, move, IsIdle, Step, takes, handles, clears,
  enqueues, announces, notifies, notifies_nobody, stops, Reach, here, next,
}
use pgw.Dispatcher.Joining.{Reach-IsServing}
use pgw.Dispatcher.Progress.{get_elem?-set_self}
use pgw.Dispatcher.Recovery.{Reach-append}
use pgw.App.Server.{
  Server, checked, assign, Serve, works, queues, bounces, refuses, admits, answers, ignores,
  background, Serves, at_start, after,
}
use pgw.App.Server.Completion.Readable.{
  IsReadable, IsReadableBy, AreReadable, Step-AreReadable, move-AreReadable,
}
use pgw.App.Server.Completion.Hands.{busy, busy_worker}

-- A step of a worker on its own: no call of `stop`, and no flag or notification of the thread that brings events.
abbrev pub IsOwn : {p q : Pool} → Step p q → Type 0
IsOwn (announces p) = ⊥
IsOwn (notifies p i a) = ⊥
IsOwn (notifies_nobody p n) = ⊥
IsOwn (stops p) = ⊥
IsOwn (enqueues p e) = ⊥
IsOwn _ = Unit

-- A step of the server that only a worker makes.
abbrev pub IsUnprompted : {s t : Server} → Serve s t → Type 0
IsUnprompted (works s step idle) = IsOwn step
IsUnprompted (queues s bytes client) = ⊥
IsUnprompted (bounces s client) = ⊥
IsUnprompted (background s a) = ⊥
IsUnprompted _ = Unit

-- Steps of the workers alone, one after the other.
pub data Proceeds (s : Server) : Server → Type 0 where
  resting : Proceeds s s
  further : {t u : Server} → Proceeds s t → (step : Serve t u) → IsUnprompted step → Proceeds s u

pub Proceeds-append : {s t u : Server} → Proceeds s t → Proceeds t u → Proceeds s u
Proceeds-append r resting = r
Proceeds-append r (further q step own) = further (Proceeds-append r q) step own

pub Serves-Proceeds : {s t u : Server} → Serves s t → Proceeds t u → Serves s u
Serves-Proceeds r resting = r
Serves-Proceeds r (further q step own) = after (Serves-Proceeds r q) step

-- What the server does to its pool is what a pool can do.
Serve-Reach : {s t : Server} {p : Pool} → Serve s t → Reach p s.pool → Reach p t.pool
Serve-Reach (works s step idle) r = next r step
Serve-Reach (queues s bytes client) r = next r (enqueues s.pool _)
Serve-Reach (bounces s client) r = r
Serve-Reach (refuses s i event imsi now a c d e) r = next r (handles s.pool i (udp event) a)
Serve-Reach (admits s i event imsi now a c d e) r = r
Serve-Reach (answers s i event imsi now a c) r = next r (handles s.pool i (udp event) a)
Serve-Reach (ignores s i event a) r = next r (handles s.pool i (http event) a)
Serve-Reach (background s act) r = r

pub Serves-Reach : {s t : Server} → Serves s t → Reach s.pool t.pool
Serves-Reach at_start = here
Serves-Reach (after r step) = Serve-Reach step (Serves-Reach r)

-- The first section of `create_session` ends the call or leads to the second.
begin_create-cases :
    (now : Instant) (imsi : Text) (m : Manager)
    → ((checked now imsi m).1 ≡ between []) ⊎ ((checked now imsi m).1 ≡ opening now imsi [])
unfolding begin_create
begin_create-cases now imsi m = ground arith

-- One event dealt with: the worker is back, and nothing else of the pool has changed.
abbrev IsDone : Server → ℕ → Server → Type 0
IsDone s i t = Proceeds s t × (t.pool ≡ move s.pool i polling) × (t.received ≡ s.received)

-- The worker is at the head of its loop, has come out of `wait`, or has an event in hand.
pub data IsAwake (p : Pool) (i : ℕ) : Type 0 where
  at_head : At p i polling → IsAwake p i
  notified : At p i passed → IsAwake p i
  at_work : (e : Event) → At p i (handling e) → IsAwake p i

module _ (now : Instant) where
  open_now :
      (s : Server) (i : ℕ) (event : UdpEvent) (imsi : Text)
      → At s.pool i (handling (udp event))
      → s.calls i ≡ some imsi
      → (t : Server) × IsDone s i t
  open_now s i event imsi a c =
      (_, (further resting (answers s i event imsi now a c) tt, refl, refl))

  assigned : (calls : ℕ → Option Text) (i : ℕ) (call : Option Text) → assign calls i call i ≡ call
  assigned calls i call = ground arith

  -- A worker can deal with the event that it has in hand.
  finish :
      (s : Server) (i : ℕ) (e : Event)
      → IsReadable e
      → At s.pool i (handling e)
      → (t : Server) × IsDone s i t
  finish s i (http event) d a = (_, (further resting (ignores s i event a) tt, refl, refl))
  finish s i (udp event) (imsi, d) a = elim (Option-cases (s.calls i)) [
    | inr (called, c) ↦ open_now s i event called a c
    | inl c ↦ elim (begin_create-cases now imsi.digits s.manager) [
      | inl e ↦ (_, (further resting (refuses s i event imsi now a c d e) tt, refl, refl))
      | inr e ↦
          let step = admits s i event imsi now a c d e in
          let (t, (r, same, kept)) =
            open_now
              (record s {
                manager = (checked now imsi.digits s.manager).0;
                calls = assign s.calls i (some imsi.digits);
              })
              i event imsi.digits a (assigned s.calls i (some imsi.digits)) in
          (t, (Proceeds-append (further resting step tt) r, same, kept))
    ]
  ]

  -- Where the server stands: the workers as their pool allows, and nothing in it that cannot be read.
  pub record IsAble (n : ℕ) (s : Server) : Type 0 where
    pub reach : Reach (new_pool n) s.pool
    pub readable : AreReadable s.pool

  -- From one to the other nothing new is read.
  pub record Led (n : ℕ) (s t : Server) : Type 0 where
    pub way : Proceeds s t
    pub able : IsAble n t
    pub quiet : t.received ≡ s.received

  pub Led-append : {n : ℕ} {s t u : Server} → Led n s t → Led n t u → Led n s u
  Led-append l k = record {
    way = Proceeds-append l.way k.way;
    able = k.able;
    quiet = k.quiet ∙ l.quiet;
  }

  Done-Led : (n : ℕ) (s t : Server) (i : ℕ) → IsAble n s → IsDone s i t → Led n s t
  Done-Led n s t i v (r, same, kept) = record {
    way = r;
    able = record {
      reach = Reach-append v.reach (Serves-Reach (Serves-Proceeds at_start r));
      readable = subst AreReadable (sym same) (move-AreReadable s.pool i polling tt v.readable);
    };
    quiet = kept;
  }

  own-Led :
      (n : ℕ) (s : Server) {p : Pool} (step : Step s.pool p) (idle : IsIdle step)
      → IsOwn step
      → IsAble n s
      → Led n s (record s { pool = p })
  own-Led n s step idle own v = record {
    way = further resting (works s step idle) own;
    able = record { reach = next v.reach step; readable = Step-AreReadable step idle v.readable };
    quiet = refl;
  }

  -- A worker that is awake comes to the head of its loop.
  pub to_polling :
      (n : ℕ) (s : Server) (i : ℕ)
      → IsAble n s
      → IsAwake s.pool i
      → (t : Server) × Led n s t × At t.pool i polling × (t.pool.queue ≡ s.pool.queue)
  to_polling n s i v (at_head a) = (s, record { way = resting; able = v; quiet = refl }, a, refl)
  to_polling n s i v (notified a) = (
    _,
    own-Led n s (clears s.pool i a) tt tt v,
    get_elem?-set_self s.pool.workers i passed polling a,
    refl,
  )
  to_polling n s i v (at_work e a) =
      let readable = All-get_elem? IsReadableBy s.pool.workers i (handling e) v.readable.held a in
      let (t, done) = finish s i e readable a in
      (
        t,
        Done-Led n s t i v done,
        subst (λ p. At p i polling) (sym done.1)
            (get_elem?-set_self s.pool.workers i (handling e) polling a),
        ap (λ p. p.queue) done.1,
      )

  -- The first event of the queue is taken and dealt with.
  serve_first :
      (n : ℕ) (s : Server) (i : ℕ) (e : Event) (rest : List Event)
      → IsAble n s
      → At s.pool i polling
      → s.pool.queue ≡ e ∷ rest
      → (t : Server) × Led n s t × At t.pool i polling × (t.pool.queue ≡ rest)
  serve_first n s i e rest v at q =
      let step = takes s.pool i e rest at (Reach-IsServing n v.reach).unstopped q in
      let taken = own-Led n s step tt tt v in
      let readable = (subst (All IsReadable) q v.readable.queued).0 in
      let in_hand = get_elem?-set_self s.pool.workers i polling (handling e) at in
      let (u, done) = finish _ i e readable in_hand in
      (
        u,
        Led-append taken (Done-Led n _ u i taken.able done),
        subst (λ p. At p i polling) (sym done.1)
            (get_elem?-set_self _ i (handling e) polling in_hand),
        ap (λ p. p.queue) done.1,
      )

  pub serve_queue :
      (n : ℕ) (i : ℕ) (queue : List Event) (s : Server)
      → IsAble n s
      → At s.pool i polling
      → s.pool.queue ≡ queue
      → (t : Server) × Led n s t × (t.pool.queue ≡ [])
  serve_queue n i [] s v at q = (s, record { way = resting; able = v; quiet = refl }, q)
  serve_queue n i (e ∷ rest) s v at q =
      let (t, led, there, r) = serve_first n s i e rest v at q in
      let (u, more, empty) = serve_queue n i rest t led.able there r in
      (u, Led-append led more, empty)

  -- The workers deal with what they have in hand.
  pub empty_hands :
      (n k : ℕ) (s : Server)
      → IsAble n s
      → total busy s.pool.workers ≡ k
      → (t : Server) × Led n s t × (t.pool.queue ≡ s.pool.queue) × (total busy t.pool.workers ≡ 0)
  empty_hands n zero s v h = (s, record { way = resting; able = v; quiet = refl }, refl, h)
  empty_hands n (suc k) s v h =
      let (i, e, a) = busy_worker s.pool.workers (omega (arith, h)) in
      let readable = All-get_elem? IsReadableBy s.pool.workers i (handling e) v.readable.held a in
      let (t, done) = finish s i e readable a in
      let led = Done-Led n s t i v done in
      let fewer : total busy t.pool.workers ≡ k =
        ap (λ p. total busy p.workers) done.1
        ∙ omega (arith, h, total-set busy s.pool.workers i (handling e) polling a) in
      let (u, more, same, none_left) = empty_hands n k t led.able fewer in
      (u, Led-append led more, same ∙ ap (λ p. p.queue) done.1, none_left)
