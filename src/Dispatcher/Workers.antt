-- ===== src/Dispatcher/Workers.antt =====
-- src/event_dispatcher.cpp: the threads of the pool, a step at a time. `try_dequeue` is taken to find an
-- event whenever the queue has one, and to keep the order of its one producer.
use pgw.Base.{
  ℕ, Bool, true, false, ◌||◌, some, List, [], ◌∷◌, ◌++◌, ◌≡◌, ◌≢◌, get_elem?, set, replicate, map,
}
use pgw.Events.{Event}

-- Where a worker stands: at the head of its loop; with an event; before the lock; under the lock, before the
-- predicate of `wait`, after it failed, after it held; blocked in `wait`; out of the loop.
pub data Pc : Type 0 where
  polling : Pc
  handling : Event → Pc
  locking testing failed passed asleep finished : Pc

-- `arrived` and `taken` record what was put in the queue and what was taken out, oldest first.
pub record Pool : Type 0 where
  pub queue : List Event
  pub event_available : Bool
  pub stop : Bool
  pub locked : Bool
  pub workers : List Pc
  pub arrived : List Event
  pub taken : List Event

unfoldable pub new_pool : ℕ → Pool
new_pool thread_count = record {
  queue = [];
  event_available = false;
  stop = false;
  locked = false;
  workers = replicate thread_count polling;
  arrived = [];
  taken = [];
}

abbrev pub At : Pool → ℕ → Pc → Type 0
At p i c = get_elem? p.workers i ≡ some c

abbrev pub move : Pool → ℕ → Pc → Pool
move p i c = record p { workers = set p.workers i c }

-- A blocked worker that is notified goes for the lock again.
abbrev pub woken : Pc → Pc
woken asleep = locking
woken c = c

-- `EventDispatcher::stop` up to its `join`s: the flag is exchanged for `false`; if it was set the call
-- returns, else every blocked worker is notified.
unfoldable pub stop_and_notify : Pool → Pool
stop_and_notify p =
    let exchanged : Pool = record p { stop = false } in
    elim p.stop [ true ↦ exchanged | false ↦ record exchanged { workers = map woken p.workers } ]

-- One step of a worker, of the thread that brings events, or of the thread that destroys the pool.
pub data Step : Pool → Pool → Type 0 where
  leaves : (p : Pool) (i : ℕ) → At p i polling → p.stop ≡ true → Step p (move p i finished)
  takes :
      (p : Pool) (i : ℕ) (e : Event) (rest : List Event)
      → At p i polling
      → p.stop ≡ false
      → p.queue ≡ e ∷ rest
      → Step p (record (move p i (handling e)) { queue = rest; taken = p.taken ++ e ∷ [] })
  misses :
      (p : Pool) (i : ℕ)
      → At p i polling
      → p.stop ≡ false
      → p.queue ≡ []
      → Step p (move p i locking)
  handles : (p : Pool) (i : ℕ) (e : Event) → At p i (handling e) → Step p (move p i polling)
  locks :
      (p : Pool) (i : ℕ)
      → At p i locking
      → p.locked ≡ false
      → Step p (record (move p i testing) { locked = true })
  holds :
      (p : Pool) (i : ℕ)
      → At p i testing
      → (p.event_available || p.stop) ≡ true
      → Step p (move p i passed)
  fails :
      (p : Pool) (i : ℕ)
      → At p i testing
      → (p.event_available || p.stop) ≡ false
      → Step p (move p i failed)
  blocks : (p : Pool) (i : ℕ) → At p i failed → Step p (record (move p i asleep) { locked = false })
  clears :
      (p : Pool) (i : ℕ)
      → At p i passed
      → Step p (record (move p i polling) { event_available = false; locked = false })
  enqueues :
      (p : Pool) (e : Event)
      → Step p (record p { queue = p.queue ++ e ∷ []; arrived = p.arrived ++ e ∷ [] })
  announces : (p : Pool) → Step p (record p { event_available = true })
  notifies : (p : Pool) (i : ℕ) → At p i asleep → Step p (move p i locking)
  notifies_nobody : (p : Pool) → ((i : ℕ) → get_elem? p.workers i ≢ some asleep) → Step p p
  stops : (p : Pool) → Step p (stop_and_notify p)

-- A step of the pool that neither handles an event nor brings one.
abbrev pub IsIdle : {p q : Pool} → Step p q → Type 0
IsIdle (handles p i e a) = ⊥
IsIdle (enqueues p e) = ⊥
IsIdle _ = Unit

pub data Reach (p : Pool) : Pool → Type 0 where
  here : Reach p p
  next : {q r : Pool} → Reach p q → Step q r → Reach p r

-- Steps of that kind, one after the other.
pub data Idles (p : Pool) : Pool → Type 0 where
  still : Idles p p
  onward : {q r : Pool} → Idles p q → (step : Step q r) → IsIdle step → Idles p r
