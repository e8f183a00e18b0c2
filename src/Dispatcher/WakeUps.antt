-- ===== src/Dispatcher/WakeUps.antt =====
-- src/event_dispatcher.cpp: `notify_event_available` writes the flag without `notify_mutex_`, so that it
-- can come between a worker's look at the flag and its sleep.
use pgw.Base.{ℕ, zero, suc, true, false, some, [], ◌∷◌, ◌≢◌, refl, get_elem?}
use pgw.Events.{Event}
use pgw.Dispatcher.Workers.{
  failed, asleep, Pool, new_pool, misses, locks, fails, blocks, enqueues, announces,
  notifies_nobody, Reach, here, next,
}

-- The only worker sleeps beside a waiting event and a flag that is up.
abbrev pub stranded : Event → Pool
stranded e = record {
  queue = e ∷ [];
  event_available = true;
  stop = false;
  locked = false;
  workers = asleep ∷ [];
  arrived = e ∷ [];
  taken = [];
}

nobody_asleep : (i : ℕ) → get_elem? (failed ∷ []) i ≢ some asleep
nobody_asleep zero h = cc
nobody_asleep (suc i) h = cc

-- A pool of one thread can come to sleep beside any event: it tests the flag, the event is put in the
-- queue, the flag set and nobody notified, and the thread blocks.
pub stranded-Reach : (e : Event) → Reach (new_pool 1) (stranded e)
unfolding new_pool
stranded-Reach e =
    next
      (next
        (next
          (next
            (next (next (next here (misses _ 0 refl refl refl)) (locks _ 0 refl refl))
              (fails _ 0 refl refl))
            (enqueues _ e))
          (announces _))
        (notifies_nobody _ nobody_asleep))
      (blocks _ 0 refl)
