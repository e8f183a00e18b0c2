-- ===== src/Dispatcher/Exclusion.antt =====
-- src/event_dispatcher.cpp: the workers and `notify_mutex_`.
use pgw.Base.{
  total, total-set, total-map, total-replicate, ℕ, ◌≡◌, refl, arith, List, if◌then◌else◌,
}
use pgw.Dispatcher.Workers.{
  Pc, polling, handling, locking, testing, failed, passed, asleep, finished, Pool, new_pool, woken,
  stop_and_notify, Step, leaves, takes, misses, handles, locks, holds, fails, blocks, clears,
  enqueues, announces, notifies, notifies_nobody, stops, Reach, here, next,
}

-- One for a worker that holds `notify_mutex_`.
abbrev pub holding : Pc → ℕ
holding testing = 1
holding failed = 1
holding passed = 1
holding _ = 0

abbrev pub holders : List Pc → ℕ
holders = total holding

woken-holding : (c : Pc) → holding (woken c) ≡ holding c
woken-holding c = ground arith

-- The mutex is locked exactly while one worker is inside.
abbrev pub IsExclusive : Pool → Type 0
IsExclusive p = holders p.workers ≡ (if p.locked then 1 else 0)

Step-IsExclusive : {p q : Pool} → Step p q → IsExclusive p → IsExclusive q
unfolding stop_and_notify
Step-IsExclusive (leaves p i a s) v =
    ground (arith, total-set holding p.workers i polling finished a)
Step-IsExclusive (takes p i e rest a s q) v =
    ground (arith, total-set holding p.workers i polling (handling e) a)
Step-IsExclusive (misses p i a s q) v =
    ground (arith, total-set holding p.workers i polling locking a)
Step-IsExclusive (handles p i e a) v =
    ground (arith, total-set holding p.workers i (handling e) polling a)
Step-IsExclusive (locks p i a l) v = ground (arith, total-set holding p.workers i locking testing a)
Step-IsExclusive (holds p i a h) v = ground (arith, total-set holding p.workers i testing passed a)
Step-IsExclusive (fails p i a h) v = ground (arith, total-set holding p.workers i testing failed a)
Step-IsExclusive (blocks p i a) v = ground (arith, total-set holding p.workers i failed asleep a)
Step-IsExclusive (clears p i a) v = ground (arith, total-set holding p.workers i passed polling a)
Step-IsExclusive (enqueues p e) v = v
Step-IsExclusive (announces p) v = v
Step-IsExclusive (notifies p i a) v = ground (arith, total-set holding p.workers i asleep locking a)
Step-IsExclusive (notifies_nobody p n) v = v
Step-IsExclusive (stops p) v = ground (arith, total-map holding woken p.workers woken-holding)

pub Reach-IsExclusive :
    (thread_count : ℕ) {p : Pool} → Reach (new_pool thread_count) p → IsExclusive p
unfolding new_pool
Reach-IsExclusive n here = total-replicate holding n polling refl
Reach-IsExclusive n (next r s) = Step-IsExclusive s (Reach-IsExclusive n r)
