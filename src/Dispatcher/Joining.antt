-- ===== src/Dispatcher/Joining.antt =====
-- src/event_dispatcher.cpp: what holds of the pool whatever order its threads run in: events are neither lost
-- nor made up, and no worker ever leaves its loop, so that the destructor's `join` has nobody to wait for
-- who would come.
use pgw.Base.{
  length, length-set, length-map, length-replicate, Bool-cases, inl, inr, ℕ, zero, suc, false, List,
  [], ◌∷◌, ◌++◌, ◌≡◌, ◌≢◌, refl, set, replicate, map, arith, All, append_assoc, ap, ◌∙◌,
}
use pgw.Dispatcher.Workers.{
  Pc, polling, handling, locking, testing, failed, passed, asleep, finished, Pool, new_pool, move,
  woken, stop_and_notify, Step, leaves, takes, misses, handles, locks, holds, fails, blocks, clears,
  enqueues, announces, notifies, notifies_nobody, stops, Reach, here, next,
}

-- A worker that is in its loop.
abbrev pub IsLooping : Pc → Type 0
IsLooping c = c ≢ finished

-- The flag is down, every worker is in its loop, and the events taken and waiting are those that came.
pub record IsServing (p : Pool) : Type 0 where
  pub unstopped : p.stop ≡ false
  pub looping : All IsLooping p.workers
  pub conserved : p.arrived ≡ p.taken ++ p.queue

IsLooping-set :
    (cs : List Pc) (i : ℕ) (c : Pc) → All IsLooping cs → IsLooping c → All IsLooping (set cs i c)
IsLooping-set [] i c h n = tt
IsLooping-set (d ∷ cs) zero c h n = (n, h.1)
IsLooping-set (d ∷ cs) (suc i) c h n = (h.0, IsLooping-set cs i c h.1 n)

woken-IsLooping : (c : Pc) → IsLooping c → IsLooping (woken c)
woken-IsLooping asleep h = λ e. cc
woken-IsLooping polling h = h
woken-IsLooping (handling e) h = h
woken-IsLooping locking h = h
woken-IsLooping testing h = h
woken-IsLooping failed h = h
woken-IsLooping passed h = h
woken-IsLooping finished h = h

IsLooping-woken : (cs : List Pc) → All IsLooping cs → All IsLooping (map woken cs)
IsLooping-woken [] h = tt
IsLooping-woken (c ∷ cs) h = (woken-IsLooping c h.0, IsLooping-woken cs h.1)

IsLooping-replicate : (n : ℕ) → All IsLooping (replicate n polling)
IsLooping-replicate zero = tt
IsLooping-replicate (suc n) = ((λ e. cc), IsLooping-replicate n)

move-IsServing : (p : Pool) (i : ℕ) (c : Pc) → IsLooping c → IsServing p → IsServing (move p i c)
move-IsServing p i c n v = record {
  unstopped = v.unstopped;
  looping = IsLooping-set p.workers i c v.looping n;
  conserved = v.conserved;
}

Step-IsServing : {p q : Pool} → Step p q → IsServing p → IsServing q
unfolding stop_and_notify
Step-IsServing (leaves p i a s) v = absurd (ground arith)
Step-IsServing (takes p i e rest a s q) v = record {
  unstopped = v.unstopped;
  looping = IsLooping-set p.workers i (handling e) v.looping (λ x. cc);
  conserved = ground (arith, v.conserved, append_assoc p.taken (e ∷ []) rest);
}
Step-IsServing (misses p i a s q) v = move-IsServing p i locking (λ x. cc) v
Step-IsServing (handles p i e a) v = move-IsServing p i polling (λ x. cc) v
Step-IsServing (locks p i a l) v = record {
  unstopped = v.unstopped;
  looping = IsLooping-set p.workers i testing v.looping (λ x. cc);
  conserved = v.conserved;
}
Step-IsServing (holds p i a h) v = move-IsServing p i passed (λ x. cc) v
Step-IsServing (fails p i a h) v = move-IsServing p i failed (λ x. cc) v
Step-IsServing (blocks p i a) v = record {
  unstopped = v.unstopped;
  looping = IsLooping-set p.workers i asleep v.looping (λ x. cc);
  conserved = v.conserved;
}
Step-IsServing (clears p i a) v = record {
  unstopped = v.unstopped;
  looping = IsLooping-set p.workers i polling v.looping (λ x. cc);
  conserved = v.conserved;
}
Step-IsServing (enqueues p e) v = record {
  unstopped = v.unstopped;
  looping = v.looping;
  conserved = ap (λ l. l ++ e ∷ []) v.conserved ∙ append_assoc p.taken p.queue (e ∷ []);
}
Step-IsServing (announces p) v = record {
  unstopped = v.unstopped;
  looping = v.looping;
  conserved = v.conserved;
}
Step-IsServing (notifies p i a) v = move-IsServing p i locking (λ x. cc) v
Step-IsServing (notifies_nobody p n) v = v
Step-IsServing (stops p) v =
    rw (v.unstopped, stop_and_notify)
      (record {
        unstopped = refl;
        looping = IsLooping-woken p.workers v.looping;
        conserved = v.conserved;
      })

-- After any steps of the workers, the producer and any number of calls of `stop`, `stop_` is false, no
-- worker has left its loop, and the events that came are those taken and those in the queue, in order.
pub Reach-IsServing : (thread_count : ℕ) {p : Pool} → Reach (new_pool thread_count) p → IsServing p
unfolding new_pool
Reach-IsServing n here = record {
  unstopped = refl;
  looping = IsLooping-replicate n;
  conserved = refl;
}
Reach-IsServing n (next r s) = Step-IsServing s (Reach-IsServing n r)

length-Step : {p q : Pool} → Step p q → length q.workers ≡ length p.workers
unfolding stop_and_notify
length-Step (leaves p i a s) = length-set p.workers i finished
length-Step (takes p i e rest a s q) = length-set p.workers i _
length-Step (misses p i a s q) = length-set p.workers i _
length-Step (handles p i e a) = length-set p.workers i _
length-Step (locks p i a l) = length-set p.workers i _
length-Step (holds p i a h) = length-set p.workers i _
length-Step (fails p i a h) = length-set p.workers i _
length-Step (blocks p i a) = length-set p.workers i _
length-Step (clears p i a) = length-set p.workers i _
length-Step (enqueues p e) = refl
length-Step (announces p) = refl
length-Step (notifies p i a) = length-set p.workers i _
length-Step (notifies_nobody p n) = refl
length-Step (stops p) = elim (Bool-cases p.stop) [
  | inl e ↦ rw (e, stop_and_notify) refl
  | inr e ↦ rw (e, stop_and_notify) (length-map woken p.workers)
]

-- The number of workers stays.
pub length-Reach : (n : ℕ) {p : Pool} → Reach (new_pool n) p → length p.workers ≡ n
unfolding new_pool
length-Reach n here = length-replicate n _
length-Reach n (next r s) = omega (arith, length-Step s, length-Reach n r)
