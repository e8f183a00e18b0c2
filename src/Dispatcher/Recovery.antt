-- ===== src/Dispatcher/Recovery.antt =====
-- src/event_dispatcher.cpp: what can still become of an event in the queue, given another notification if all workers
-- sleep.
use pgw.Base.{
  ◌⊎◌, sym, append-nil, append_assoc, ℕ, ◌≤◌, ◌≡◌, refl, ap, ◌∙◌, arith, true, false, Bool-cases,
  inl, inr, List, [], ◌∷◌, ◌++◌, some, get_elem?, All-get_elem?, length,
}
use pgw.Events.{Event}
use pgw.Dispatcher.Workers.{
  Pc, polling, handling, locking, testing, failed, passed, asleep, finished, Pool, new_pool, At,
  move, Step, IsIdle, Idles, still, onward, takes, handles, locks, holds, blocks, clears, announces,
  notifies, Reach, here, next,
}
use pgw.Dispatcher.Joining.{IsLooping, Reach-IsServing, length-Reach}
use pgw.Dispatcher.Exclusion.{holding, Reach-IsExclusive}
use pgw.Dispatcher.Progress.{get_elem?-set_self, holder}

pub Reach-append : {p q r : Pool} → Reach p q → Reach q r → Reach p r
Reach-append s here = s
Reach-append s (next t step) = next (Reach-append s t) step

pub Idles-Reach : {p q : Pool} → Idles p q → Reach p q
Idles-Reach still = here
Idles-Reach (onward s step idle) = next (Idles-Reach s) step

pub Idles-append : {p q r : Pool} → Idles p q → Idles q r → Idles p r
Idles-append s still = s
Idles-append s (onward t step idle) = onward (Idles-append s t) step idle

-- A worker in its loop that handles no event.
abbrev IsAtLeisure : Pc → Type 0
IsAtLeisure (handling e) = ⊥
IsAtLeisure finished = ⊥
IsAtLeisure _ = Unit

-- The worker can come to the head of its loop while nothing is taken from the queue and nothing is handled.
pub record CanPoll (p : Pool) (i : ℕ) : Type 0 where
  pub after : Pool
  pub reach : Idles p after
  pub there : At after i polling
  pub queued : after.queue ≡ p.queue
  pub kept : after.taken ≡ p.taken

first-Step :
    {p q : Pool} (i : ℕ) (step : Step p q)
    → IsIdle step
    → q.queue ≡ p.queue
    → q.taken ≡ p.taken
    → CanPoll q i
    → CanPoll p i
first-Step i step idle same kept c = record {
  after = c.after;
  reach = Idles-append (onward still step idle) c.reach;
  there = c.there;
  queued = c.queued ∙ same;
  kept = c.kept ∙ kept;
}

module _ (i : ℕ) where
  polling-CanPoll : (p : Pool) → At p i polling → CanPoll p i
  polling-CanPoll p a = record { after = p; reach = still; there = a; queued = refl; kept = refl }

  passed-CanPoll : (p : Pool) → At p i passed → CanPoll p i
  passed-CanPoll p a =
      first-Step i (clears p i a) tt refl refl
        (polling-CanPoll _ (get_elem?-set_self p.workers i passed polling a))

  testing-CanPoll : (p : Pool) → At p i testing → CanPoll p i
  testing-CanPoll p a = first-Step i (announces p) tt refl refl (
      first-Step i (holds (record p { event_available = true }) i a refl) tt refl refl
        (passed-CanPoll _ (get_elem?-set_self p.workers i testing passed a)))

  locking-CanPoll : (p : Pool) → p.locked ≡ false → At p i locking → CanPoll p i
  locking-CanPoll p l a =
      first-Step i (locks p i a l) tt refl refl
        (testing-CanPoll _ (get_elem?-set_self p.workers i locking testing a))

  asleep-CanPoll : (p : Pool) → p.locked ≡ false → At p i asleep → CanPoll p i
  asleep-CanPoll p l a =
      first-Step i (notifies p i a) tt refl refl
        (locking-CanPoll (move p i locking) l (get_elem?-set_self p.workers i asleep locking a))

  failed-CanPoll : (p : Pool) → At p i failed → CanPoll p i
  failed-CanPoll p a =
      first-Step i (blocks p i a) tt refl refl
        (asleep-CanPoll _ refl (get_elem?-set_self p.workers i failed asleep a))

  inside-CanPoll : (p : Pool) (c : Pc) → At p i c → holding c ≡ 1 → CanPoll p i
  inside-CanPoll p testing a h = testing-CanPoll p a
  inside-CanPoll p failed a h = failed-CanPoll p a
  inside-CanPoll p passed a h = passed-CanPoll p a
  inside-CanPoll p polling a h = absurd (omega (arith, h))
  inside-CanPoll p (handling e) a h = absurd (omega (arith, h))
  inside-CanPoll p locking a h = absurd (omega (arith, h))
  inside-CanPoll p asleep a h = absurd (omega (arith, h))
  inside-CanPoll p finished a h = absurd (omega (arith, h))

  -- If nobody holds the mutex, any worker can.
  unlocked-CanPoll : (p : Pool) (c : Pc) → p.locked ≡ false → IsAtLeisure c → At p i c → CanPoll p i
  unlocked-CanPoll p polling l n a = polling-CanPoll p a
  unlocked-CanPoll p (handling e) l n a = absurd n
  unlocked-CanPoll p locking l n a = locking-CanPoll p l a
  unlocked-CanPoll p testing l n a = testing-CanPoll p a
  unlocked-CanPoll p failed l n a = failed-CanPoll p a
  unlocked-CanPoll p passed l n a = passed-CanPoll p a
  unlocked-CanPoll p asleep l n a = asleep-CanPoll p l a
  unlocked-CanPoll p finished l n a = absurd n

head_worker : (cs : List Pc) → 1 ≤ length cs → (c : Pc) × (get_elem? cs 0 ≡ some c)
head_worker [] h = absurd (omega (arith, h))
head_worker (c ∷ cs) h = (c, refl)

leisure-cases : (c : Pc) → IsLooping c → IsAtLeisure c ⊎ ((e : Event) × (c ≡ handling e))
leisure-cases (handling e) l = inr (e, refl)
leisure-cases finished l = absurd (l refl)
leisure-cases polling l = inl tt
leisure-cases locking l = inl tt
leisure-cases testing l = inl tt
leisure-cases failed l = inl tt
leisure-cases passed l = inl tt
leisure-cases asleep l = inl tt

-- Some worker handles an event, or can come to the head of its loop.
pub Reach-worker :
    (n : ℕ) {p : Pool}
    → 1 ≤ n
    → Reach (new_pool n) p
    → (i : ℕ) × (CanPoll p i ⊎ ((e : Event) × At p i (handling e)))
Reach-worker n {p} some_worker r =
    let v = Reach-IsServing n r in
    let x = Reach-IsExclusive n r in
    elim (Bool-cases p.locked) [
      | inl l ↦
          let (j, d, at, y) = holder p.workers (ground (arith, x, l)) in
          (j, inl (inside-CanPoll j p d at y))
      | inr l ↦
          let (c, at) = head_worker p.workers (omega (arith, length-Reach n r, some_worker)) in
          elim (leisure-cases c (All-get_elem? IsLooping p.workers 0 c v.looping at)) [
            | inl away ↦ (0, inl (unlocked-CanPoll 0 p c l away at))
            | inr (e, same) ↦ (0, inr (e, at ∙ ap some same))
          ]
    ]

-- If it handles one, it comes to the head of its loop by that.
Reach-polls :
    (n : ℕ) {p : Pool}
    → 1 ≤ n
    → Reach (new_pool n) p
    → (i : ℕ) × (q : Pool) × Reach p q × At q i polling × (q.queue ≡ p.queue) × (q.taken ≡ p.taken)
Reach-polls n {p} some_worker r =
    let (i, h) = Reach-worker n some_worker r in
    elim h [
      | inl c ↦ (i, c.after, Idles-Reach c.reach, c.there, c.queued, c.kept)
      | inr (e, a) ↦ (
        i,
        move p i polling,
        next here (handles p i e a),
        get_elem?-set_self p.workers i (handling e) polling a,
        refl,
        refl,
      )
    ]

-- From every reachable state of a pool with a worker or more in which an event is the first of the queue, the pool
-- can come to take that event next.
pub Reach-takes :
    (thread_count : ℕ) {p : Pool} (e : Event) (rest : List Event)
    → 1 ≤ thread_count
    → Reach (new_pool thread_count) p
    → p.queue ≡ e ∷ rest
    → (q : Pool) × Reach p q × (q.queue ≡ rest) × (q.taken ≡ p.taken ++ e ∷ [])
Reach-takes n {p} e rest some_worker r q =
    let (i, t, to_t, at, queued, kept) = Reach-polls n some_worker r in
    let v = Reach-IsServing n (Reach-append r to_t) in
    (_, next to_t (takes t i e rest at v.unstopped (queued ∙ q)), refl, ap (λ a. a ++ e ∷ []) kept)

drain :
    (n : ℕ) (queue : List Event) {p : Pool}
    → 1 ≤ n
    → Reach (new_pool n) p
    → p.queue ≡ queue
    → (q : Pool) × Reach p q × (q.queue ≡ []) × (q.taken ≡ p.taken ++ queue)
drain n [] {p} some_worker r e = (p, here, e, sym (append-nil p.taken))
drain n (x ∷ rest) {p} some_worker r e =
    let (q, to_q, left, taken) = Reach-takes n x rest some_worker r e in
    let (t, to_t, empty, all) = drain n rest some_worker (Reach-append r to_q) left in
    (
      t,
      Reach-append to_q to_t,
      empty,
      all ∙ ap (λ a. a ++ rest) taken ∙ append_assoc p.taken (x ∷ []) rest,
    )

-- From every reachable state of a pool with a worker or more there are steps, notifications among them, to a state in which
-- the queue is empty and the events taken are those that had arrived, in order.
Reach-drained :
    (thread_count : ℕ) {p : Pool}
    → 1 ≤ thread_count
    → Reach (new_pool thread_count) p
    → (q : Pool) × Reach p q × (q.queue ≡ []) × (q.taken ≡ p.arrived)
Reach-drained n {p} some_worker r =
    let (q, to_q, empty, taken) = drain n p.queue some_worker r refl in
    (q, to_q, empty, taken ∙ sym (Reach-IsServing n r).conserved)
