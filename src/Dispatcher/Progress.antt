-- ===== src/Dispatcher/Progress.antt =====
-- src/event_dispatcher.cpp: which workers can make a step.
use pgw.Base.{
  ℕ, zero, suc, ◌<◌, ◌≡◌, ◌≢◌, refl, sym, ◌∙◌, arith, false, Bool-cases, ◌⊎◌, inl, inr, List, [],
  ◌∷◌, ◌||◌, some, set, get_elem?, All, All-get_elem?, if◌then◌else◌,
}
use pgw.Events.{Event}
use pgw.Dispatcher.Workers.{
  Pc, polling, handling, locking, testing, failed, passed, asleep, finished, Pool, new_pool, At,
  Step, takes, misses, handles, locks, holds, fails, blocks, clears, Reach,
}
use pgw.Dispatcher.Joining.{IsLooping, IsServing, Reach-IsServing}
use pgw.Dispatcher.Exclusion.{holding, holders, Reach-IsExclusive}

-- A step that the worker itself makes.
pub record CanMove (p : Pool) (i : ℕ) : Type 0 where
  pub after : Pool
  pub step : Step p after
  pub moved : get_elem? after.workers i ≢ get_elem? p.workers i

pub get_elem?-set_self :
    (cs : List Pc) (i : ℕ) (c d : Pc) → get_elem? cs i ≡ some c → get_elem? (set cs i d) i ≡ some d
get_elem?-set_self [] i c d h = cc
get_elem?-set_self (b ∷ cs) zero c d h = refl
get_elem?-set_self (b ∷ cs) (suc i) c d h = get_elem?-set_self cs i c d h

set-moved :
    (cs : List Pc) (i : ℕ) (c d : Pc)
    → get_elem? cs i ≡ some c
    → d ≢ c
    → get_elem? (set cs i d) i ≢ get_elem? cs i
set-moved cs i c d h n e =
    let both : some d ≡ some c = sym (get_elem?-set_self cs i c d h) ∙ e ∙ h in n (cc both)

module _ (p : Pool) (i : ℕ) where
  -- Inside the mutex a worker always goes on.
  inside-CanMove : (c : Pc) → At p i c → holding c ≡ 1 → CanMove p i
  inside-CanMove testing a h = elim (Bool-cases (p.event_available || p.stop)) [
    | inl e ↦ record {
      after = _;
      step = holds p i a e;
      moved = set-moved p.workers i testing passed a (λ x. cc);
    }
    | inr e ↦ record {
      after = _;
      step = fails p i a e;
      moved = set-moved p.workers i testing failed a (λ x. cc);
    }
  ]
  inside-CanMove failed a h = record {
    after = _;
    step = blocks p i a;
    moved = set-moved p.workers i failed asleep a (λ x. cc);
  }
  inside-CanMove passed a h = record {
    after = _;
    step = clears p i a;
    moved = set-moved p.workers i passed polling a (λ x. cc);
  }
  inside-CanMove polling a h = absurd (omega (arith, h))
  inside-CanMove (handling e) a h = absurd (omega (arith, h))
  inside-CanMove locking a h = absurd (omega (arith, h))
  inside-CanMove asleep a h = absurd (omega (arith, h))
  inside-CanMove finished a h = absurd (omega (arith, h))

  -- At the head of its loop too.
  polling-CanMove :
      (queue : List Event) → p.queue ≡ queue → p.stop ≡ false → At p i polling → CanMove p i
  polling-CanMove [] q s a = record {
    after = _;
    step = misses p i a s q;
    moved = set-moved p.workers i polling locking a (λ x. cc);
  }
  polling-CanMove (e ∷ rest) q s a = record {
    after = _;
    step = takes p i e rest a s q;
    moved = set-moved p.workers i polling (handling e) a (λ x. cc);
  }

holding-cases : (c : Pc) → (holding c ≡ 1) ⊎ (holding c ≡ 0)
holding-cases c = ground arith

-- Somebody is inside.
pub holder :
    (cs : List Pc)
    → 0 < holders cs
    → (i : ℕ) × (c : Pc) × (get_elem? cs i ≡ some c) × (holding c ≡ 1)
holder [] h = absurd (omega (arith, h))
holder (c ∷ cs) h = elim (holding-cases c) [
  | inl e ↦ (0, c, refl, e)
  | inr e ↦ let (i, d, at, x) = holder cs (omega (arith, h, e)) in (suc i, d, at, x)
]

-- A worker of a serving pool that does not sleep, or the worker that it waits for, can move.
awake-CanMove :
    (p : Pool) (i : ℕ) (c : Pc)
    → IsServing p
    → holders p.workers ≡ (if p.locked then 1 else 0)
    → At p i c
    → c ≢ asleep
    → c ≢ finished
    → (j : ℕ) × CanMove p j
awake-CanMove p i polling v x a n f = (i, polling-CanMove p i p.queue refl v.unstopped a)
awake-CanMove p i (handling e) v x a n f = (
  i,
  record {
    after = _;
    step = handles p i e a;
    moved = set-moved p.workers i (handling e) polling a (λ y. cc);
  },
)
awake-CanMove p i locking v x a n f = elim (Bool-cases p.locked) [
  | inl l ↦
      let (j, d, at, y) = holder p.workers (ground (arith, x, l)) in (j, inside-CanMove p j d at y)
  | inr l ↦ (
    i,
    record {
      after = _;
      step = locks p i a l;
      moved = set-moved p.workers i locking testing a (λ y. cc);
    },
  )
]
awake-CanMove p i testing v x a n f = (i, inside-CanMove p i testing a refl)
awake-CanMove p i failed v x a n f = (i, inside-CanMove p i failed a refl)
awake-CanMove p i passed v x a n f = (i, inside-CanMove p i passed a refl)
awake-CanMove p i asleep v x a n f = absurd (n refl)
awake-CanMove p i finished v x a n f = absurd (f refl)

-- A worker that does not sleep, if there is one.
awake :
    (cs : List Pc)
    → All (λ c. c ≡ asleep) cs ⊎ ((i : ℕ) × (c : Pc) × (get_elem? cs i ≡ some c) × (c ≢ asleep))
awake [] = inl tt
awake (asleep ∷ cs) = elim (awake cs) [
  | inl h ↦ inl (refl, h)
  | inr (i, d, at, n) ↦ inr (suc i, d, at, n)
]
awake (polling ∷ cs) = inr (0, polling, refl, λ e. cc)
awake (handling e ∷ cs) = inr (0, handling e, refl, λ e. cc)
awake (locking ∷ cs) = inr (0, locking, refl, λ e. cc)
awake (testing ∷ cs) = inr (0, testing, refl, λ e. cc)
awake (failed ∷ cs) = inr (0, failed, refl, λ e. cc)
awake (passed ∷ cs) = inr (0, passed, refl, λ e. cc)
awake (finished ∷ cs) = inr (0, finished, refl, λ e. cc)

-- No deadlock: in every reachable state every worker sleeps in `wait`, or some worker can make a step of its own.
Reach-progress :
    (thread_count : ℕ) {p : Pool}
    → Reach (new_pool thread_count) p
    → All (λ c. c ≡ asleep) p.workers ⊎ ((i : ℕ) × CanMove p i)
Reach-progress n {p} r =
    let v = Reach-IsServing n r in
    elim (awake p.workers) [
      | inl h ↦ inl h
      | inr (i, c, at, up) ↦ inr (
          awake-CanMove p i c v (Reach-IsExclusive n r) at up
            (All-get_elem? IsLooping p.workers i c v.looping at))
    ]
