-- ===== src/App/Server/Completion/Hands.antt =====
-- The workers that have an event in hand.
use pgw.Base.{
  ℕ, suc, ◌<◌, ◌≡◌, refl, ap, arith, Bool, inl, inr, ◌⊎◌, List, [], ◌∷◌, some, get_elem?, total,
}
use pgw.Events.{Address, Event}
use pgw.Dispatcher.Workers.{
  Pc, polling, handling, locking, testing, failed, passed, asleep, finished,
}
use pgw.App.Server.Answers.{owed_by}

-- One for a worker with an event in hand.
abbrev pub busy : Pc → ℕ
busy (handling e) = 1
busy _ = 0

busy-cases : (c : Pc) → (busy c ≡ 0) ⊎ ((e : Event) × (c ≡ handling e))
busy-cases (handling e) = inr (e, refl)
busy-cases polling = inl refl
busy-cases locking = inl refl
busy-cases testing = inl refl
busy-cases failed = inl refl
busy-cases passed = inl refl
busy-cases asleep = inl refl
busy-cases finished = inl refl

pub busy_worker :
    (cs : List Pc)
    → 0 < total busy cs
    → (i : ℕ) × (e : Event) × (get_elem? cs i ≡ some (handling e))
busy_worker [] h = absurd (omega (arith, h))
busy_worker (c ∷ cs) h = elim (busy-cases c) [
  | inr (e, same) ↦ (0, e, ap some same)
  | inl x ↦ let (i, e, a) = busy_worker cs (omega (arith, h, x)) in (suc i, e, a)
]

pub owed_by-busy :
    (chosen : Address → Bool) (cs : List Pc) → total busy cs ≡ 0 → total (owed_by chosen) cs ≡ 0
owed_by-busy chosen [] h = refl
owed_by-busy chosen (handling e ∷ cs) h = absurd (omega (arith, h))
owed_by-busy chosen (polling ∷ cs) h = omega (arith, owed_by-busy chosen cs (omega (arith, h)))
owed_by-busy chosen (locking ∷ cs) h = omega (arith, owed_by-busy chosen cs (omega (arith, h)))
owed_by-busy chosen (testing ∷ cs) h = omega (arith, owed_by-busy chosen cs (omega (arith, h)))
owed_by-busy chosen (failed ∷ cs) h = omega (arith, owed_by-busy chosen cs (omega (arith, h)))
owed_by-busy chosen (passed ∷ cs) h = omega (arith, owed_by-busy chosen cs (omega (arith, h)))
owed_by-busy chosen (asleep ∷ cs) h = omega (arith, owed_by-busy chosen cs (omega (arith, h)))
owed_by-busy chosen (finished ∷ cs) h = omega (arith, owed_by-busy chosen cs (omega (arith, h)))
