-- ===== src/Sessions/Threads/Tests.antt =====
-- src/session_manager.cpp: the theorems on schedules at inputs.
use pgw.Base.{
  ap, get_or, ℕ, ◌≡◌, refl, arith, true, false, List, [], ◌∷◌, map, some, none, Text, Text_discrete,
  codes, All, member, find,
}
use pgw.Imsi.Valid.{IsValid}
use pgw.Sessions.State.{Manager, Instant, init, new_session}
use pgw.Sessions.Spec.{create, exists, remove}
use pgw.Sessions.Clients.{perform_run}
use pgw.Sessions.Threads.{System, between, opening, turn, act_all}
use pgw.Sessions.Threads.Refusal.{IsBarred, act_all-IsBarred, racing, act_all-racing}
use pgw.Sessions.Threads.Linear.{IsSteady, trace, called, replied, perform_run-trace}

abbrev alice : Text
alice = codes "001010123456789"

abbrev bob : Text
bob = codes "123456789012345"

alice-IsValid : IsValid alice
alice-IsValid = omega arith

abbrev now : Instant
now = record { steady = 5; system = 9; ticks = λ left. 9 }

abbrev start : Manager
start = init 30 20 (bob ∷ []) true

-- Two clients; the first is between the sections of `create_session` for alice, who is not refused.
abbrev busy : System
busy = record {
  manager = start;
  threads =
      opening now alice (remove alice ∷ [])
      ∷ between (create now bob ∷ create now alice ∷ exists alice ∷ [])
      ∷ [];
}

abbrev turns : List ℕ
turns = 1 ∷ 1 ∷ 0 ∷ 1 ∷ 0 ∷ 1 ∷ []

busy-IsSteady : All (IsSteady start.blacklist) busy.threads
unfolding member init Text_discrete
busy-IsSteady = ((alice-IsValid, refl, (tt, tt)), ((tt, (tt, (tt, tt))), tt))

perform_run-trace_example :
    perform_run (called (trace turns busy)) start
    ≡ ((act_all (map turn turns) busy).manager, replied (trace turns busy))
perform_run-trace_example = perform_run-trace turns busy busy-IsSteady

busy-IsBarred : IsBarred bob busy
unfolding member find init Text_discrete
busy-IsBarred = record {
  shut = (refl, refl);
  kept = (
    ((λ h. omega (arith, ap (λ (t : Text). get_or t 0 0) h)), (tt, tt)),
    ((tt, (tt, (tt, tt))), tt),
  );
}

act_all-IsBarred_example : IsBarred bob (act_all (turn 1 ∷ turn 1 ∷ turn 0 ∷ turn 1 ∷ []) busy)
act_all-IsBarred_example =
    act_all-IsBarred bob (turn 1 ∷ turn 1 ∷ turn 0 ∷ turn 1 ∷ []) busy busy-IsBarred

free : member alice start.blacklist ≡ false
unfolding member init Text_discrete
free = refl

absent : find alice start.sessions ≡ none
unfolding find init
absent = refl

act_all-racing_example :
    let s = act_all (turn 0 ∷ turn 1 ∷ turn 0 ∷ []) (racing now alice start) in
    (s.threads ≡ between [] ∷ between [] ∷ [])
    × (member alice s.manager.blacklist ≡ true)
    × (find alice s.manager.sessions ≡ some (new_session now alice))
act_all-racing_example = act_all-racing now alice start alice-IsValid free absent
