-- ===== src/Sessions/Tests/Sections.antt =====
-- src/session_manager.cpp: the theorems on sections and their order, at inputs.
use pgw.Base.{
  length, ◌≤◌, map, ◌⊎◌, ◌+◌, ◌<◌, ◌≡◌, refl, true, false, [], ◌∷◌, none, some, arith, find, count,
  Text_discrete,
}
use pgw.Sessions.State.{Manager, Session, Instant, init}
use pgw.Sessions.Requests.{session_exists}
use pgw.Sessions.Cleanup.{collect_expired, reap}
use pgw.Sessions.Interleaving
use pgw.Sessions.Interleaving.{Run, here, next, checks, opens, reaps}
use pgw.Sessions.Interference.{Meanwhile, nothing_yet, and_then, reap-collect_expired}
use pgw.Sessions.Lifecycle.{follow, entry_of}
use pgw.Sessions.Lifecycle.Told.{follow-session_exists}
use pgw.Sessions.Locks.{
  lock, known, races_on, section, IsUntouched, touches, activities, updates, collects,
  races_on-section,
}
use pgw.Sessions.Requests.{update_session_activity}
use pgw.Sessions.Requests.{open_session}
use pgw.Sessions.Shutdown.{pick, remove_picked}
use pgw.Sessions.Invariant.{Inv}
use pgw.Sessions.Rounds
use pgw.Sessions.Rounds.{Rounds, begun, removes_one, quiet, Shutting, finds_none}
use pgw.Sessions.Rounds.Bound.{Shutting-bound}
use pgw.Sessions.Tests.{
  draining, draining-IsDraining, head-IsBegin, alice-IsValid, run_all, alice, bob, at, one, one-Inv,
  start-Inv, history, expired, head,
}

-- A worker updates an activity while the cleanup reads it.
races_on-section_example :
    (races_on activities updates collects ≡ known activities updates collects)
    × ((known activities updates collects ≡ true)
        ⊎ (IsUntouched activities one (section updates (at 7) alice [] head one)
            ⊎ (touches collects activities ≡ none)))
unfolding lock
races_on-section_example =
    races_on-section activities updates collects (at 7) alice [] head one refl

follow-session_exists_example :
    follow alice (some false) (map entry_of expired.delivered) ≡ some (session_exists alice expired)
unfolding count Text_discrete init
follow-session_exists_example =
    follow-session_exists 1 10 (bob ∷ []) alice (λ k. start-Inv.banned k) history refl

-- Alice's session was collected, and is used again before the pass takes the lock.
abbrev pass : Instant
pass = at 2000000000

abbrev used : Manager
used = update_session_activity (at 2000000001) alice one

used-Meanwhile : Meanwhile 2000000000 one used
used-Meanwhile = and_then nothing_yet (Interleaving.touches (at 2000000001) alice one) (omega arith)

one-limit : 0 < one.session_timeout
unfolding run_all
one-limit = omega arith

abbrev used_session : Session
used_session = record { imsi = alice; created_at = 5; last_activity = 2000000001 }

used-kept :
    find alice
      (reap pass (collect_expired pass.steady one.session_timeout one.sessions) used).sessions
    ≡ some used_session
unfolding run_all update_session_activity collect_expired
used-kept = refl

reap-collect_expired_example : pass.steady < used_session.last_activity + one.session_timeout
reap-collect_expired_example =
    reap-collect_expired pass alice used_session one-limit one-Inv used-Meanwhile used-kept

-- Alice comes again as soon as the graceful shutdown has taken her session.
abbrev without_alice : Manager
without_alice = remove_picked 77 alice draining

abbrev with_alice : Manager
with_alice = (open_session (at 9) alice without_alice).0

one_round : Rounds head draining 1 1 with_alice
unfolding run_all remove_picked pick
one_round =
    removes_one alice 77 (begun quiet) refl quiet refl refl quiet
      (Rounds.and_then quiet (opens (at 9) alice without_alice alice-IsValid))

abbrev without_again : Manager
without_again = remove_picked 78 alice with_alice

-- A second round, and the one that finds no session.
ended : Shutting head draining 3 1 (pick head without_again).0
unfolding run_all remove_picked pick
ended = finds_none (removes_one alice 78 one_round refl quiet refl refl quiet quiet) refl quiet refl

Shutting-bound_example :
    Inv (pick head without_again).0
    × (3 + length (pick head without_again).0.sessions ≤ length draining.sessions + 1 + 1)
Shutting-bound_example = Shutting-bound head head-IsBegin draining-IsDraining.inv ended
