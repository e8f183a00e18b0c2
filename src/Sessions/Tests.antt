-- ===== src/Sessions/Tests.antt =====
-- src/session_manager.cpp and tests/session_manager_test.cpp: runs of a SessionManager, and the theorems at
-- inputs.
mod Sections
use pgw.Base.{
  terminates, ◌++◌, map, ◌⊎◌, ℕ, ◌+◌, ◌*◌, ◌/◌, ◌<◌, ◌≡◌, ◌≢◌, refl, true, false, List, [], ◌∷◌,
  none, some, Text, codes, arith, find, insert, erase, overwrite, count, member, is_empty,
  Text_discrete, ℕ_discrete, length, if◌then◌else◌,
}
use pgw.Imsi.{make}
use pgw.Imsi.Valid.{IsValid}
use pgw.Sessions.State.{
  Manager, Session, Instant, new_session, init, emit_event, count_events, SessionAction_discrete,
  created, timeout, graceful_shutdown,
}
use pgw.Sessions.Requests.{
  CreateResult, already_exists, blacklisted, session_exists, is_imsi, check_blacklist, open_session,
  create_session,
}
use pgw.Sessions.Cleanup.{
  has_expired, collect_expired, reap_one, reap, cleanup_pass, cleanup_thread,
}
use pgw.Sessions.Shutdown.{Begin, start_graceful_shutdown, graceful_shutdown_thread, finished}
use pgw.Sessions.Interleaving
use pgw.Sessions.Interleaving.{Run, here, next, checks, opens, reaps}
use pgw.Sessions.Invariant.{Inv, Run-Inv, init-Inv}
use pgw.Sessions.Accounting.{created-eq-ended_or_open, open_count}
use pgw.Sessions.Expiry.{keep_fresh, reap_lem}
use pgw.Sessions.Passes.{is_due_at, cleanup_thread_lem}
use pgw.Sessions.Drain.{IsBegin, IsDraining, IsDrained, graceful_shutdown_thread_lem}
use pgw.Sessions.Spec
use pgw.Sessions.Spec.{Call}
use pgw.Sessions.Clients.{create_session-Run, perform_run}
use pgw.Sessions.Public.{
  Method, request, shuts_down, shutting_down, invoke_all, keep, keep_all, promise, seen_of,
  keep_all-invoke_all,
}
use pgw.Sessions.Interference.{Meanwhile, nothing_yet, and_then, reap-collect_expired}
use pgw.Sessions.Lifecycle.{follow, entry_of}
use pgw.Sessions.Lifecycle.Told.{follow-session_exists}
use pgw.Sessions.Locks.{
  lock, known, races_on, section, IsUntouched, touches, activities, updates, collects,
  races_on-section,
}

run_all : Unit {0}
unfolding find insert erase overwrite count member is_empty Text_discrete ℕ_discrete make
    new_session init emit_event count_events SessionAction_discrete is_imsi check_blacklist
    open_session create_session has_expired collect_expired reap_one reap cleanup_pass
    cleanup_thread start_graceful_shutdown graceful_shutdown_thread
run_all = tt

abbrev alice : Text
alice = codes "123456789012345"

abbrev bob : Text
bob = codes "111112222233333"

abbrev at : ℕ → Instant
at t = record { steady = t; system = t; ticks = λ left. t }

abbrev start : Manager
start = init 1 10 (bob ∷ []) true

abbrev one : Manager
one = (create_session (at 5) alice start).0

-- tests/session_manager_test.cpp, CreateNewSession and CreateExistingSession.
create_new : (create_session (at 5) alice start).1 ≡ CreateResult.created
unfolding run_all
create_new = refl

create_existing : (create_session (at 7) alice one).1 ≡ already_exists
unfolding run_all
create_existing = refl

-- BlacklistedSession and InvalidIMSI.
create_banned : (create_session (at 5) bob start).1 ≡ blacklisted
unfolding run_all
create_banned = refl

create_invalid : create_session (at 5) (codes "invalid_imsi_abc") start ≡ (start, blacklisted)
unfolding run_all
create_invalid = refl

-- SessionTimeout: the pass 1.5 s later.
session_timeout : (cleanup_pass (at 1500000000) one).sessions ≡ []
unfolding run_all
session_timeout = refl

no_timeout_yet : length (cleanup_pass (at 900000000) one).sessions ≡ 1
unfolding run_all
no_timeout_yet = refl

start-Inv : Inv start
unfolding count Text_discrete ℕ_discrete
start-Inv = init-Inv 1 10 (bob ∷ []) true (λ k. ground arith)

alice-IsValid : IsValid alice
alice-IsValid = omega arith

abbrev history : Run start [] (
    reap
      (at 2000000000)
      (alice ∷ [])
      (open_session (at 5) alice (check_blacklist (at 5) alice start).0).0)
history =
    next
      (next (next here (checks (at 5) alice start alice-IsValid))
        (opens (at 5) alice _ alice-IsValid))
      (reaps (at 2000000000) (alice ∷ []) _)

one-listening : one.has_callback ≡ true
unfolding run_all
one-listening = refl

start-listening : start.has_callback ≡ true
unfolding run_all
start-listening = refl

one-running : one.running ≡ true
unfolding run_all
one-running = refl

one-rate : one.shutdown_rate ≢ 0
unfolding run_all
one-rate = omega arith

one-length : length one.sessions < 2
unfolding run_all
one-length = omega arith

abbrev expired : Manager
expired =
    reap (at 2000000000) (alice ∷ [])
      (open_session (at 5) alice (check_blacklist (at 5) alice start).0).0

created-eq-ended_or_open_example :
    count_events alice created expired.delivered
    ≡ count_events alice timeout expired.delivered
      + count_events alice graceful_shutdown expired.delivered
      + count alice []
      + open_count alice expired
created-eq-ended_or_open_example = created-eq-ended_or_open 1 10 (bob ∷ []) history alice

Run-Inv_example : Inv expired
Run-Inv_example = Run-Inv history start-Inv

one-Inv : Inv one
one-Inv = Run-Inv (create_session-Run (at 5) alice start) start-Inv

cleanup_thread_lem_example :
    find alice (cleanup_thread (at 900000000 ∷ at 1900000000 ∷ []) one).sessions ≡ (
      if is_due_at (at 900000000 ∷ at 1900000000 ∷ []) one.session_timeout (find alice one.sessions)
      then none
      else find alice one.sessions)
cleanup_thread_lem_example =
    cleanup_thread_lem (at 900000000 ∷ at 1900000000 ∷ []) alice one one-running one-Inv

abbrev calls : List Call
calls =
    Spec.create (at 5) alice ∷ Spec.create (at 6) bob ∷ Spec.remove alice ∷ Spec.exists alice ∷ []

abbrev methods : List Method
methods = shuts_down ∷ shutting_down ∷ map request calls ++ shuts_down ∷ []

keep_all-invoke_all_example : keep_all methods (promise start) ≡ seen_of (invoke_all methods start)
keep_all-invoke_all_example = keep_all-invoke_all methods start start-Inv start-listening

-- The second start of the graceful shutdown ends the process.
methods-end : keep_all methods (promise start) ≡ terminates
unfolding keep_all keep init
methods-end = refl

-- `begin` of a list is its head.
abbrev head : Begin
head [] = none
head ((k, s) ∷ t) = some k

head-IsBegin : IsBegin head
unfolding find
head-IsBegin = record { exhausts = head_exhausts; present = head_present }
  where
    head_exhausts : (t : List (Text × Session)) → head t ≡ none → t ≡ []
    head_exhausts [] h = refl
    head_exhausts ((k, s) ∷ t) h = cc

    head_present : (t : List (Text × Session)) (k : Text) → head t ≡ some k → find k t ≢ none
    head_present [] k h = cc
    head_present ((j, s) ∷ t) k h = λ e. ground arith

-- What the system clock shows, by the rounds that are left.
abbrev clock : ℕ → ℕ
clock left = 77 + left

abbrev draining : Manager
draining = record one { graceful_shutdown_active = true }

draining-IsDraining : IsDraining draining
draining-IsDraining = record {
  inv = record { table = one-Inv.table; banned = one-Inv.banned };
  active = refl;
  alive = one-running;
  listening = one-listening;
}

graceful_shutdown_thread_lem_example :
    (n : Manager) × (graceful_shutdown_thread head 2 clock draining
      ≡ finished n (length draining.sessions * (1000 / draining.shutdown_rate)))
    × IsDrained draining n
graceful_shutdown_thread_lem_example =
    graceful_shutdown_thread_lem head head-IsBegin clock 2 draining draining-IsDraining one-rate
      one-length
