-- ===== src/Sessions/Restart.antt =====
-- src/session_manager.cpp: the thread of the graceful shutdown is started once.
use pgw.Base.{
  length, ◌≡◌, refl, ◌⊎◌, inr, arith, true, false, List, [], ◌∷◌, Text, returns, terminates,
}
use pgw.Sessions.State.{later, Manager, emit_event, destroy, Instant}
use pgw.Sessions.Requests.{
  check_blacklist, open_session, remove_session, add_to_blacklist, remove_from_blacklist,
  update_session_activity,
}
use pgw.Sessions.Cleanup.{reap_one, reap}
use pgw.Sessions.Shutdown.{start_graceful_shutdown, pick, remove_picked}
use pgw.Sessions.Interleaving.{
  Section, checks, opens, removes, bans, unbans, touches, reaps, starts, picks, drops, stops, Run,
  here, next,
}

-- The handle of the shutdown thread is joinable, unless the destructor ran.
abbrev pub IsStarted : Manager → Type 0
IsStarted m = (m.graceful_joinable ≡ true) ⊎ (m.running ≡ false)

reap-IsStarted :
    (now : Instant) (expired : List Text) (m : Manager)
    → IsStarted m
    → IsStarted (reap now expired m)
unfolding reap reap_one emit_event
reap-IsStarted now [] m h = h
reap-IsStarted now (imsi ∷ rest) m h =
    reap-IsStarted now rest (reap_one (later now (length rest)) imsi m) (ground (arith, h))

Section-IsStarted :
    {m : Manager} {gone : List Text} {n : Manager} → Section m gone n → IsStarted m → IsStarted n
unfolding check_blacklist open_session remove_session add_to_blacklist remove_from_blacklist
    update_session_activity start_graceful_shutdown pick remove_picked destroy emit_event
Section-IsStarted (checks now imsi m ok) h = ground (arith, h)
Section-IsStarted (opens now imsi m v) h = ground (arith, h)
Section-IsStarted (removes imsi m) h = ground (arith, h)
Section-IsStarted (bans imsi m) h = h
Section-IsStarted (unbans imsi m) h = h
Section-IsStarted (touches now imsi m) h = ground (arith, h)
Section-IsStarted (reaps now expired m) h = reap-IsStarted now expired m h
Section-IsStarted (starts m e) h = ground (arith, e)
Section-IsStarted (picks begin m) h = ground (arith, h)
Section-IsStarted (drops system imsi m) h = ground (arith, h)
Section-IsStarted (stops m) h = inr refl

Run-IsStarted :
    {m : Manager} {gone : List Text} {n : Manager} → Run m gone n → IsStarted m → IsStarted n
Run-IsStarted here h = h
Run-IsStarted (next run step) h = Section-IsStarted step (Run-IsStarted run h)

started : (m n : Manager) → start_graceful_shutdown m ≡ returns n → IsStarted n
unfolding start_graceful_shutdown
started m n e = ground (arith, e)

-- After a graceful shutdown was started, a second start ends the process, whatever sections came between, as long as
-- the destructor did not run.
pub start_graceful_shutdown-again :
    (m n : Manager) (gone : List Text) (o : Manager)
    → start_graceful_shutdown m ≡ returns n
    → Run n gone o
    → o.running ≡ true
    → start_graceful_shutdown o ≡ terminates
unfolding start_graceful_shutdown
start_graceful_shutdown-again m n gone o e run up = ground (arith, Run-IsStarted run, started m n e)
