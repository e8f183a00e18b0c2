-- ===== src/Sessions/Cleanup.antt =====
-- src/session_manager.cpp: `cleanup_thread`. A pass reads the steady clock once, collects the expired keys
-- under the shared lock, and looks again at each under the exclusive lock.
use pgw.Base.{
  ℕ, Bool, List, [], ◌∷◌, ◌++◌, ◌+◌, none, some, Text, leb, length, if◌then◌else◌, find, erase,
}
use pgw.Sessions.State.{Manager, Session, Instant, later, timeout, emit_event}

-- `now - last_activity >= session_timeout_`. The durations are signed: an activity after `now` gives a
-- negative difference, so the comparison is of `last_activity + session_timeout_` with `now`.
unfoldable pub has_expired : ℕ → ℕ → Session → Bool
has_expired now limit s = leb (s.last_activity + limit) now

-- The loop under the shared lock.
unfoldable pub collect_expired : ℕ → ℕ → List (Text × Session) → List Text
collect_expired now limit [] = []
collect_expired now limit ((imsi, s) ∷ rest) =
    (if has_expired now limit s then imsi ∷ [] else []) ++ collect_expired now limit rest

-- One round of the loop under the exclusive lock; `now` has the steady clock's reading from the top of the pass.
unfoldable pub reap_one : Instant → Text → Manager → Manager
reap_one now imsi m = elim (find imsi m.sessions) [
  | none ↦ m
  | some s ↦
      if has_expired now.steady m.session_timeout s
      then emit_event now.system imsi timeout (record m { sessions = erase imsi m.sessions })
      else m
]

unfoldable pub reap : Instant → List Text → Manager → Manager
reap now [] m = m
reap now (imsi ∷ rest) m = reap now rest (reap_one (later now (length rest)) imsi m)

unfoldable pub cleanup_pass : Instant → Manager → Manager
cleanup_pass now m = reap now (collect_expired now.steady m.session_timeout m.sessions) m

-- The thread, at the instants at which its passes begin; it looks at `running_` before each.
unfoldable pub cleanup_thread : List Instant → Manager → Manager
cleanup_thread [] m = m
cleanup_thread (now ∷ later) m =
    let next = cleanup_thread later (cleanup_pass now m) in if m.running then next else m
