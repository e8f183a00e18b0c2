-- ===== src/Sessions/Interleaving.antt =====
-- src/session_manager.cpp: all that threads can do to one SessionManager, a section under a lock at a
-- time. The arguments of a section are whatever its thread brings, so every interleaving is covered.
use pgw.Base.{ℕ, ◌≡◌, List, [], ◌∷◌, ◌++◌, none, some, Text, find, returns}
use pgw.Imsi.Valid.{IsValid}
use pgw.Sessions.State.{Manager, Instant, destroy}
use pgw.Sessions.Requests.{
  check_blacklist, open_session, remove_session, add_to_blacklist, remove_from_blacklist,
  update_session_activity,
}
use pgw.Sessions.Cleanup.{reap}
use pgw.Sessions.Shutdown.{Begin, start_graceful_shutdown, pick, remove_picked}

-- The subscribers whose session a call of `remove_session` took away.
unfoldable pub removed_by : Text → Manager → List Text
removed_by imsi m = elim (find imsi m.sessions) [ none ↦ [] | some s ↦ imsi ∷ [] ]

-- One section, with the subscribers that it removed by hand.
pub data Section : Manager → List Text → Manager → Type 0 where
  checks :
      (now : Instant) (imsi : Text) (m : Manager)
      → IsValid imsi
      → Section m [] (check_blacklist now imsi m).0
  opens :
      (now : Instant) (imsi : Text) (m : Manager)
      → IsValid imsi
      → Section m [] (open_session now imsi m).0
  removes : (imsi : Text) (m : Manager) → Section m (removed_by imsi m) (remove_session imsi m).0
  bans : (imsi : Text) (m : Manager) → Section m [] (add_to_blacklist imsi m)
  unbans : (imsi : Text) (m : Manager) → Section m [] (remove_from_blacklist imsi m)
  touches :
      (now : Instant) (imsi : Text) (m : Manager)
      → Section m [] (update_session_activity now imsi m)
  reaps : (now : Instant) (expired : List Text) (m : Manager) → Section m [] (reap now expired m)
  starts : (m : Manager) {n : Manager} → start_graceful_shutdown m ≡ returns n → Section m [] n
  picks : (begin : Begin) (m : Manager) → Section m [] (pick begin m).0
  drops : (system : ℕ) (imsi : Text) (m : Manager) → Section m [] (remove_picked system imsi m)
  stops : (m : Manager) → Section m [] (destroy m)

-- A history: sections of any threads in any order.
pub data Run (s : Manager) : List Text → Manager → Type 0 where
  here : Run s [] s
  next :
      {gone more : List Text} {m n : Manager}
      → Run s gone m
      → Section m more n
      → Run s (gone ++ more) n
