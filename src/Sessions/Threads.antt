-- ===== src/Sessions/Threads.antt =====
-- src/session_manager.cpp: threads that call SessionManager, in the order in which a scheduler lets them run. A
-- thread holds one lock at a time, so the sections under the locks are the steps; `create_session` has
-- two of them, and other threads come between.
pub mod Histories
pub mod Refusal
pub mod Linear
mod Tests
use pgw.Base.{
  ℕ, Bool, true, false, List, [], ◌∷◌, Option, none, some, Text, get_elem?, set, if◌then◌else◌,
  Outcome, returns, throws, terminates,
}
use pgw.Sessions.State.{Manager, Instant}
use pgw.Sessions.Requests.{is_imsi, check_blacklist, open_session}
use pgw.Sessions.Cleanup.{reap}
use pgw.Sessions.Shutdown.{Begin, start_graceful_shutdown, pick, remove_picked}
use pgw.Sessions.Spec.{Call, create, touch, exists, remove, ban, unban, check}
use pgw.Sessions.Refinement.{perform}

-- A client thread with the calls that it has left: between two calls, or in `create_session` after the IMSI was found
-- valid and not refused.
pub data Thread : Type 0 where
  between : List Call → Thread
  opening : Instant → Text → List Call → Thread

-- `create_session` up to the end of the section under `blacklist_mutex_`.
unfoldable pub begin_create : Instant → Text → List Call → Manager → Manager × Thread
begin_create now imsi rest m =
    if is_imsi imsi
    then (let (checked, refused) = check_blacklist now imsi m in
        if refused then (checked, between rest) else (checked, opening now imsi rest))
    else (m, between rest)

-- The next section of a thread.
unfoldable pub advance : Thread → Manager → Manager × Thread
advance (between []) m = (m, between [])
advance (between (create now imsi ∷ rest)) m = begin_create now imsi rest m
advance (between (touch now imsi ∷ rest)) m = ((perform (touch now imsi) m).0, between rest)
advance (between (exists imsi ∷ rest)) m = ((perform (exists imsi) m).0, between rest)
advance (between (remove imsi ∷ rest)) m = ((perform (remove imsi) m).0, between rest)
advance (between (ban imsi ∷ rest)) m = ((perform (ban imsi) m).0, between rest)
advance (between (unban imsi ∷ rest)) m = ((perform (unban imsi) m).0, between rest)
advance (between (check imsi ∷ rest)) m = ((perform (check imsi) m).0, between rest)
advance (opening now imsi rest) m = ((open_session now imsi m).0, between rest)

pub record System : Type 0 where
  pub manager : Manager
  pub threads : List Thread

abbrev resume : ℕ → Option Thread → System → System
resume i none s = s
resume i (some t) s =
    let (m, u) = advance t s.manager in record { manager = m; threads = set s.threads i u }

-- A start of the graceful shutdown that ends the process is no step.
abbrev pub started : Outcome Manager → Manager → Manager
started (returns n) m = n
started (throws e) m = m
started terminates m = m

-- What the scheduler lets happen: the next section of a client thread, or a section of the manager's own threads.
pub data Action : Type 0 where
  turn : ℕ → Action
  cleans : Instant → List Text → Action
  shuts : Action
  looks : Begin → Action
  drops : ℕ → Text → Action

unfoldable pub act : Action → System → System
act (turn i) s = resume i (get_elem? s.threads i) s
act (cleans now expired) s = record s { manager = reap now expired s.manager }
act shuts s = record s { manager = started (start_graceful_shutdown s.manager) s.manager }
act (looks begin) s = record s { manager = (pick begin s.manager).0 }
act (drops system imsi) s = record s { manager = remove_picked system imsi s.manager }

unfoldable pub act_all : List Action → System → System
act_all [] s = s
act_all (a ∷ rest) s = act_all rest (act a s)
