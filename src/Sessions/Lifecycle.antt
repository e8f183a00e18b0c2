-- ===== src/Sessions/Lifecycle.antt =====
-- src/session_manager.cpp: what the events say of each subscriber, read one after the other, against the sessions. An
-- entry is the subscriber and the action of an event.
pub mod Told
use pgw.Base.{
  ℕ, ◌≤◌, ◌≡◌, refl, arith, Bool, true, false, List, [], ◌∷◌, ◌++◌, map, map-append, Option, none,
  some, count-append, Option-cases, inl, inr, Text, Text_discrete, ite, find, insert, erase, keys,
  count, find-insert, find-erase, returns,
}
use pgw.Sessions.State.{
  Manager, Session, SessionEvent, SessionAction, Instant, new_session, emit_event, destroy, init,
  created, rejected, timeout, graceful_shutdown,
}
use pgw.Sessions.Requests.{
  check_blacklist, open_session, session_exists, remove_session, add_to_blacklist,
  remove_from_blacklist, update_session_activity,
}
use pgw.Sessions.Cleanup.{reap_one, reap}
use pgw.Sessions.Shutdown.{start_graceful_shutdown, pick, remove_picked}
use pgw.Sessions.Interleaving.{
  Section, checks, opens, removes, bans, unbans, touches, reaps, starts, picks, drops, stops, Run,
  here, next, removed_by,
}
use pgw.Sessions.Invariant.{Inv, Run-Inv, init-Inv, reap_one-Inv}

abbrev pub Entry : Type 0
Entry = Text × SessionAction

abbrev pub entry_of : SessionEvent → Entry
entry_of e = (e.imsi, e.action)

-- What an action makes of a subscriber who has a session or not; `none` when it cannot come then.
unfoldable pub progress : SessionAction → Option Bool → Option Bool
progress rejected o = o
progress created (some false) = some true
progress timeout (some true) = some false
progress graceful_shutdown (some true) = some false
progress _ _ = none

-- The entries of one subscriber, in order.
unfoldable pub follow : Text → Option Bool → List Entry → Option Bool
follow k o [] = o
follow k o ((imsi, a) ∷ rest) = follow k (ite (Text_discrete imsi k) (progress a o) o) rest

module _ (k : Text) where
  abbrev pub status : Manager → Option Bool
  status m = follow k (some false) (map entry_of m.delivered)

  -- The events about the subscriber tell whether there is a session.
  pub record IsTold (m : Manager) : Type 0 where
    pub listening : m.has_callback ≡ true
    pub told : status m ≡ some (session_exists k m)
