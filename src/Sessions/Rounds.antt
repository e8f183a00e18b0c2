-- ===== src/Sessions/Rounds.antt =====
-- src/session_manager.cpp: the rounds of `graceful_shutdown_thread` while other threads go on, also between the look at
-- the map and the removal.
pub mod Sizes
pub mod Bound
use pgw.Base.{
  ℕ, suc, ◌+◌, ◌≤◌, ◌≡◌, ◌≢◌, refl, sym, ap, ◌∙◌, subst, arith, Bool, true, false, ◌&&◌, List, [],
  ◌∷◌, none, some, Text, length, Option-cases, Bool-cases, inl, inr, find, insert, erase, overwrite,
  length-erase, find-insert, find-erase, returns, is_empty, ite, Text_discrete, count, keys,
}
use pgw.Imsi.Valid.{IsValid}
use pgw.Sessions.State.{Manager, Session, SessionAction, Instant, new_session, emit_event, destroy}
use pgw.Sessions.Requests.{
  check_blacklist, open_session, remove_session, add_to_blacklist, remove_from_blacklist,
  update_session_activity,
}
use pgw.Sessions.Cleanup.{reap_one, reap}
use pgw.Sessions.Shutdown.{Begin, start_graceful_shutdown, pick, remove_picked}
use pgw.Sessions.Interleaving.{
  Section, checks, opens, removes, bans, unbans, touches, reaps, starts, picks, drops, stops,
}
use pgw.Sessions.Invariant.{Inv, Section-Inv, reap_one-Inv, remove_picked-Inv, pick-Inv}
use pgw.Sessions.Drain.{IsBegin}

-- How many sessions a section opens.
abbrev pub opened : {m n : Manager} {gone : List Text} → Section m gone n → ℕ
opened (opens now imsi m ok) = elim (find imsi m.sessions) [ none ↦ 1 | some s ↦ 0 ]
opened _ = 0

-- Sections of other threads in any order, with the sessions that they open.
pub data Others (s : Manager) : ℕ → Manager → Type 0 where
  quiet : Others s 0 s
  and_then :
      {c : ℕ} {m n : Manager} {gone : List Text}
      → Others s c m
      → (section : Section m gone n) → Others s (c + opened section) n

-- The rounds of the thread so far, and the sessions that others have opened meanwhile: between the test of the flags and
-- the lock, between the look at the map and the removal, and while the thread waits. A round that picks an empty key
-- does nothing else.
pub data Rounds (begin : Begin) (s : Manager) : ℕ → ℕ → Manager → Type 0 where
  begun : {c : ℕ} {m : Manager} → Others s c m → Rounds begin s 0 c m
  removes_one :
      {j c a b d : ℕ} {l m n o : Manager} (imsi : Text) (system : ℕ)
      → Rounds begin s j c l
      → (l.graceful_shutdown_active && l.running) ≡ true
      → Others l a m
      → (pick begin m).1 ≡ some imsi
      → is_empty imsi ≡ false
      → Others (pick begin m).0 b n
      → Others (remove_picked system imsi n) d o
      → Rounds begin s (j + 1) (c + a + b + d) o
  skips :
      {j c a d : ℕ} {l m o : Manager} (imsi : Text)
      → Rounds begin s j c l
      → (l.graceful_shutdown_active && l.running) ≡ true
      → Others l a m
      → (pick begin m).1 ≡ some imsi
      → is_empty imsi ≡ true
      → Others (pick begin m).0 d o
      → Rounds begin s (j + 1) (c + a + d) o

-- The thread on its way, or at its end, with the round that finds the map empty.
pub data Shutting (begin : Begin) (s : Manager) : ℕ → ℕ → Manager → Type 0 where
  goes_on : {j c : ℕ} {m : Manager} → Rounds begin s j c m → Shutting begin s j c m
  finds_none :
      {j c a : ℕ} {l m : Manager}
      → Rounds begin s j c l
      → (l.graceful_shutdown_active && l.running) ≡ true
      → Others l a m
      → (pick begin m).1 ≡ none
      → Shutting begin s (j + 1) (c + a) (pick begin m).0
