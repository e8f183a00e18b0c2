-- ===== src/Sessions/Expiry.antt =====
-- src/session_manager.cpp: which sessions a pass of `cleanup_thread` removes.
use pgw.Base.{
  length, leb, ◌+◌, ℕ, ◌≡◌, refl, true, false, List, [], ◌∷◌, Option, none, some, Text, arith, find,
  erase, member, ite, Text_discrete, find-erase,
}
use pgw.Sessions.State.{later, Manager, Session, SessionAction, Instant, emit_event, timeout}
use pgw.Sessions.Cleanup.{reap_one, reap, has_expired}
use pgw.Sessions.Invariant.{Inv, reap_one-Inv}

-- The session that is left after a look at it: none if it has expired.
abbrev pub keep_fresh : ℕ → ℕ → Option Session → Option Session
keep_fresh now limit none = none
keep_fresh now limit (some s) = elim (leb (s.last_activity + limit) now) [
  | true ↦ none
  | false ↦ some s
]

-- What an event does not touch.
pub emit_event-same :
    (system : ℕ) (imsi : Text) (a : SessionAction) (m : Manager)
    → ((emit_event system imsi a m).sessions ≡ m.sessions)
      × ((emit_event system imsi a m).session_timeout ≡ m.session_timeout)
unfolding emit_event
emit_event-same system imsi a m = ground arith

module _ (now : Instant) where
  pub reap_one-find :
      (imsi k : Text) (m : Manager)
      → Inv m
      → (find k (reap_one now imsi m).sessions
          ≡ ite
              (Text_discrete imsi k)
              (keep_fresh now.steady m.session_timeout (find k m.sessions))
              (find k m.sessions))
        × ((reap_one now imsi m).session_timeout ≡ m.session_timeout)
  unfolding reap_one has_expired
  reap_one-find imsi k m v = ground (
    arith,
    emit_event-same now.system imsi timeout (record m { sessions = erase imsi m.sessions }),
    find-erase imsi k m.sessions (v.table.distinct imsi),
  )

module _ (now : Instant) where
  keep_fresh_idem :
      (limit : ℕ) (o : Option Session)
      → keep_fresh now.steady limit (keep_fresh now.steady limit o) ≡ keep_fresh now.steady limit o
  keep_fresh_idem limit none = refl
  keep_fresh_idem limit (some s) = ground arith

  -- Under the exclusive lock, whatever keys the thread collected before: a listed session goes exactly if
  -- it has expired by now, and no other session is touched.
  pub reap_lem :
      (expired : List Text) (k : Text) (m : Manager)
      → Inv m
      → find k (reap now expired m).sessions ≡ (elim (member k expired) [
        | true ↦ keep_fresh now.steady m.session_timeout (find k m.sessions)
        | false ↦ find k m.sessions
      ])
  unfolding reap member
  reap_lem [] k m v = refl
  reap_lem (imsi ∷ expired) k m v = ground (
    arith,
    reap_one-find (later now (length expired)) imsi k m v,
    reap_lem expired k (reap_one (later now (length expired)) imsi m)
        (reap_one-Inv (later now (length expired)) imsi m v),
    keep_fresh_idem m.session_timeout (find k m.sessions),
  )
