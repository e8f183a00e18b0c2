-- ===== src/Sessions/Passes.antt =====
-- src/session_manager.cpp: a whole pass of `cleanup_thread`, its events, and the thread over its life.
use pgw.Base.{
  length, leb, ℕ, ◌+◌, ◌≤◌, ◌≡◌, refl, true, false, List, [], ◌∷◌, Option, none, some, Text, arith,
  find, erase, keys, count, member, ite, Text_discrete, Bool, find-none_iff, ◌||◌, ◌&&◌,
  if◌then◌else◌,
}
use pgw.Sessions.State.{
  later, Manager, Session, Instant, emit_event, count_events, SessionAction_discrete, timeout,
}
use pgw.Sessions.Cleanup.{
  reap_one, reap, has_expired, collect_expired, cleanup_pass, cleanup_thread,
}
use pgw.Sessions.Invariant.{Inv, reap_one-Inv, reap-Inv}
use pgw.Sessions.Expiry.{keep_fresh, reap_lem, reap_one-find}
use pgw.Sessions.Accounting.{emit_event-counts}

-- Whether there is a session, and it has expired.
abbrev pub is_due : ℕ → ℕ → Option Session → Bool
is_due now limit none = false
is_due now limit (some s) = leb (s.last_activity + limit) now

pub member-collect_expired :
    (now limit : ℕ) (k : Text) (t : List (Text × Session))
    → count k (keys t) ≤ 1
    → member k (collect_expired now limit t) ≡ is_due now limit (find k t)
unfolding member collect_expired find count has_expired
member-collect_expired now limit k [] h = refl
member-collect_expired now limit k ((j, s) ∷ t) h =
    ground (arith, member-collect_expired now limit k t, find-none_iff k t)

-- A pass that no other thread comes between removes exactly the expired sessions.
pub find-cleanup_pass :
    (now : Instant) (k : Text) (m : Manager)
    → Inv m
    → find k (cleanup_pass now m).sessions
      ≡ keep_fresh now.steady m.session_timeout (find k m.sessions)
unfolding cleanup_pass
find-cleanup_pass now k m v = ground (
  arith,
  reap_lem now (collect_expired now.steady m.session_timeout m.sessions) k m v,
  member-collect_expired now.steady m.session_timeout k m.sessions (v.table.distinct k),
)

module _ (now : Instant) (k : Text) where
  reap_one-timeouts :
      (imsi : Text) (m : Manager)
      → m.has_callback ≡ true
      → Inv m
      → (count_events k timeout (reap_one now imsi m).delivered
          ≡ count_events k timeout m.delivered
            + ite
                (Text_discrete imsi k)
                (if is_due now.steady m.session_timeout (find k m.sessions) then 1 else 0)
                0)
        × ((reap_one now imsi m).has_callback ≡ true)
  unfolding reap_one has_expired SessionAction_discrete
  reap_one-timeouts imsi m h v = ground (
    arith,
    emit_event-counts k now.system imsi timeout timeout
        (record m { sessions = erase imsi m.sessions }) h,
  )

module _ (now : Instant) (k : Text) where
  -- An expired session gets one TIMEOUT event, however often its key was listed, and no other session does.
  pub reap-timeouts :
      (expired : List Text) (m : Manager)
      → m.has_callback ≡ true
      → Inv m
      → count_events k timeout (reap now expired m).delivered
        ≡ count_events k timeout m.delivered
          + (if member k expired && is_due now.steady m.session_timeout (find k m.sessions)
              then 1
              else 0)
  unfolding reap member
  reap-timeouts [] m h v = omega arith
  reap-timeouts (imsi ∷ expired) m h v = ground (
    arith,
    reap_one-timeouts (later now (length expired)) k imsi m h v,
    reap_one-find (later now (length expired)) imsi k m v,
    reap-timeouts expired (reap_one (later now (length expired)) imsi m),
    reap_one-Inv (later now (length expired)) imsi m v,
  )

-- Whether one of the passes comes when the session has expired.
abbrev pub is_due_at : List Instant → ℕ → Option Session → Bool
is_due_at [] limit o = false
is_due_at (now ∷ later) limit o = is_due now.steady limit o || is_due_at later limit o

reap_one-same :
    (now : Instant) (imsi : Text) (m : Manager)
    → ((reap_one now imsi m).running ≡ m.running)
      × ((reap_one now imsi m).session_timeout ≡ m.session_timeout)
unfolding reap_one emit_event
reap_one-same now imsi m = ground arith

reap-same :
    (now : Instant) (expired : List Text) (m : Manager)
    → ((reap now expired m).running ≡ m.running)
      × ((reap now expired m).session_timeout ≡ m.session_timeout)
unfolding reap
reap-same now [] m = (refl, refl)
reap-same now (imsi ∷ expired) m = ground (
  arith,
  reap_one-same (later now (length expired)) imsi m,
  reap-same now expired (reap_one (later now (length expired)) imsi m),
)

cleanup_pass-same :
    (now : Instant) (m : Manager)
    → ((cleanup_pass now m).running ≡ m.running)
      × ((cleanup_pass now m).session_timeout ≡ m.session_timeout)
unfolding cleanup_pass
cleanup_pass-same now m = reap-same now (collect_expired now.steady m.session_timeout m.sessions) m

cleanup_pass-Inv : (now : Instant) (m : Manager) → Inv m → Inv (cleanup_pass now m)
unfolding cleanup_pass
cleanup_pass-Inv now m v =
    reap-Inv now (collect_expired now.steady m.session_timeout m.sessions) m v

-- While the manager runs and nobody else touches it, the thread ends a session exactly if one of its passes comes
-- at least the timeout after the session's last activity.
pub cleanup_thread_lem :
    (times : List Instant) (k : Text) (m : Manager)
    → m.running ≡ true
    → Inv m
    → find k (cleanup_thread times m).sessions
      ≡ (if is_due_at times m.session_timeout (find k m.sessions) then none else find k m.sessions)
unfolding cleanup_thread
cleanup_thread_lem [] k m h v = refl
cleanup_thread_lem (now ∷ later) k m h v = ground (
  arith,
  cleanup_pass-same now m,
  cleanup_pass-Inv now m v,
  find-cleanup_pass now k m v,
  cleanup_thread_lem later k (cleanup_pass now m),
)
