-- ===== src/Sessions/Interference.antt =====
-- src/session_manager.cpp: a pass of `cleanup_thread` gives up its shared lock between collecting the keys and removing
-- the sessions, and other threads come in between.
use pgw.Base.{
  length, ℕ, ◌+◌, ◌<◌, ◌≤◌, ◌≡◌, refl, arith, true, List, [], ◌∷◌, some, Text, Option-cases, inl,
  inr, find, insert, erase, count, keys, member, find-insert, find-erase,
}
use pgw.Sessions.State.{
  later, Manager, Session, SessionAction, Instant, new_session, emit_event, destroy,
}
use pgw.Sessions.Requests.{
  check_blacklist, open_session, remove_session, add_to_blacklist, remove_from_blacklist,
  update_session_activity,
}
use pgw.Sessions.Cleanup.{reap_one, reap, collect_expired}
use pgw.Sessions.Shutdown.{start_graceful_shutdown, pick, remove_picked}
use pgw.Sessions.Interleaving.{
  Section, checks, opens, removes, bans, unbans, touches, reaps, starts, picks, drops, stops, Run,
  here, next,
}
use pgw.Sessions.Invariant.{Inv, Run-Inv, reap_one-Inv}
use pgw.Sessions.Expiry.{reap_lem}
use pgw.Sessions.Passes.{member-collect_expired}

-- Where a section writes an activity, it has read the steady clock at the time or after it.
abbrev pub IsFrom : ℕ → {m n : Manager} {gone : List Text} → Section m gone n → Type 0
IsFrom time (opens now imsi m ok) = time ≤ now.steady
IsFrom time (touches now imsi m) = time ≤ now.steady
IsFrom time _ = Unit

-- Sections of any threads in any order, from a time on.
pub data Meanwhile (time : ℕ) (s : Manager) : Manager → Type 0 where
  nothing_yet : Meanwhile time s s
  and_then :
      {m n : Manager} {gone : List Text}
      → Meanwhile time s m
      → (section : Section m gone n) → IsFrom time section
      → Meanwhile time s n

Meanwhile-Run : {time : ℕ} {s m : Manager} → Meanwhile time s m → (gone : List Text) × Run s gone m
Meanwhile-Run nothing_yet = ([], here)
Meanwhile-Run (and_then r section h) = let (gone, run) = Meanwhile-Run r in (_, next run section)

module _ (time limit : ℕ) (some_limit : 0 < limit) (collected : List Text) where
  -- What has expired was collected.
  abbrev IsCovered : List (Text × Session) → Type 0
  IsCovered t =
      (k : Text) (s : Session)
      → find k t ≡ some s
      → s.last_activity + limit ≤ time
      → member k collected ≡ true

  record Covered (m : Manager) : Type 0 where
    covered : IsCovered m.sessions
    kept : m.session_timeout ≡ limit

  insert-IsCovered :
      (imsi : Text) (s : Session) (t : List (Text × Session))
      → time ≤ s.last_activity
      → IsCovered t
      → IsCovered (insert imsi s t)
  insert-IsCovered imsi s t late c k u e x = ground (arith, find-insert imsi k s t, c k u, e, x)

  erase-IsCovered :
      (imsi : Text) (t : List (Text × Session))
      → count imsi (keys t) ≤ 1
      → IsCovered t
      → IsCovered (erase imsi t)
  erase-IsCovered imsi t d c k u e x = ground (arith, find-erase imsi k t d, c k u, e, x)

  emit_event-Covered :
      (system : ℕ) (imsi : Text) (a : SessionAction) (m : Manager)
      → Covered m
      → Covered (emit_event system imsi a m)
  unfolding emit_event
  emit_event-Covered system imsi a m v = ground (arith, v.kept, v.covered)

  check_blacklist-Covered :
      (now : Instant) (imsi : Text) (m : Manager)
      → Covered m
      → Covered (check_blacklist now imsi m).0
  unfolding check_blacklist
  check_blacklist-Covered now imsi m v =
      ground (arith, v, emit_event-Covered now.system imsi SessionAction.rejected m v)

  open_session-Covered :
      (now : Instant) (imsi : Text) (m : Manager)
      → time ≤ now.steady
      → Covered m
      → Covered (open_session now imsi m).0
  unfolding open_session new_session
  open_session-Covered now imsi m late v = elim (Option-cases (find imsi m.sessions)) [
    | inl h ↦
        rw (h, open_session)
          (emit_event-Covered now.system imsi SessionAction.created _ (record {
            covered = insert-IsCovered imsi (new_session now imsi) m.sessions late v.covered;
            kept = v.kept;
          }))
    | inr (s, h) ↦
        rw (h, open_session)
          (record { covered = insert-IsCovered imsi _ m.sessions late v.covered; kept = v.kept })
  ]

  update_session_activity-Covered :
      (now : Instant) (imsi : Text) (m : Manager)
      → time ≤ now.steady
      → Covered m
      → Covered (update_session_activity now imsi m)
  unfolding update_session_activity
  update_session_activity-Covered now imsi m late v = elim (Option-cases (find imsi m.sessions)) [
    | inl h ↦ rw (h, update_session_activity) v
    | inr (s, h) ↦
        rw (h, update_session_activity)
          (record { covered = insert-IsCovered imsi _ m.sessions late v.covered; kept = v.kept })
  ]

  erased-Covered :
      (imsi : Text) (m : Manager)
      → Inv m
      → Covered m
      → Covered (record m { sessions = erase imsi m.sessions })
  erased-Covered imsi m w v = record {
    covered = erase-IsCovered imsi m.sessions (w.table.distinct imsi) v.covered;
    kept = v.kept;
  }

  remove_session-Covered :
      (imsi : Text) (m : Manager) → Inv m → Covered m → Covered (remove_session imsi m).0
  unfolding remove_session
  remove_session-Covered imsi m w v = ground (arith, v, erased-Covered imsi m w v)

  remove_picked-Covered :
      (system : ℕ) (imsi : Text) (m : Manager)
      → Inv m
      → Covered m
      → Covered (remove_picked system imsi m)
  unfolding remove_picked
  remove_picked-Covered system imsi m w v = ground (
    arith,
    v,
    emit_event-Covered system imsi SessionAction.graceful_shutdown
        (record m { sessions = erase imsi m.sessions }) (erased-Covered imsi m w v),
  )

  reap_one-Covered :
      (now : Instant) (imsi : Text) (m : Manager)
      → Inv m
      → Covered m
      → Covered (reap_one now imsi m)
  unfolding reap_one
  reap_one-Covered now imsi m w v = ground (
    arith,
    v,
    emit_event-Covered now.system imsi SessionAction.timeout
        (record m { sessions = erase imsi m.sessions }) (erased-Covered imsi m w v),
  )

  reap-Covered :
      (now : Instant) (expired : List Text) (m : Manager)
      → Inv m
      → Covered m
      → Covered (reap now expired m)
  unfolding reap
  reap-Covered now [] m w v = v
  reap-Covered now (imsi ∷ rest) m w v =
      reap-Covered now rest (reap_one (later now (length rest)) imsi m)
        (reap_one-Inv (later now (length rest)) imsi m w)
        (reap_one-Covered (later now (length rest)) imsi m w v)

  Section-Covered :
      {m n : Manager} {gone : List Text} (section : Section m gone n)
      → IsFrom time section
      → Inv m
      → Covered m
      → Covered n
  unfolding destroy add_to_blacklist remove_from_blacklist pick start_graceful_shutdown
  Section-Covered (checks now imsi m ok) h w v = check_blacklist-Covered now imsi m v
  Section-Covered (opens now imsi m ok) h w v = open_session-Covered now imsi m h v
  Section-Covered (removes imsi m) h w v = remove_session-Covered imsi m w v
  Section-Covered (bans imsi m) h w v = record { covered = v.covered; kept = v.kept }
  Section-Covered (unbans imsi m) h w v = record { covered = v.covered; kept = v.kept }
  Section-Covered (touches now imsi m) h w v = update_session_activity-Covered now imsi m h v
  Section-Covered (reaps now expired m) h w v = reap-Covered now expired m w v
  Section-Covered (starts m started) h w v = ground (arith, started, v.kept, v.covered)
  Section-Covered (picks begin m) h w v = ground (arith, v.kept, v.covered)
  Section-Covered (drops system imsi m) h w v = remove_picked-Covered system imsi m w v
  Section-Covered (stops m) h w v = record { covered = v.covered; kept = v.kept }

  Meanwhile-Covered : {s m : Manager} → Meanwhile time s m → Inv s → Covered s → Covered m
  Meanwhile-Covered nothing_yet w v = v
  Meanwhile-Covered (and_then r section h) w v =
      Section-Covered section h (Run-Inv (Meanwhile-Run r).1 w) (Meanwhile-Covered r w v)

collected-Covered :
    (time : ℕ) (m : Manager) (some_limit : 0 < m.session_timeout)
    → Inv m
    → Covered time m.session_timeout some_limit
        (collect_expired time m.session_timeout m.sessions)
        m
collected-Covered time m some_limit w = record {
  covered = λ k s e x. ground (
    arith,
    member-collect_expired time m.session_timeout k m.sessions (w.table.distinct k),
    e,
    x,
  );
  kept = refl;
}

-- A pass of the cleanup collects the expired keys of a table, with a timeout above zero, then any sections of other threads
-- run, none of which reads the clock as earlier than the pass, then the pass removes: no session is left whose last
-- activity lies the timeout or more before the clock reading of the pass.
pub reap-collect_expired :
    (now : Instant) {m n : Manager} (k : Text) (s : Session)
    → 0 < m.session_timeout
    → Inv m
    → Meanwhile now.steady m n
    → find k (reap now (collect_expired now.steady m.session_timeout m.sessions) n).sessions
      ≡ some s
    → now.steady < s.last_activity + m.session_timeout
reap-collect_expired now {m} {n} k s some_limit w r left =
    let expired = collect_expired now.steady m.session_timeout m.sessions in
    let v =
      Meanwhile-Covered now.steady m.session_timeout some_limit expired r w
        (collected-Covered now.steady m some_limit w) in
    ground
      (arith, reap_lem now expired k n (Run-Inv (Meanwhile-Run r).1 w), left, v.kept, v.covered k s)
