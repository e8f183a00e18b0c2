-- ===== src/Sessions/Lifecycle/Told.antt =====
-- The events about a subscriber, section by section, beside the sessions.
use pgw.Base.{
  length, ℕ, ◌≤◌, ◌≡◌, refl, arith, Bool, true, false, List, [], ◌∷◌, ◌++◌, map, map-append, Option,
  none, some, count-append, Option-cases, inl, inr, Text, Text_discrete, ite, find, insert, erase,
  keys, count, find-insert, find-erase, returns,
}
use pgw.Sessions.State.{
  later, Manager, Session, SessionAction, Instant, new_session, emit_event, destroy, init, created,
  rejected, timeout, graceful_shutdown,
}
use pgw.Sessions.Requests.{
  check_blacklist, open_session, session_exists, remove_session, add_to_blacklist,
  remove_from_blacklist, update_session_activity,
}
use pgw.Sessions.Cleanup.{reap_one, reap}
use pgw.Sessions.Shutdown.{start_graceful_shutdown, pick, remove_picked}
use pgw.Sessions.Interleaving.{
  Section, checks, opens, removes, bans, unbans, touches, reaps, starts, picks, drops, stops, Run,
  here, next, removed_by,
}
use pgw.Sessions.Invariant.{Inv, Run-Inv, init-Inv, reap_one-Inv}
use pgw.Sessions.Lifecycle.{Entry, entry_of, progress, follow, status, IsTold}

follow-append :
    (k : Text) (o : Option Bool) (xs ys : List Entry)
    → follow k o (xs ++ ys) ≡ follow k (follow k o xs) ys
unfolding follow
follow-append k o [] ys = refl
follow-append k o (x ∷ xs) ys = follow-append k (ite (Text_discrete x.0 k) (progress x.1 o) o) xs ys

module _ (k : Text) where
  emit_event-status :
      (system : ℕ) (imsi : Text) (a : SessionAction) (m : Manager)
      → m.has_callback ≡ true
      → ((emit_event system imsi a m).has_callback ≡ true)
        × ((emit_event system imsi a m).sessions ≡ m.sessions)
        × (status k (emit_event system imsi a m)
            ≡ ite (Text_discrete imsi k) (progress a (status k m)) (status k m))
  unfolding emit_event follow
  emit_event-status system imsi a m h = ground (
    arith,
    map-append entry_of m.delivered (record { imsi = imsi; action = a; timestamp = system } ∷ []),
    follow-append k (some false) (map entry_of m.delivered) ((imsi, a) ∷ []),
  )

  -- A change of the sessions at a key, and the entry it is told by.
  check_blacklist-IsTold :
      (now : Instant) (imsi : Text) (m : Manager)
      → IsTold k m
      → IsTold k (check_blacklist now imsi m).0
  unfolding check_blacklist progress session_exists
  check_blacklist-IsTold now imsi m v =
      ground (arith, v.listening, v.told, emit_event-status now.system imsi rejected m v.listening)

  opened-IsTold :
      (now : Instant) (imsi : Text) (m : Manager)
      → find imsi m.sessions ≡ none
      → IsTold k m
      → IsTold k (
          emit_event now.system imsi created
            (record m { sessions = insert imsi (new_session now imsi) m.sessions }))
  unfolding progress session_exists
  opened-IsTold now imsi m h v = ground (
    arith,
    h,
    v.listening,
    v.told,
    find-insert imsi k (new_session now imsi) m.sessions,
    emit_event-status now.system imsi created
        (record m { sessions = insert imsi (new_session now imsi) m.sessions }) v.listening,
  )

  touched-IsTold :
      (imsi : Text) (s u : Session) (m : Manager)
      → find imsi m.sessions ≡ some s
      → IsTold k m
      → IsTold k (record m { sessions = insert imsi u m.sessions })
  unfolding session_exists
  touched-IsTold imsi s u m h v =
      ground (arith, h, v.listening, v.told, find-insert imsi k u m.sessions)

  ended-IsTold :
      (system : ℕ) (imsi : Text) (s : Session) (m : Manager)
      → count imsi (keys m.sessions) ≤ 1
      → find imsi m.sessions ≡ some s
      → IsTold k m
      → IsTold k (emit_event system imsi timeout (record m { sessions = erase imsi m.sessions }))
        × IsTold k (
            emit_event system imsi graceful_shutdown
              (record m { sessions = erase imsi m.sessions }))
  unfolding progress session_exists
  ended-IsTold system imsi s m d h v =
      let erased : Manager = record m { sessions = erase imsi m.sessions } in
      ground (
        arith,
        h,
        v.listening,
        v.told,
        find-erase imsi k m.sessions d,
        emit_event-status system imsi timeout erased v.listening,
        emit_event-status system imsi graceful_shutdown erased v.listening,
      )

  open_session-IsTold :
      (now : Instant) (imsi : Text) (m : Manager)
      → IsTold k m
      → IsTold k (open_session now imsi m).0
  unfolding open_session
  open_session-IsTold now imsi m v = elim (Option-cases (find imsi m.sessions)) [
    | inl h ↦ rw (h, open_session) (opened-IsTold now imsi m h v)
    | inr (s, h) ↦
        rw (h, open_session) (touched-IsTold imsi s (record s { last_activity = now.steady }) m h v)
  ]

  update_session_activity-IsTold :
      (now : Instant) (imsi : Text) (m : Manager)
      → IsTold k m
      → IsTold k (update_session_activity now imsi m)
  unfolding update_session_activity
  update_session_activity-IsTold now imsi m v = elim (Option-cases (find imsi m.sessions)) [
    | inl h ↦ rw (h, update_session_activity) v
    | inr (s, h) ↦
        rw (h, update_session_activity)
          (touched-IsTold imsi s (record s { last_activity = now.steady }) m h v)
  ]

  reap_one-IsTold :
      (now : Instant) (imsi : Text) (m : Manager)
      → Inv m
      → IsTold k m
      → IsTold k (reap_one now imsi m)
  unfolding reap_one
  reap_one-IsTold now imsi m w v = elim (Option-cases (find imsi m.sessions)) [
    | inl h ↦ rw (h, reap_one) v
    | inr (s, h) ↦
        ground (arith, h, v, ended-IsTold now.system imsi s m (w.table.distinct imsi) h v)
  ]

  reap-IsTold :
      (now : Instant) (expired : List Text) (m : Manager)
      → Inv m
      → IsTold k m
      → IsTold k (reap now expired m)
  unfolding reap
  reap-IsTold now [] m w v = v
  reap-IsTold now (imsi ∷ rest) m w v =
      reap-IsTold now rest (reap_one (later now (length rest)) imsi m)
        (reap_one-Inv (later now (length rest)) imsi m w)
        (reap_one-IsTold (later now (length rest)) imsi m w v)

  remove_picked-IsTold :
      (system : ℕ) (imsi : Text) (m : Manager)
      → Inv m
      → IsTold k m
      → IsTold k (remove_picked system imsi m)
  unfolding remove_picked
  remove_picked-IsTold system imsi m w v = elim (Option-cases (find imsi m.sessions)) [
    | inl h ↦ rw (h, remove_picked) v
    | inr (s, h) ↦
        rw (h, remove_picked) (ended-IsTold system imsi s m (w.table.distinct imsi) h v).1
  ]

  -- A removal by hand of another subscriber's session, or of none.
  remove_session-IsTold :
      (imsi : Text) (m : Manager)
      → Inv m
      → count k (removed_by imsi m) ≡ 0
      → IsTold k m
      → IsTold k (remove_session imsi m).0
  unfolding remove_session removed_by session_exists count
  remove_session-IsTold imsi m w g v = elim (Option-cases (find imsi m.sessions)) [
    | inl h ↦ rw (h, remove_session) v
    | inr (s, h) ↦
        ground
          (arith, h, g, v.listening, v.told, find-erase imsi k m.sessions (w.table.distinct imsi))
  ]

  start-IsTold : (m n : Manager) → start_graceful_shutdown m ≡ returns n → IsTold k m → IsTold k n
  unfolding start_graceful_shutdown session_exists
  start-IsTold m n h v = ground (arith, h, v.listening, v.told)

  Section-IsTold :
      {m n : Manager} {gone : List Text}
      → Section m gone n
      → count k gone ≡ 0
      → Inv m
      → IsTold k m
      → IsTold k n
  unfolding destroy add_to_blacklist remove_from_blacklist pick session_exists
  Section-IsTold (checks now imsi m ok) g w v = check_blacklist-IsTold now imsi m v
  Section-IsTold (opens now imsi m ok) g w v = open_session-IsTold now imsi m v
  Section-IsTold (removes imsi m) g w v = remove_session-IsTold imsi m w g v
  Section-IsTold (bans imsi m) g w v = record { listening = v.listening; told = v.told }
  Section-IsTold (unbans imsi m) g w v = record { listening = v.listening; told = v.told }
  Section-IsTold (touches now imsi m) g w v = update_session_activity-IsTold now imsi m v
  Section-IsTold (reaps now expired m) g w v = reap-IsTold now expired m w v
  Section-IsTold (starts m h) g w v = start-IsTold m _ h v
  Section-IsTold (picks begin m) g w v = ground (arith, v.listening, v.told)
  Section-IsTold (drops system imsi m) g w v = remove_picked-IsTold system imsi m w v
  Section-IsTold (stops m) g w v = record { listening = v.listening; told = v.told }

  Run-IsTold :
      {s m : Manager} {gone : List Text}
      → Run s gone m
      → count k gone ≡ 0
      → Inv s
      → IsTold k s
      → IsTold k m
  Run-IsTold here g w v = v
  Run-IsTold (next {gone = first} {more = last} r st) g w v =
      let before : count k first ≡ 0 = omega (arith, g, count-append k first last) in
      let at_last : count k last ≡ 0 = omega (arith, g, count-append k first last) in
      Section-IsTold st at_last (Run-Inv r w) (Run-IsTold r before w v)

-- From the constructor on, with a callback and a blacklist without repetitions, whatever sections the threads run in
-- whatever order: the events about a subscriber of whom no session was removed by hand are REJECTED anywhere, and CREATED
-- and TIMEOUT or GRACEFUL_SHUTDOWN by turns, the last of which tells whether there is a session.
pub follow-session_exists :
    (limit rate : ℕ) (blacklist : List Text) {gone : List Text} {m : Manager} (k : Text)
    → ((j : Text) → count j blacklist ≤ 1)
    → Run (init limit rate blacklist true) gone m
    → count k gone ≡ 0
    → follow k (some false) (map entry_of m.delivered) ≡ some (session_exists k m)
unfolding init session_exists follow find
follow-session_exists limit rate blacklist k d r g =
    (Run-IsTold k r g (init-Inv limit rate blacklist true d)
      (record { listening = refl; told = refl })).told
