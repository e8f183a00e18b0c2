-- ===== src/Sessions/Accounting.antt =====
-- src/session_manager.cpp: the events of a SessionManager balance its sessions. Every CREATED event is
-- matched by one TIMEOUT or GRACEFUL_SHUTDOWN event, one removal by hand, or a session that is open.
use pgw.Base.{
  length, ℕ, ◌+◌, ◌≡◌, refl, true, List, [], ◌∷◌, ◌++◌, none, some, Text, arith, find, insert,
  erase, keys, count, returns, Option-cases, inl, inr, ◌⊎◌, count-keys-insert, count-keys-erase,
  keys-insert_present, append-nil, ite, Text_discrete, count-append,
}
use pgw.Sessions.State.{
  later, Manager, Session, SessionEvent, SessionAction, Instant, new_session, emit_event, destroy,
  init, count_events, SessionAction_discrete, created, rejected, timeout, graceful_shutdown,
}
use pgw.Sessions.Requests.{
  check_blacklist, open_session, remove_session, add_to_blacklist, remove_from_blacklist,
  update_session_activity,
}
use pgw.Sessions.Cleanup.{reap_one, reap}
use pgw.Sessions.Shutdown.{start_graceful_shutdown, pick, remove_picked}
use pgw.Sessions.Interleaving.{
  Section, checks, opens, removes, bans, unbans, touches, reaps, starts, picks, drops, stops, Run,
  here, next, removed_by,
}

count_events-snoc :
    (k : Text) (a : SessionAction) (es : List SessionEvent) (e : SessionEvent)
    → count_events k a (es ++ e ∷ [])
      ≡ count_events k a es
        + ite (Text_discrete e.imsi k) (ite (SessionAction_discrete e.action a) 1 0) 0
unfolding count_events
count_events-snoc k a [] e = omega arith
count_events-snoc k a (d ∷ es) e = omega (arith, count_events-snoc k a es e)

-- How many sessions a subscriber has open.
abbrev pub open_count : Text → Manager → ℕ
open_count k m = count k (keys m.sessions)

module _ (k : Text) where
  -- The balance with a debt of removals by hand.
  pub record Balanced (gone : List Text) (m : Manager) : Type 0 where
    pub listening : m.has_callback ≡ true
    pub balance :
        count_events k created m.delivered
        ≡ count_events k timeout m.delivered
          + count_events k graceful_shutdown m.delivered
          + count k gone
          + open_count k m

  -- What an event adds to each of the counts.
  pub emit_event-counts :
      (system : ℕ) (imsi : Text) (a b : SessionAction) (m : Manager)
      → m.has_callback ≡ true
      → ((emit_event system imsi a m).has_callback ≡ true)
        × ((emit_event system imsi a m).sessions ≡ m.sessions)
        × (count_events k b (emit_event system imsi a m).delivered
            ≡ count_events k b m.delivered
              + ite (Text_discrete imsi k) (ite (SessionAction_discrete a b) 1 0) 0)
  unfolding emit_event
  emit_event-counts system imsi a b m h = ground (
    arith,
    count_events-snoc k b m.delivered (record { imsi = imsi; action = a; timestamp = system }),
  )

  check_blacklist-Balanced :
      (now : Instant) (imsi : Text) (gone : List Text) (m : Manager)
      → Balanced gone m
      → Balanced gone (check_blacklist now imsi m).0
  unfolding check_blacklist SessionAction_discrete
  check_blacklist-Balanced now imsi gone m v = ground (
    arith,
    emit_event-counts now.system imsi rejected created m v.listening,
    emit_event-counts now.system imsi rejected timeout m v.listening,
    emit_event-counts now.system imsi rejected graceful_shutdown m v.listening,
  )

  opened-Balanced :
      (now : Instant) (imsi : Text) (gone : List Text) (m : Manager)
      → find imsi m.sessions ≡ none
      → Balanced gone m
      → Balanced gone (
          emit_event now.system imsi created
            (record m { sessions = insert imsi (new_session now imsi) m.sessions }))
  unfolding SessionAction_discrete
  opened-Balanced now imsi gone m h v =
      let n : Manager = record m { sessions = insert imsi (new_session now imsi) m.sessions } in
      ground (
        arith,
        count-keys-insert imsi k (new_session now imsi) m.sessions h,
        emit_event-counts now.system imsi created created n v.listening,
        emit_event-counts now.system imsi created timeout n v.listening,
        emit_event-counts now.system imsi created graceful_shutdown n v.listening,
      )

  rewritten-Balanced :
      (imsi : Text) (s t : Session) (gone : List Text) (m : Manager)
      → find imsi m.sessions ≡ some s
      → Balanced gone m
      → Balanced gone (record m { sessions = insert imsi t m.sessions })
  rewritten-Balanced imsi s t gone m h v = record {
    listening = v.listening;
    balance = rw (keys-insert_present imsi t s m.sessions h) v.balance;
  }

  open_session-Balanced :
      (now : Instant) (imsi : Text) (gone : List Text) (m : Manager)
      → Balanced gone m
      → Balanced gone (open_session now imsi m).0
  unfolding open_session
  open_session-Balanced now imsi gone m v = elim (Option-cases (find imsi m.sessions)) [
    | inl h ↦ rw (h, open_session) (opened-Balanced now imsi gone m h v)
    | inr (s, h) ↦ rw (h, open_session) (rewritten-Balanced imsi s _ gone m h v)
  ]

  update_session_activity-Balanced :
      (now : Instant) (imsi : Text) (gone : List Text) (m : Manager)
      → Balanced gone m
      → Balanced gone (update_session_activity now imsi m)
  unfolding update_session_activity
  update_session_activity-Balanced now imsi gone m v = elim (Option-cases (find imsi m.sessions)) [
    | inl h ↦ rw (h, update_session_activity) v
    | inr (s, h) ↦ rw (h, update_session_activity) (rewritten-Balanced imsi s _ gone m h v)
  ]

  -- A session that ends with its event.
  closed-Balanced :
      (system : ℕ) (imsi : Text) (a : SessionAction) (s : Session) (gone : List Text) (m : Manager)
      → (a ≡ timeout) ⊎ (a ≡ graceful_shutdown)
      → find imsi m.sessions ≡ some s
      → Balanced gone m
      → Balanced gone (emit_event system imsi a (record m { sessions = erase imsi m.sessions }))
  unfolding SessionAction_discrete
  closed-Balanced system imsi a s gone m ends h v =
      let n : Manager = record m { sessions = erase imsi m.sessions } in
      ground (
        arith,
        count-keys-erase imsi k m.sessions s h,
        emit_event-counts system imsi a created n v.listening,
        emit_event-counts system imsi a timeout n v.listening,
        emit_event-counts system imsi a graceful_shutdown n v.listening,
      )

  reap_one-Balanced :
      (now : Instant) (imsi : Text) (gone : List Text) (m : Manager)
      → Balanced gone m
      → Balanced gone (reap_one now imsi m)
  unfolding reap_one
  reap_one-Balanced now imsi gone m v = elim (Option-cases (find imsi m.sessions)) [
    | inl h ↦ rw (h, reap_one) v
    | inr (s, h) ↦
        rw (h, reap_one)
          (ground (arith, closed-Balanced now.system imsi timeout s gone m (inl refl) h v))
  ]

  reap-Balanced :
      (now : Instant) (expired : List Text) (gone : List Text) (m : Manager)
      → Balanced gone m
      → Balanced gone (reap now expired m)
  unfolding reap
  reap-Balanced now [] gone m v = v
  reap-Balanced now (imsi ∷ expired) gone m v =
      reap-Balanced now expired gone (reap_one (later now (length expired)) imsi m)
        (reap_one-Balanced (later now (length expired)) imsi gone m v)

  remove_picked-Balanced :
      (system : ℕ) (imsi : Text) (gone : List Text) (m : Manager)
      → Balanced gone m
      → Balanced gone (remove_picked system imsi m)
  unfolding remove_picked
  remove_picked-Balanced system imsi gone m v = elim (Option-cases (find imsi m.sessions)) [
    | inl h ↦ rw (h, remove_picked) v
    | inr (s, h) ↦
        rw (h, remove_picked)
          (closed-Balanced system imsi graceful_shutdown s gone m (inr refl) h v)
  ]

  remove_session-Balanced :
      (imsi : Text) (gone : List Text) (m : Manager)
      → Balanced gone m
      → Balanced (gone ++ removed_by imsi m) (remove_session imsi m).0
  unfolding remove_session removed_by count
  remove_session-Balanced imsi gone m v = elim (Option-cases (find imsi m.sessions)) [
    | inl h ↦ rw (h, remove_session, removed_by) (rw append-nil v)
    | inr (s, h) ↦
        rw (h, remove_session, removed_by)
          (ground (arith, count-append k gone (imsi ∷ []), count-keys-erase imsi k m.sessions s h))
  ]

  start-Balanced :
      (gone : List Text) (m n : Manager)
      → start_graceful_shutdown m ≡ returns n
      → Balanced gone m
      → Balanced gone n
  unfolding start_graceful_shutdown
  start-Balanced gone m n h v = ground arith

  Section-Balanced :
      {m n : Manager} {more : List Text} (gone : List Text)
      → Section m more n
      → Balanced gone m
      → Balanced (gone ++ more) n
  unfolding destroy add_to_blacklist remove_from_blacklist pick
  Section-Balanced gone (checks now imsi m ok) v =
      rw append-nil (check_blacklist-Balanced now imsi gone m v)
  Section-Balanced gone (opens now imsi m ok) v =
      rw append-nil (open_session-Balanced now imsi gone m v)
  Section-Balanced gone (removes imsi m) v = remove_session-Balanced imsi gone m v
  Section-Balanced gone (bans imsi m) v = rw append-nil (ground arith)
  Section-Balanced gone (unbans imsi m) v = rw append-nil (ground arith)
  Section-Balanced gone (touches now imsi m) v =
      rw append-nil (update_session_activity-Balanced now imsi gone m v)
  Section-Balanced gone (reaps now expired m) v = rw append-nil (reap-Balanced now expired gone m v)
  Section-Balanced gone (starts m h) v = rw append-nil (start-Balanced gone m _ h v)
  Section-Balanced gone (picks begin m) v = rw append-nil (ground arith)
  Section-Balanced gone (drops system imsi m) v =
      rw append-nil (remove_picked-Balanced system imsi gone m v)
  Section-Balanced gone (stops m) v = rw append-nil (ground arith)

  Run-Balanced : {s m : Manager} {gone : List Text} → Run s gone m → Balanced [] s → Balanced gone m
  Run-Balanced here v = v
  Run-Balanced (next {gone = g} r st) v = Section-Balanced g st (Run-Balanced r v)

  init-Balanced :
      (limit rate : ℕ) (blacklist : List Text) → Balanced [] (init limit rate blacklist true)
  unfolding init count count_events
  init-Balanced limit rate blacklist = record { listening = refl; balance = omega arith }

-- From the constructor on, with a callback, whatever sections the threads run in whatever order: the
-- CREATED events of a subscriber are as many as its TIMEOUT events, its GRACEFUL_SHUTDOWN events, its
-- removals by hand and its open sessions together.
pub created-eq-ended_or_open :
    (limit rate : ℕ) (blacklist : List Text) {gone : List Text} {m : Manager}
    → Run (init limit rate blacklist true) gone m
    → (k : Text)
    → count_events k created m.delivered
      ≡ count_events k timeout m.delivered
        + count_events k graceful_shutdown m.delivered
        + count k gone
        + open_count k m
created-eq-ended_or_open limit rate blacklist r k =
    (Run-Balanced k r (init-Balanced k limit rate blacklist)).balance
