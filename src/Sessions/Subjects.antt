-- ===== src/Sessions/Subjects.antt =====
-- src/session_manager.cpp: whom the events of a SessionManager are about.
use pgw.Base.{
  length, ℕ, arith, List, [], ◌∷◌, Option-cases, inl, inr, Text, All, All-append, find, erase,
}
use pgw.Imsi.Valid.{IsValid}
use pgw.Sessions.State.{later, Manager, SessionEvent, SessionAction, Instant, emit_event, destroy}
use pgw.Sessions.Requests.{
  check_blacklist, open_session, remove_session, add_to_blacklist, remove_from_blacklist,
  update_session_activity,
}
use pgw.Sessions.Cleanup.{reap_one, reap}
use pgw.Sessions.Shutdown.{start_graceful_shutdown, pick, remove_picked}
use pgw.Sessions.Interleaving.{
  Section, checks, opens, removes, bans, unbans, touches, reaps, starts, picks, drops, stops, Run,
  here, next,
}
use pgw.Sessions.Invariant.{Inv, Run-Inv, reap_one-Inv}

abbrev pub HasSubject : SessionEvent → Type 0
HasSubject e = IsValid e.imsi

abbrev pub HaveSubjects : Manager → Type 0
HaveSubjects m = All HasSubject m.delivered

emit_event-HaveSubjects :
    (system : ℕ) (imsi : Text) (a : SessionAction) (m : Manager)
    → IsValid imsi
    → HaveSubjects m
    → HaveSubjects (emit_event system imsi a m)
unfolding emit_event
emit_event-HaveSubjects system imsi a m ok v = ground (
  arith,
  v,
  All-append HasSubject m.delivered (record { imsi = imsi; action = a; timestamp = system } ∷ []) v
      (ok, tt),
)

check_blacklist-HaveSubjects :
    (now : Instant) (imsi : Text) (m : Manager)
    → IsValid imsi
    → HaveSubjects m
    → HaveSubjects (check_blacklist now imsi m).0
unfolding check_blacklist
check_blacklist-HaveSubjects now imsi m ok v =
    ground (arith, emit_event-HaveSubjects now.system imsi SessionAction.rejected m ok v)

open_session-HaveSubjects :
    (now : Instant) (imsi : Text) (m : Manager)
    → IsValid imsi
    → HaveSubjects m
    → HaveSubjects (open_session now imsi m).0
unfolding open_session
open_session-HaveSubjects now imsi m ok v = elim (Option-cases (find imsi m.sessions)) [
  | inl h ↦
      rw (h, open_session) (emit_event-HaveSubjects now.system imsi SessionAction.created _ ok v)
  | inr (s, h) ↦ rw (h, open_session) v
]

-- The entry in the table is under a valid key.
reap_one-HaveSubjects :
    (now : Instant) (imsi : Text) (m : Manager)
    → Inv m
    → HaveSubjects m
    → HaveSubjects (reap_one now imsi m)
unfolding reap_one
reap_one-HaveSubjects now imsi m w v = elim (Option-cases (find imsi m.sessions)) [
  | inl h ↦ rw (h, reap_one) v
  | inr (s, h) ↦ ground (
    arith,
    h,
    v,
    emit_event-HaveSubjects now.system imsi SessionAction.timeout
        (record m { sessions = erase imsi m.sessions }) (w.table.named imsi s h).1 v,
  )
]

reap-HaveSubjects :
    (now : Instant) (expired : List Text) (m : Manager)
    → Inv m
    → HaveSubjects m
    → HaveSubjects (reap now expired m)
unfolding reap
reap-HaveSubjects now [] m w v = v
reap-HaveSubjects now (imsi ∷ rest) m w v =
    reap-HaveSubjects now rest (reap_one (later now (length rest)) imsi m)
      (reap_one-Inv (later now (length rest)) imsi m w)
      (reap_one-HaveSubjects (later now (length rest)) imsi m w v)

remove_picked-HaveSubjects :
    (system : ℕ) (imsi : Text) (m : Manager)
    → Inv m
    → HaveSubjects m
    → HaveSubjects (remove_picked system imsi m)
unfolding remove_picked
remove_picked-HaveSubjects system imsi m w v = elim (Option-cases (find imsi m.sessions)) [
  | inl h ↦ rw (h, remove_picked) v
  | inr (s, h) ↦
      rw (h, remove_picked)
        (emit_event-HaveSubjects system imsi SessionAction.graceful_shutdown _
          (w.table.named imsi s h).1 v)
]

Section-HaveSubjects :
    {m n : Manager} {gone : List Text} → Section m gone n → Inv m → HaveSubjects m → HaveSubjects n
unfolding destroy add_to_blacklist remove_from_blacklist pick remove_session update_session_activity
    start_graceful_shutdown
Section-HaveSubjects (checks now imsi m ok) w v = check_blacklist-HaveSubjects now imsi m ok v
Section-HaveSubjects (opens now imsi m ok) w v = open_session-HaveSubjects now imsi m ok v
Section-HaveSubjects (removes imsi m) w v = ground (arith, v)
Section-HaveSubjects (bans imsi m) w v = v
Section-HaveSubjects (unbans imsi m) w v = v
Section-HaveSubjects (touches now imsi m) w v = ground (arith, v)
Section-HaveSubjects (reaps now expired m) w v = reap-HaveSubjects now expired m w v
Section-HaveSubjects (starts m h) w v = ground (arith, h, v)
Section-HaveSubjects (picks begin m) w v = ground (arith, v)
Section-HaveSubjects (drops system imsi m) w v = remove_picked-HaveSubjects system imsi m w v
Section-HaveSubjects (stops m) w v = v

-- In every history that starts with a table of valid keys and events about valid subscribers, every event is about a valid
-- subscriber.
pub Run-HaveSubjects :
    {s m : Manager} {gone : List Text} → Run s gone m → Inv s → HaveSubjects s → HaveSubjects m
Run-HaveSubjects here w v = v
Run-HaveSubjects (next r st) w v = Section-HaveSubjects st (Run-Inv r w) (Run-HaveSubjects r w v)
