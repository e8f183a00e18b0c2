-- ===== src/Sessions/Invariant.antt =====
-- src/session_manager.cpp: what holds of a SessionManager whatever its threads do, and when.
use pgw.Base.{
  length, ℕ, ◌≤◌, ◌≡◌, refl, Bool, List, [], ◌∷◌, some, Text, arith, find, insert, erase, keys,
  count, IsDistinct, returns, Option-cases, inl, inr, find-insert, find-erase, count-keys-insert,
  count-keys-erase, keys-insert_present, find-none_iff, count-set_insert, count-set_erase-le,
  erase_absent,
}
use pgw.Imsi.Valid.{IsValid}
use pgw.Sessions.State.{
  later, Manager, Session, Instant, new_session, emit_event, SessionAction, destroy, init,
}
use pgw.Sessions.Requests.{
  check_blacklist, open_session, remove_session, add_to_blacklist, remove_from_blacklist,
  update_session_activity,
}
use pgw.Sessions.Cleanup.{reap_one, reap}
use pgw.Sessions.Shutdown.{Begin, start_graceful_shutdown, pick, remove_picked}
use pgw.Sessions.Interleaving.{
  Section, checks, opens, removes, bans, unbans, touches, reaps, starts, picks, drops, stops, Run,
  here, next,
}

-- A session stands under its own IMSI, a valid one.
abbrev pub IsNamed : Text → Session → Type 0
IsNamed k s = (s.imsi ≡ k) × IsValid k

-- One session at most for a subscriber, each under its own valid IMSI.
pub record IsTable (t : List (Text × Session)) : Type 0 where
  pub distinct : (k : Text) → count k (keys t) ≤ 1
  pub named : (k : Text) (s : Session) → find k t ≡ some s → IsNamed k s

-- The sessions are such a table, and the blacklist is a set.
pub record Inv (m : Manager) : Type 0 where
  pub table : IsTable m.sessions
  pub banned : (k : Text) → count k m.blacklist ≤ 1

module _ (t : List (Text × Session)) (v : IsTable t) (imsi : Text) where
  count-keys-insert-le : (s : Session) (k : Text) → count k (keys (insert imsi s t)) ≤ 1
  count-keys-insert-le s k = elim (Option-cases (find imsi t)) [
    | inl h ↦
        ground (arith, count-keys-insert imsi k s t h, (find-none_iff imsi t).0 h, v.distinct k)
    | inr (w, h) ↦ rw (keys-insert_present imsi s w t h) (v.distinct k)
  ]

  IsNamed-insert :
      (s : Session)
      → IsNamed imsi s
      → (k : Text) (u : Session) → find k (insert imsi s t) ≡ some u
      → IsNamed k u
  IsNamed-insert s n k u h = ground (arith, find-insert imsi k s t, v.named k u)

  pub insert-IsTable : (s : Session) → IsNamed imsi s → IsTable (insert imsi s t)
  insert-IsTable s n = record { distinct = count-keys-insert-le s; named = IsNamed-insert s n }

  count-keys-erase-le : (k : Text) → count k (keys (erase imsi t)) ≤ 1
  count-keys-erase-le k = elim (Option-cases (find imsi t)) [
    | inl h ↦ rw (erase_absent imsi t h) (v.distinct k)
    | inr (w, h) ↦ omega (arith, count-keys-erase imsi k t w h, v.distinct k)
  ]

  IsNamed-erase : (k : Text) (u : Session) → find k (erase imsi t) ≡ some u → IsNamed k u
  IsNamed-erase k u h = ground (arith, find-erase imsi k t (v.distinct imsi), v.named k u)

  pub erase-IsTable : IsTable (erase imsi t)
  erase-IsTable = record { distinct = count-keys-erase-le; named = IsNamed-erase }

-- What an event does not touch.
emit_event-sessions :
    (system : ℕ) (imsi : Text) (a : SessionAction) (m : Manager)
    → ((emit_event system imsi a m).sessions ≡ m.sessions)
      × ((emit_event system imsi a m).blacklist ≡ m.blacklist)
unfolding emit_event
emit_event-sessions system imsi a m = ground arith

pub emit_event-Inv :
    (system : ℕ) (imsi : Text) (a : SessionAction) (m : Manager)
    → Inv m
    → Inv (emit_event system imsi a m)
emit_event-Inv system imsi a m v =
    let (e, f) = emit_event-sessions system imsi a m in
    record { table = rw e v.table; banned = λ k. rw f (v.banned k) }

check_blacklist-Inv :
    (now : Instant) (imsi : Text) (m : Manager) → Inv m → Inv (check_blacklist now imsi m).0
unfolding check_blacklist
check_blacklist-Inv now imsi m v =
    ground (arith, emit_event-Inv now.system imsi SessionAction.rejected m v)

open_session-Inv :
    (now : Instant) (imsi : Text) (m : Manager)
    → IsValid imsi
    → Inv m
    → Inv (open_session now imsi m).0
unfolding open_session new_session
open_session-Inv now imsi m ok v = elim (Option-cases (find imsi m.sessions)) [
  | inl h ↦
      rw (h, open_session)
        (emit_event-Inv now.system imsi SessionAction.created _ (record {
          table = insert-IsTable m.sessions v.table imsi (new_session now imsi) (refl, ok);
          banned = v.banned;
        }))
  | inr (s, h) ↦
      rw (h, open_session)
        (record {
          table = insert-IsTable m.sessions v.table imsi _ (v.table.named imsi s h);
          banned = v.banned;
        })
]

erase-Inv :
    (m : Manager) (imsi : Text) → Inv m → Inv (record m { sessions = erase imsi m.sessions })
erase-Inv m imsi v = record { table = erase-IsTable m.sessions v.table imsi; banned = v.banned }

remove_session-Inv : (imsi : Text) (m : Manager) → Inv m → Inv (remove_session imsi m).0
unfolding remove_session
remove_session-Inv imsi m v = ground (arith, erase-Inv m imsi v)

blacklist-Inv :
    (imsi : Text) (m : Manager)
    → Inv m
    → Inv (add_to_blacklist imsi m) × Inv (remove_from_blacklist imsi m)
unfolding add_to_blacklist remove_from_blacklist
blacklist-Inv imsi m v = (
  record { table = v.table; banned = λ k. count-set_insert imsi k m.blacklist v.banned },
  record {
    table = v.table;
    banned = λ k. omega (arith, count-set_erase-le imsi k m.blacklist, v.banned k);
  },
)

update_session_activity-Inv :
    (now : Instant) (imsi : Text) (m : Manager) → Inv m → Inv (update_session_activity now imsi m)
unfolding update_session_activity
update_session_activity-Inv now imsi m v = elim (Option-cases (find imsi m.sessions)) [
  | inl h ↦ rw (h, update_session_activity) v
  | inr (s, h) ↦
      rw (h, update_session_activity)
        (record {
          table = insert-IsTable m.sessions v.table imsi _ (v.table.named imsi s h);
          banned = v.banned;
        })
]

pub reap_one-Inv : (now : Instant) (imsi : Text) (m : Manager) → Inv m → Inv (reap_one now imsi m)
unfolding reap_one
reap_one-Inv now imsi m v =
    ground (arith, emit_event-Inv now.system imsi SessionAction.timeout _ (erase-Inv m imsi v))

pub reap-Inv :
    (now : Instant) (expired : List Text) (m : Manager) → Inv m → Inv (reap now expired m)
unfolding reap
reap-Inv now [] m v = v
reap-Inv now (imsi ∷ expired) m v =
    reap-Inv now expired (reap_one (later now (length expired)) imsi m)
      (reap_one-Inv (later now (length expired)) imsi m v)

start-same :
    (m n : Manager)
    → start_graceful_shutdown m ≡ returns n
    → (n.sessions ≡ m.sessions) × (n.blacklist ≡ m.blacklist)
unfolding start_graceful_shutdown
start-same m n h = ground arith

pub start-Inv : (m n : Manager) → start_graceful_shutdown m ≡ returns n → Inv m → Inv n
start-Inv m n h v =
    let (e, f) = start-same m n h in
    record { table = rw e v.table; banned = λ k. rw f (v.banned k) }

pub pick-Inv : (begin : Begin) (m : Manager) → Inv m → Inv (pick begin m).0
unfolding pick
pick-Inv begin m v = ground arith

pub remove_picked-Inv :
    (system : ℕ) (imsi : Text) (m : Manager) → Inv m → Inv (remove_picked system imsi m)
unfolding remove_picked
remove_picked-Inv system imsi m v =
    ground
      (arith, emit_event-Inv system imsi SessionAction.graceful_shutdown _ (erase-Inv m imsi v))

pub Section-Inv : {m n : Manager} {gone : List Text} → Section m gone n → Inv m → Inv n
unfolding destroy
Section-Inv (checks now imsi m ok) v = check_blacklist-Inv now imsi m v
Section-Inv (opens now imsi m ok) v = open_session-Inv now imsi m ok v
Section-Inv (removes imsi m) v = remove_session-Inv imsi m v
Section-Inv (bans imsi m) v = (blacklist-Inv imsi m v).0
Section-Inv (unbans imsi m) v = (blacklist-Inv imsi m v).1
Section-Inv (touches now imsi m) v = update_session_activity-Inv now imsi m v
Section-Inv (reaps now expired m) v = reap-Inv now expired m v
Section-Inv (starts m h) v = start-Inv m _ h v
Section-Inv (picks begin m) v = pick-Inv begin m v
Section-Inv (drops system imsi m) v = remove_picked-Inv system imsi m v
Section-Inv (stops m) v = record { table = v.table; banned = v.banned }

-- However the sections of the threads interleave, the invariant holds after them if it did before.
pub Run-Inv : {s m : Manager} {gone : List Text} → Run s gone m → Inv s → Inv m
Run-Inv here v = v
Run-Inv (next r st) v = Section-Inv st (Run-Inv r v)

-- The constructor establishes it, if the blacklist that it is given is a set.
pub init-Inv :
    (limit rate : ℕ) (blacklist : List Text) (callback : Bool)
    → IsDistinct blacklist
    → Inv (init limit rate blacklist callback)
unfolding init count find
init-Inv limit rate blacklist callback d = record {
  table = record { distinct = λ k. omega arith; named = λ k s h. cc };
  banned = d;
}
