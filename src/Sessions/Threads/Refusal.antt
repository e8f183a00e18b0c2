-- ===== src/Sessions/Threads/Refusal.antt =====
-- src/session_manager.cpp: bans before and after the check of `create_session`.
use pgw.Base.{
  length, ℕ, ◌≡◌, ◌≢◌, refl, arith, true, false, inl, inr, List, [], ◌∷◌, none, some, Option-cases,
  Option, Text, All, All-set, All-get_elem?, get_elem?, find, member, find-insert, find-erase-none,
  member-set_insert, member-set_erase_other,
}
use pgw.Imsi.Valid.{IsValid}
use pgw.Sessions.State.{later, Manager, Instant, new_session, emit_event}
use pgw.Sessions.Requests.{
  check_blacklist, open_session, remove_session, add_to_blacklist, remove_from_blacklist,
  update_session_activity,
}
use pgw.Sessions.Cleanup.{reap_one, reap}
use pgw.Sessions.Shutdown.{start_graceful_shutdown, pick, remove_picked}
use pgw.Sessions.Spec.{Call, create, touch, exists, remove, ban, unban, check}
use pgw.Sessions.Refinement.{perform, is_imsi-IsValid}
use pgw.Sessions.Threads.{
  Thread, between, opening, begin_create, advance, System, resume, Action, turn, cleans, shuts,
  looks, drops, act, act_all,
}

module _ (k : Text) where
  -- The call does not lift the ban.
  abbrev pub Spares : Call → Type 0
  Spares (unban imsi) = imsi ≢ k
  Spares _ = Unit

  -- Nor does any call that the thread has left, and it is not about to open a session for the subscriber.
  abbrev pub Keeps : Thread → Type 0
  Keeps (between calls) = All Spares calls
  Keeps (opening now imsi rest) = (imsi ≢ k) × All Spares rest

  -- The subscriber is refused and has no session.
  abbrev pub IsShut : Manager → Type 0
  IsShut m = (member k m.blacklist ≡ true) × (find k m.sessions ≡ none)

  pub open_session-IsShut :
      (now : Instant) (imsi : Text) (m : Manager)
      → imsi ≢ k
      → IsShut m
      → IsShut (open_session now imsi m).0
  unfolding open_session emit_event
  open_session-IsShut now imsi m n h = elim (Option-cases (find imsi m.sessions)) [
    | inl e ↦ ground (arith, e, find-insert imsi k (new_session now imsi) m.sessions)
    | inr (s, e) ↦
        ground (arith, e, find-insert imsi k (record s { last_activity = now.steady }) m.sessions)
  ]

  update-IsShut :
      (now : Instant) (imsi : Text) (m : Manager)
      → IsShut m
      → IsShut (update_session_activity now imsi m)
  unfolding update_session_activity
  update-IsShut now imsi m h = elim (Option-cases (find imsi m.sessions)) [
    | inl e ↦ ground (arith, e)
    | inr (s, e) ↦
        ground (arith, e, find-insert imsi k (record s { last_activity = now.steady }) m.sessions)
  ]

  remove_session-IsShut : (imsi : Text) (m : Manager) → IsShut m → IsShut (remove_session imsi m).0
  unfolding remove_session
  remove_session-IsShut imsi m h = ground (arith, find-erase-none imsi k m.sessions)

  pub begin_create-Keeps :
      (now : Instant) (imsi : Text) (rest : List Call) (m : Manager)
      → All Spares rest
      → IsShut m
      → IsShut (begin_create now imsi rest m).0 × Keeps (begin_create now imsi rest m).1
  unfolding begin_create check_blacklist emit_event
  begin_create-Keeps now imsi rest m h v = ground arith

  advance-Keeps :
      (t : Thread) (m : Manager)
      → Keeps t
      → IsShut m
      → IsShut (advance t m).0 × Keeps (advance t m).1
  unfolding advance perform add_to_blacklist remove_from_blacklist
  advance-Keeps (between []) m h v = (v, h)
  advance-Keeps (between (create now imsi ∷ rest)) m h v = begin_create-Keeps now imsi rest m h.1 v
  advance-Keeps (between (touch now imsi ∷ rest)) m h v = (update-IsShut now imsi m v, h.1)
  advance-Keeps (between (exists imsi ∷ rest)) m h v = (v, h.1)
  advance-Keeps (between (remove imsi ∷ rest)) m h v = (remove_session-IsShut imsi m v, h.1)
  advance-Keeps (between (ban imsi ∷ rest)) m h v =
      ((ground (arith, member-set_insert imsi k m.blacklist), v.1), h.1)
  advance-Keeps (between (unban imsi ∷ rest)) m h v =
      ((member-set_erase_other imsi k m.blacklist h.0 v.0, v.1), h.1)
  advance-Keeps (between (check imsi ∷ rest)) m h v = (v, h.1)
  advance-Keeps (opening now imsi rest) m h v = (open_session-IsShut now imsi m h.0 v, h.1)

  reap-IsShut :
      (now : Instant) (expired : List Text) (m : Manager) → IsShut m → IsShut (reap now expired m)
  unfolding reap reap_one emit_event
  reap-IsShut now [] m h = h
  reap-IsShut now (imsi ∷ rest) m h =
      reap-IsShut now rest (reap_one (later now (length rest)) imsi m)
        (ground (arith, find-erase-none imsi k m.sessions))

  -- The subscriber is shut out, now and by the threads.
  pub record IsBarred (s : System) : Type 0 where
    pub shut : IsShut s.manager
    pub kept : All Keeps s.threads

  resume-IsBarred :
      (i : ℕ) (o : Option Thread) (s : System)
      → get_elem? s.threads i ≡ o
      → IsBarred s
      → IsBarred (resume i o s)
  resume-IsBarred i none s e v = v
  resume-IsBarred i (some t) s e v =
      let (shut, kept) =
        advance-Keeps t s.manager (All-get_elem? Keeps s.threads i t v.kept e) v.shut in
      record { shut = shut; kept = All-set Keeps s.threads i (advance t s.manager).1 v.kept kept }

  pub act-IsBarred : (a : Action) (s : System) → IsBarred s → IsBarred (act a s)
  unfolding act start_graceful_shutdown pick remove_picked emit_event
  act-IsBarred (turn i) s v = resume-IsBarred i (get_elem? s.threads i) s refl v
  act-IsBarred (cleans now expired) s v = record {
    shut = reap-IsShut now expired s.manager v.shut;
    kept = v.kept;
  }
  act-IsBarred shuts s v = record { shut = ground (arith, v.shut); kept = v.kept }
  act-IsBarred (looks begin) s v = record { shut = ground (arith, v.shut); kept = v.kept }
  act-IsBarred (drops system imsi) s v = record {
    shut = ground (arith, v.shut, find-erase-none imsi k s.manager.sessions);
    kept = v.kept;
  }

  -- If a subscriber is refused and has no session, no thread is about to open one for it, and no thread ever lifts
  -- the ban, then in every schedule of the threads it stays refused and gets no session.
  pub act_all-IsBarred :
      (actions : List Action) (s : System) → IsBarred s → IsBarred (act_all actions s)
  unfolding act_all
  act_all-IsBarred [] s v = v
  act_all-IsBarred (a ∷ rest) s v = act_all-IsBarred rest (act a s) (act-IsBarred a s v)

begin_create-admits :
    (now : Instant) (imsi : Text) (rest : List Call) (m : Manager)
    → IsValid imsi
    → member imsi m.blacklist ≡ false
    → begin_create now imsi rest m ≡ (m, opening now imsi rest)
unfolding begin_create check_blacklist
begin_create-admits now imsi rest m v free = rw (is_imsi-IsValid imsi v, free)

-- A thread that creates a session and one that bans the subscriber.
abbrev pub racing : Instant → Text → Manager → System
racing now imsi m = record {
  manager = m;
  threads = between (create now imsi ∷ []) ∷ between (ban imsi ∷ []) ∷ [];
}

-- For any valid subscriber that is not refused and has no session, the ban can come between the check and the
-- opening: when both threads are done, the subscriber is refused and has a new session.
pub act_all-racing :
    (now : Instant) (imsi : Text) (m : Manager)
    → IsValid imsi
    → member imsi m.blacklist ≡ false
    → find imsi m.sessions ≡ none
    → let s = act_all (turn 0 ∷ turn 1 ∷ turn 0 ∷ []) (racing now imsi m) in
      (s.threads ≡ between [] ∷ between [] ∷ [])
      × (member imsi s.manager.blacklist ≡ true)
      × (find imsi s.manager.sessions ≡ some (new_session now imsi))
unfolding act_all act advance perform add_to_blacklist open_session emit_event
act_all-racing now imsi m v free absent =
    rw (begin_create-admits now imsi [] m v free, advance)
      (
        refl,
        ground (arith, absent, member-set_insert imsi imsi m.blacklist),
        ground (arith, absent, find-insert imsi imsi (new_session now imsi) m.sessions),
      )
