-- ===== src/Sessions/Rounds/Sizes.antt =====
-- How sections of other threads change the number of sessions, and whether a key is there.
use pgw.Base.{
  ℕ, ◌+◌, ◌≤◌, ◌≡◌, refl, arith, List, [], ◌∷◌, none, some, Text, length, Option-cases, inl, inr,
  find, insert, erase, overwrite, length-erase, find-insert, find-erase,
}
use pgw.Imsi.Valid.{IsValid}
use pgw.Sessions.State.{
  later, Manager, Session, SessionAction, Instant, new_session, emit_event, destroy,
}
use pgw.Sessions.Requests.{
  check_blacklist, open_session, remove_session, add_to_blacklist, remove_from_blacklist,
  update_session_activity,
}
use pgw.Sessions.Cleanup.{reap_one, reap}
use pgw.Sessions.Shutdown.{start_graceful_shutdown, pick, remove_picked}
use pgw.Sessions.Interleaving.{
  Section, checks, opens, removes, bans, unbans, touches, reaps, starts, picks, drops, stops,
}
use pgw.Sessions.Invariant.{Inv, Section-Inv, reap_one-Inv}
use pgw.Sessions.Rounds.{opened, Others, quiet, and_then}

-- The sessions of a table, and one more if the key is not there.
module _ (k : Text) where
  abbrev pub with_key : List (Text × Session) → ℕ
  with_key t = length t + (elim (find k t) [ none ↦ 1 | some s ↦ 0 ])

  with_key-insert_new :
      (imsi : Text) (s : Session) (t : List (Text × Session))
      → find imsi t ≡ none
      → (length (insert imsi s t) ≡ length t + 1) × (with_key (insert imsi s t) ≤ with_key t + 1)
  unfolding insert
  with_key-insert_new imsi s t h = ground (arith, h, find-insert imsi k s t)

length-overwrite :
    (imsi : Text) (s : Session) (t : List (Text × Session)) → length (overwrite imsi s t) ≡ length t
unfolding overwrite
length-overwrite imsi s [] = refl
length-overwrite imsi s ((j, u) ∷ t) = ground (arith, length-overwrite imsi s t)

-- What a section that opens `c` sessions makes of the sizes.
abbrev pub Grows : Text → ℕ → Manager → Manager → Type 0
Grows k c m n =
    (length n.sessions ≤ length m.sessions + c)
    × (with_key k n.sessions ≤ with_key k m.sessions + c)

pub emit_event-sessions :
    (system : ℕ) (imsi : Text) (a : SessionAction) (m : Manager)
    → (emit_event system imsi a m).sessions ≡ m.sessions
unfolding emit_event
emit_event-sessions system imsi a m = ground arith

module _ (k : Text) where
  open_session-Grows :
      (now : Instant) (imsi : Text) (ok : IsValid imsi) (m : Manager)
      → Grows k (opened (opens now imsi m ok)) m (open_session now imsi m).0
  unfolding open_session insert
  open_session-Grows now imsi ok m = elim (Option-cases (find imsi m.sessions)) [
    | inl h ↦ ground (
      arith,
      h,
      with_key-insert_new k imsi (new_session now imsi) m.sessions h,
      emit_event-sessions now.system imsi SessionAction.created
          (record m { sessions = insert imsi (new_session now imsi) m.sessions }),
    )
    | inr (s, h) ↦ ground (
      arith,
      h,
      length-overwrite imsi (record s { last_activity = now.steady }) m.sessions,
      find-insert imsi k (record s { last_activity = now.steady }) m.sessions,
    )
  ]

  update_session_activity-Grows :
      (now : Instant) (imsi : Text) (m : Manager) → Grows k 0 m (update_session_activity now imsi m)
  unfolding update_session_activity insert
  update_session_activity-Grows now imsi m = elim (Option-cases (find imsi m.sessions)) [
    | inl h ↦ ground (arith, h)
    | inr (s, h) ↦ ground (
      arith,
      h,
      length-overwrite imsi (record s { last_activity = now.steady }) m.sessions,
      find-insert imsi k (record s { last_activity = now.steady }) m.sessions,
    )
  ]

  erase-Grows :
      (imsi : Text) (s : Session) (m : Manager)
      → Inv m
      → find imsi m.sessions ≡ some s
      → Grows k 0 m (record m { sessions = erase imsi m.sessions })
  erase-Grows imsi s m w h = ground (
    arith,
    h,
    length-erase imsi m.sessions s h,
    find-erase imsi k m.sessions (w.table.distinct imsi),
  )

  reap_one-Grows :
      (now : Instant) (imsi : Text) (m : Manager) → Inv m → Grows k 0 m (reap_one now imsi m)
  unfolding reap_one
  reap_one-Grows now imsi m w = elim (Option-cases (find imsi m.sessions)) [
    | inl h ↦ ground (arith, h)
    | inr (s, h) ↦ ground (
      arith,
      h,
      erase-Grows imsi s m w h,
      emit_event-sessions now.system imsi SessionAction.timeout
          (record m { sessions = erase imsi m.sessions }),
    )
  ]

  reap-Grows :
      (now : Instant) (expired : List Text) (m : Manager) → Inv m → Grows k 0 m (reap now expired m)
  unfolding reap
  reap-Grows now [] m w = (omega arith, omega arith)
  reap-Grows now (imsi ∷ rest) m w =
      let (l, p) = reap_one-Grows (later now (length rest)) imsi m w in
      let (q, r) =
        reap-Grows now rest (reap_one (later now (length rest)) imsi m)
          (reap_one-Inv (later now (length rest)) imsi m w) in
      (omega (arith, l, q), omega (arith, p, r))

  remove_picked-Grows :
      (system : ℕ) (imsi : Text) (m : Manager) → Inv m → Grows k 0 m (remove_picked system imsi m)
  unfolding remove_picked
  remove_picked-Grows system imsi m w = elim (Option-cases (find imsi m.sessions)) [
    | inl h ↦ ground (arith, h)
    | inr (s, h) ↦ ground (
      arith,
      h,
      erase-Grows imsi s m w h,
      emit_event-sessions system imsi SessionAction.graceful_shutdown
          (record m { sessions = erase imsi m.sessions }),
    )
  ]

  remove_session-Grows : (imsi : Text) (m : Manager) → Inv m → Grows k 0 m (remove_session imsi m).0
  unfolding remove_session
  remove_session-Grows imsi m w = elim (Option-cases (find imsi m.sessions)) [
    | inl h ↦ ground (arith, h)
    | inr (s, h) ↦ ground (arith, h, erase-Grows imsi s m w h)
  ]

  Section-Grows :
      {m n : Manager} {gone : List Text} (section : Section m gone n)
      → Inv m
      → Grows k (opened section) m n
  unfolding destroy add_to_blacklist remove_from_blacklist pick start_graceful_shutdown
      check_blacklist emit_event
  Section-Grows (checks now imsi m ok) w = ground arith
  Section-Grows (opens now imsi m ok) w = open_session-Grows now imsi ok m
  Section-Grows (removes imsi m) w = remove_session-Grows imsi m w
  Section-Grows (bans imsi m) w = (omega arith, omega arith)
  Section-Grows (unbans imsi m) w = (omega arith, omega arith)
  Section-Grows (touches now imsi m) w = update_session_activity-Grows now imsi m
  Section-Grows (reaps now expired m) w = reap-Grows now expired m w
  Section-Grows (starts m h) w = ground (arith, h)
  Section-Grows (picks begin m) w = ground arith
  Section-Grows (drops system imsi m) w = remove_picked-Grows system imsi m w
  Section-Grows (stops m) w = (omega arith, omega arith)

  pub Others-Grows : {s m : Manager} {c : ℕ} → Others s c m → Inv s → Inv m × Grows k c s m
  Others-Grows quiet w = (w, (omega arith, omega arith))
  Others-Grows (and_then r section) w =
      let (v, g) = Others-Grows r w in
      let h = Section-Grows section v in
      (Section-Inv section v, (omega (arith, g.0, h.0), omega (arith, g.1, h.1)))
