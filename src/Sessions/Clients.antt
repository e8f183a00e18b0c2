-- ===== src/Sessions/Clients.antt =====
-- src/session_manager.cpp: calls of SessionManager as histories of sections, and whole sessions of calls
-- against Sessions/Spec.
use pgw.Base.{ℕ, true, List, [], ◌∷◌, Text, ◌≡◌, refl, ◌∙◌, arith, inl, inr, Bool-cases}
use pgw.Imsi.Valid.{IsValid, IsValid-dec}
use pgw.Sessions.State.{Manager, Instant, emit_event, SessionAction}
use pgw.Sessions.Requests.{
  check_blacklist, open_session, create_session, remove_session, update_session_activity,
  add_to_blacklist, remove_from_blacklist,
}
use pgw.Sessions.Spec.{Call, create, touch, exists, remove, ban, unban, check, Reply, spec_run}
use pgw.Sessions.Invariant.{Inv, Run-Inv}
use pgw.Sessions.Interleaving.{
  checks, opens, removes, bans, unbans, touches, Run, here, next, removed_by,
}
use pgw.Sessions.Refinement.{perform, view, spec-perform, is_imsi-IsValid, is_imsi-not_IsValid}

module _ (now : Instant) (imsi : Text) (m : Manager) where
  -- A refused call is one section, an admitted one is two.
  create_session-admitted : IsValid imsi → Run m [] (create_session now imsi m).0
  unfolding create_session
  create_session-admitted v = elim (Bool-cases (check_blacklist now imsi m).1) [
    | inl e ↦ rw (is_imsi-IsValid imsi v, create_session, e) (next here (checks now imsi m v))
    | inr e ↦
        rw (is_imsi-IsValid imsi v, create_session, e)
          (next (next here (checks now imsi m v)) (opens now imsi _ v))
  ]

  pub create_session-Run : Run m [] (create_session now imsi m).0
  unfolding create_session
  create_session-Run = elim (IsValid-dec imsi) [
    | yes v ↦ create_session-admitted v
    | no n ↦ rw (is_imsi-not_IsValid imsi n, create_session) here
  ]

-- Every call is a history of sections.
pub perform-Run : (c : Call) (m : Manager) → (gone : List Text) × Run m gone (perform c m).0
unfolding perform
perform-Run (create now imsi) m = ([], create_session-Run now imsi m)
perform-Run (touch now imsi) m = ([], next here (touches now imsi m))
perform-Run (exists imsi) m = ([], here)
perform-Run (remove imsi) m = (removed_by imsi m, next here (removes imsi m))
perform-Run (ban imsi) m = ([], next here (bans imsi m))
perform-Run (unban imsi) m = ([], next here (unbans imsi m))
perform-Run (check imsi) m = ([], here)

emit_event-listening :
    (system : ℕ) (imsi : Text) (a : SessionAction) (m : Manager)
    → (emit_event system imsi a m).has_callback ≡ m.has_callback
unfolding emit_event
emit_event-listening system imsi a m = ground arith

create_session-listening :
    (now : Instant) (imsi : Text) (m : Manager)
    → (create_session now imsi m).0.has_callback ≡ m.has_callback
unfolding create_session check_blacklist open_session emit_event
create_session-listening now imsi m = ground arith

pub perform-listening : (c : Call) (m : Manager) → (perform c m).0.has_callback ≡ m.has_callback
unfolding perform remove_session update_session_activity add_to_blacklist remove_from_blacklist
perform-listening (create now imsi) m = create_session-listening now imsi m
perform-listening (touch now imsi) m = ground arith
perform-listening (remove imsi) m = ground arith
perform-listening _ m = ground arith

unfoldable pub perform_run : List Call → Manager → Manager × List Reply
perform_run [] m = (m, [])
perform_run (c ∷ cs) m =
    let (n, reply) = perform c m in let (o, replies) = perform_run cs n in (o, reply ∷ replies)

-- Any sequence of calls gives the answers of the specification, and leaves the manager as it says.
pub spec_run-perform_run :
    (cs : List Call) (m : Manager)
    → Inv m
    → m.has_callback ≡ true
    → spec_run cs (view m) ≡ (view (perform_run cs m).0, (perform_run cs m).1)
unfolding spec_run perform_run
spec_run-perform_run [] m v h = refl
spec_run-perform_run (c ∷ cs) m v h =
    let n = (perform c m).0 in
    let ih =
      spec_run-perform_run cs n (Run-Inv (perform-Run c m).1 v) (perform-listening c m ∙ h) in
    rw (spec-perform c m v h) (λ i. ((ih i).0, (perform c m).1 ∷ (ih i).1))
