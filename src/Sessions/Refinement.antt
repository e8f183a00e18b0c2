-- ===== src/Sessions/Refinement.antt =====
-- src/session_manager.cpp: the requests of SessionManager implement Sessions/Spec.

use pgw.Base.{
  true, false, none, some, Text, if_pos, if_neg, ◌≡◌, refl, sym, ap, ◌∙◌, arith, find, member,
  insert, erase, find-insert, find-erase, member-set_insert, member-set_erase, Option-cases, inl,
  inr, Bool-cases,
}
use pgw.Imsi.Valid.{IsValid, IsValid-dec, make-IsValid, make-not_IsValid}
use pgw.Sessions.State.{Manager, Session, SessionAction, Instant, new_session, emit_event}
use pgw.Sessions.Requests.{
  CreateResult, already_exists, blacklisted, is_imsi, check_blacklist, open_session, create_session,
  session_exists, remove_session, add_to_blacklist, remove_from_blacklist, is_blacklisted,
  update_session_activity,
}
use pgw.Sessions.Spec.{
  View, put, Call, create, touch, exists, remove, ban, unban, check, Reply, result, answer, done,
  is_there, spec, spec_create, spec_touch, spec_open, spec_admit, log_event, refresh,
}
use pgw.Sessions.Invariant.{Inv}

-- A call of a public method.
unfoldable pub perform : Call → Manager → Manager × Reply
perform (create now imsi) m = let (n, r) = create_session now imsi m in (n, result r)
perform (touch now imsi) m = (update_session_activity now imsi m, done)
perform (exists imsi) m = (m, answer (session_exists imsi m))
perform (remove imsi) m = let (n, r) = remove_session imsi m in (n, answer r)
perform (ban imsi) m = (add_to_blacklist imsi m, done)
perform (unban imsi) m = (remove_from_blacklist imsi m, done)
perform (check imsi) m = (m, answer (is_blacklisted imsi m))

abbrev pub view : Manager → View
view m = record {
  active = λ k. find k m.sessions;
  banned = λ k. member k m.blacklist;
  log = m.delivered;
}

view-ext :
    (v w : View)
    → ((k : Text) → v.active k ≡ w.active k)
    → ((k : Text) → v.banned k ≡ w.banned k)
    → v.log ≡ w.log
    → v ≡ w
view-ext v w a b l = λ i. record { active = λ k. a k i; banned = λ k. b k i; log = l i }

pub is_imsi-IsValid : (imsi : Text) → IsValid imsi → is_imsi imsi ≡ true
unfolding is_imsi
is_imsi-IsValid imsi v = rw (make-IsValid imsi v, is_imsi)

pub is_imsi-not_IsValid : (imsi : Text) → ¬ IsValid imsi → is_imsi imsi ≡ false
unfolding is_imsi
is_imsi-not_IsValid imsi n = rw (make-not_IsValid imsi n, is_imsi)

module _ (now : Instant) (imsi : Text) where
  view-emit :
      (a : SessionAction) (m : Manager)
      → m.has_callback ≡ true
      → log_event now imsi a (view m) ≡ view (emit_event now.system imsi a m)
  unfolding emit_event log_event
  view-emit a m h = rw (h, emit_event)

  -- Writing a session is an update of the map.
  view-insert :
      (s : Session) (m : Manager)
      → record (view m) { active = put imsi (some s) (view m).active }
        ≡ view (record m { sessions = insert imsi s m.sessions })
  view-insert s m = view-ext _ _ (λ k. sym (find-insert imsi k s m.sessions)) (λ k. refl) refl

  view-open :
      (m : Manager)
      → m.has_callback ≡ true
      → spec_open now imsi (view m)
        ≡ (view (open_session now imsi m).0, result (open_session now imsi m).1)
  unfolding spec_open open_session refresh
  view-open m h = elim (Option-cases (find imsi m.sessions)) [
    | inl e ↦
        rw (e, spec_open, open_session)
          (λ i. (
            (ap (log_event now imsi SessionAction.created) (view-insert (new_session now imsi) m)
                  ∙ view-emit SessionAction.created
                      (record m { sessions = insert imsi (new_session now imsi) m.sessions }) h)
                i,
            result CreateResult.created,
          ))
    | inr (s, e) ↦
        rw (e, spec_open, open_session)
          (λ i. (view-insert (record s { last_activity = now.steady }) m i, result already_exists))
  ]

  view-create :
      (m : Manager)
      → m.has_callback ≡ true
      → spec_create now imsi (view m)
        ≡ (view (create_session now imsi m).0, result (create_session now imsi m).1)
  unfolding spec_create spec_admit create_session check_blacklist
  view-create m h = elim (IsValid-dec imsi) [
    | no n ↦ rw (if_neg _ n, is_imsi-not_IsValid imsi n, create_session)
    | yes v ↦ elim (Bool-cases (member imsi m.blacklist)) [
      | inl e ↦
          rw (if_pos _ v, is_imsi-IsValid imsi v, e, spec_admit, create_session, check_blacklist)
            (λ i. (view-emit SessionAction.rejected m h i, result blacklisted))
      | inr e ↦
          rw (if_pos _ v, is_imsi-IsValid imsi v, e, spec_admit, create_session, check_blacklist)
            (view-open m h)
    ]
  ]

  view-touch :
      (m : Manager)
      → spec_touch now imsi (view m) ≡ (view (update_session_activity now imsi m), done)
  unfolding spec_touch update_session_activity refresh
  view-touch m = elim (Option-cases (find imsi m.sessions)) [
    | inl e ↦ rw (e, spec_touch, update_session_activity)
    | inr (s, e) ↦
        rw (e, spec_touch, update_session_activity)
          (λ i. (view-insert (record s { last_activity = now.steady }) m i, done))
  ]

module _ (imsi : Text) (m : Manager) (v : Inv m) where
  absent-erased :
      find imsi m.sessions ≡ none
      → record (view m) { active = put imsi none (view m).active } ≡ view m
  absent-erased e = view-ext _ _ (λ k. ground arith) (λ k. refl) refl

  view-erase :
      record (view m) { active = put imsi none (view m).active }
      ≡ view (record m { sessions = erase imsi m.sessions })
  view-erase =
      view-ext _ _ (λ k. sym (find-erase imsi k m.sessions (v.table.distinct imsi))) (λ k. refl)
        refl

  view-remove :
      spec (remove imsi) (view m)
      ≡ (view (remove_session imsi m).0, answer (remove_session imsi m).1)
  unfolding spec remove_session
  view-remove = elim (Option-cases (find imsi m.sessions)) [
    | inl e ↦ rw (e, remove_session) (λ i. (absent-erased e i, answer false))
    | inr (s, e) ↦ rw (e, remove_session) (λ i. (view-erase i, answer true))
  ]

  view-ban :
      record (view m) { banned = put imsi true (view m).banned } ≡ view (add_to_blacklist imsi m)
  unfolding add_to_blacklist
  view-ban = view-ext _ _ (λ k. refl) (λ k. sym (member-set_insert imsi k m.blacklist)) refl

  view-unban :
      record (view m) { banned = put imsi false (view m).banned }
      ≡ view (remove_from_blacklist imsi m)
  unfolding remove_from_blacklist
  view-unban =
      view-ext _ _ (λ k. refl) (λ k. sym (member-set_erase imsi k m.blacklist (v.banned imsi))) refl

  view-exists : is_there (find imsi m.sessions) ≡ session_exists imsi m
  unfolding session_exists
  view-exists = ground arith

-- What a call answers, and what can be seen of the manager after it, is what the specification says.
pub spec-perform :
    (c : Call) (m : Manager)
    → Inv m
    → m.has_callback ≡ true
    → spec c (view m) ≡ (view (perform c m).0, (perform c m).1)
unfolding spec perform is_blacklisted
spec-perform (create now imsi) m v h = view-create now imsi m h
spec-perform (touch now imsi) m v h = view-touch now imsi m
spec-perform (exists imsi) m v h = λ i. (view m, answer (view-exists imsi m v i))
spec-perform (remove imsi) m v h = view-remove imsi m v
spec-perform (ban imsi) m v h = λ i. (view-ban imsi m v i, done)
spec-perform (unban imsi) m v h = λ i. (view-unban imsi m v i, done)
spec-perform (check imsi) m v h = refl
