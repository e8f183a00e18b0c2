-- ===== src/Sessions/Threads/Linear.antt =====
-- src/session_manager.cpp: schedules against calls made one after the other, `create_session` at its last section.
use pgw.Base.{
  ℕ, ◌≡◌, refl, sym, subst, map-append, ◌∙◌, ap, arith, true, false, Bool-cases, inl, inr, List, [],
  ◌∷◌, ◌++◌, map, none, some, Option, Text, member, All, All-set, All-get_elem?, get_elem?,
}
use pgw.Imsi.Valid.{IsValid, IsValid-dec}
use pgw.Sessions.State.{Manager, Instant, SessionAction, emit_event}
use pgw.Sessions.Requests.{
  check_blacklist, open_session, create_session, blacklisted, remove_session,
  update_session_activity,
}
use pgw.Sessions.Spec.{
  Call, create, touch, exists, remove, ban, unban, check, Reply, result, done, spec_run,
}
use pgw.Sessions.Refinement.{perform, view, is_imsi-IsValid, is_imsi-not_IsValid}
use pgw.Sessions.Clients.{perform_run, spec_run-perform_run}
use pgw.Sessions.Invariant.{Inv}
use pgw.Sessions.Threads.{
  Thread, between, opening, begin_create, advance, System, resume, turn, act, act_all,
}

-- What the section returns to the caller, if a call ends with it: the call and its answer.
abbrev pub Answered : Type 0
Answered = List (Call × Reply)

-- `create_session` ends in its first section if the subscriber is invalid or refused.
abbrev ends_create : Instant → Text → Thread → Answered
ends_create now imsi (between rest) = (create now imsi, result blacklisted) ∷ []
ends_create now imsi (opening later other rest) = []

unfoldable pub answers : Thread → Manager → Answered
answers (between []) m = []
answers (between (create now imsi ∷ rest)) m = ends_create now imsi (begin_create now imsi rest m).1
answers (between (touch now imsi ∷ rest)) m = (touch now imsi, done) ∷ []
answers (between (exists imsi ∷ rest)) m = (exists imsi, (perform (exists imsi) m).1) ∷ []
answers (between (remove imsi ∷ rest)) m = (remove imsi, (perform (remove imsi) m).1) ∷ []
answers (between (ban imsi ∷ rest)) m = (ban imsi, done) ∷ []
answers (between (unban imsi ∷ rest)) m = (unban imsi, done) ∷ []
answers (between (check imsi ∷ rest)) m = (check imsi, (perform (check imsi) m).1) ∷ []
answers (opening now imsi rest) m = (create now imsi, result (open_session now imsi m).1) ∷ []

abbrev answers_of : Option Thread → Manager → Answered
answers_of none m = []
answers_of (some t) m = answers t m

-- The calls that end in a schedule of turns, in order, with the answers that their threads get.
unfoldable pub trace : List ℕ → System → Answered
trace [] s = []
trace (i ∷ turns) s = answers_of (get_elem? s.threads i) s.manager ++ trace turns (act (turn i) s)

abbrev pub called : Answered → List Call
called = map (λ e. e.0)

abbrev pub replied : Answered → List Reply
replied = map (λ e. e.1)

open_session-blacklist :
    (now : Instant) (imsi : Text) (m : Manager)
    → (open_session now imsi m).0.blacklist ≡ m.blacklist
unfolding open_session emit_event
open_session-blacklist now imsi m = ground arith

module _ (now : Instant) (imsi : Text) (m : Manager) where
  create_session-refused :
      IsValid imsi
      → member imsi m.blacklist ≡ true
      → create_session now imsi m
        ≡ (emit_event now.system imsi SessionAction.rejected m, blacklisted)
  unfolding create_session check_blacklist
  create_session-refused v r = rw (is_imsi-IsValid imsi v, r, create_session, check_blacklist)

  create_session-admitted :
      IsValid imsi
      → member imsi m.blacklist ≡ false
      → create_session now imsi m ≡ open_session now imsi m
  unfolding create_session check_blacklist
  create_session-admitted v r = rw (is_imsi-IsValid imsi v, r, create_session, check_blacklist)

  create_session-invalid : ¬ IsValid imsi → create_session now imsi m ≡ (m, blacklisted)
  unfolding create_session
  create_session-invalid n = rw (is_imsi-not_IsValid imsi n, create_session)

module _ (b : List Text) where
  -- The call leaves the blacklist alone.
  abbrev pub IsReading : Call → Type 0
  IsReading (ban imsi) = ⊥
  IsReading (unban imsi) = ⊥
  IsReading _ = Unit

  -- So does the rest of the thread; and what it is about to open is not refused.
  abbrev pub IsSteady : Thread → Type 0
  IsSteady (between calls) = All IsReading calls
  IsSteady (opening now imsi rest) = IsValid imsi × (member imsi b ≡ false) × All IsReading rest

  -- A section that is a call, if it ends one, and keeps the blacklist.
  abbrev IsCall : Manager → Answered → Manager → Type 0
  IsCall m ended n = (perform_run (called ended) m ≡ (n, replied ended)) × (n.blacklist ≡ b)

  open-IsCall :
      (now : Instant) (imsi : Text) (m : Manager)
      → m.blacklist ≡ b
      → IsValid imsi
      → member imsi b ≡ false
      → IsCall m
          ((create now imsi, result (open_session now imsi m).1) ∷ [])
          (open_session now imsi m).0
  unfolding perform_run perform
  open-IsCall now imsi m e v free =
      let same = create_session-admitted now imsi m v (ap (member imsi) e ∙ free) in
      ((λ i. ((same i).0, result (same i).1 ∷ [])), open_session-blacklist now imsi m ∙ e)

  begin_create-IsCall :
      (now : Instant) (imsi : Text) (rest : List Call) (m : Manager)
      → m.blacklist ≡ b
      → All IsReading rest
      → IsCall m
          (ends_create now imsi (begin_create now imsi rest m).1)
          (begin_create now imsi rest m).0
        × IsSteady (begin_create now imsi rest m).1
  unfolding begin_create perform_run perform check_blacklist emit_event
  begin_create-IsCall now imsi rest m e h = elim (IsValid-dec imsi) [
    | no n ↦
        let same = create_session-invalid now imsi m n in
        rw (is_imsi-not_IsValid imsi n) (((λ i. ((same i).0, result (same i).1 ∷ [])), e), h)
    | yes v ↦ elim (Bool-cases (member imsi m.blacklist)) [
      | inl r ↦
          let same = create_session-refused now imsi m v r in
          rw (is_imsi-IsValid imsi v, r)
            (((λ i. ((same i).0, result (same i).1 ∷ [])), ground (arith, e)), h)
      | inr r ↦ rw (is_imsi-IsValid imsi v, r) ((refl, e), (v, ap (member imsi) (sym e) ∙ r, h))
    ]
  ]

  advance-IsCall :
      (t : Thread) (m : Manager)
      → m.blacklist ≡ b
      → IsSteady t
      → IsCall m (answers t m) (advance t m).0 × IsSteady (advance t m).1
  unfolding advance answers perform_run perform remove_session update_session_activity
  advance-IsCall (between []) m e h = ((refl, e), h)
  advance-IsCall (between (create now imsi ∷ rest)) m e h =
      begin_create-IsCall now imsi rest m e h.1
  advance-IsCall (between (touch now imsi ∷ rest)) m e h = ((refl, ground (arith, e)), h.1)
  advance-IsCall (between (exists imsi ∷ rest)) m e h = ((refl, e), h.1)
  advance-IsCall (between (remove imsi ∷ rest)) m e h = ((refl, ground (arith, e)), h.1)
  advance-IsCall (between (ban imsi ∷ rest)) m e h = absurd h.0
  advance-IsCall (between (unban imsi ∷ rest)) m e h = absurd h.0
  advance-IsCall (between (check imsi ∷ rest)) m e h = ((refl, e), h.1)
  advance-IsCall (opening now imsi rest) m e h = (open-IsCall now imsi m e h.0 h.1, h.2)

  resume-IsCall :
      (i : ℕ) (o : Option Thread) (s : System)
      → get_elem? s.threads i ≡ o
      → s.manager.blacklist ≡ b
      → All IsSteady s.threads
      → IsCall s.manager (answers_of o s.manager) (resume i o s).manager
        × All IsSteady (resume i o s).threads
  unfolding perform_run
  resume-IsCall i none s g e v = ((refl, e), v)
  resume-IsCall i (some t) s g e v =
      let (call, steady) =
        advance-IsCall t s.manager e (All-get_elem? IsSteady s.threads i t v g) in
      (call, All-set IsSteady s.threads i (advance t s.manager).1 v steady)

perform_run-append :
    (cs ds : List Call) (m : Manager)
    → perform_run (cs ++ ds) m ≡ (
      (perform_run ds (perform_run cs m).0).0,
      (perform_run cs m).1 ++ (perform_run ds (perform_run cs m).0).1,
    )
unfolding perform_run
perform_run-append [] ds m = refl
perform_run-append (c ∷ cs) ds m =
    let ih = perform_run-append cs ds (perform c m).0 in λ i. ((ih i).0, (perform c m).1 ∷ (ih i).1)

-- Two runs of calls, one after the other.
follow :
    (first last : Answered) (m n o : Manager)
    → perform_run (called first) m ≡ (n, replied first)
    → perform_run (called last) n ≡ (o, replied last)
    → perform_run (called (first ++ last)) m ≡ (o, replied (first ++ last))
follow first last m n o e f =
    rw
      (
        map-append (λ (p : Call × Reply). p.0) first last,
        map-append (λ (p : Call × Reply). p.1) first last,
      )
      (perform_run-append (called first) (called last) m ∙ rw (e, f))

-- While no thread bans or unbans, every schedule of the threads leaves the manager, and answers the calls, as if
-- the calls that ended had been made one after the other, in the order in which they ended.
pub perform_run-trace :
    (turns : List ℕ) (s : System)
    → All (IsSteady s.manager.blacklist) s.threads
    → perform_run (called (trace turns s)) s.manager
      ≡ ((act_all (map turn turns) s).manager, replied (trace turns s))
unfolding trace act act_all perform_run
perform_run-trace [] s v = refl
perform_run-trace (i ∷ turns) s v =
    let ((call, same), steady) =
      resume-IsCall s.manager.blacklist i (get_elem? s.threads i) s refl refl v in
    let t = act (turn i) s in
    follow (answers_of (get_elem? s.threads i) s.manager) (trace turns t) s.manager t.manager
      (act_all (map turn turns) t).manager call
      (perform_run-trace turns t (subst (λ k. All (IsSteady k) t.threads) (sym same) steady))

-- So what the callers see is what Sessions/Spec promises: the answers, the sessions, the blacklist and the events
-- of the calls made one after the other.
pub spec_run-trace :
    (turns : List ℕ) (s : System)
    → All (IsSteady s.manager.blacklist) s.threads
    → Inv s.manager
    → s.manager.has_callback ≡ true
    → spec_run (called (trace turns s)) (view s.manager)
      ≡ (view (act_all (map turn turns) s).manager, replied (trace turns s))
spec_run-trace turns s v inv listening =
    let e = perform_run-trace turns s v in
    spec_run-perform_run (called (trace turns s)) s.manager inv listening
    ∙ (λ i. (view (e i).0, (e i).1))
