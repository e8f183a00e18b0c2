-- ===== src/Sessions/Threads/Histories.antt =====
-- src/session_manager.cpp: schedules of threads against histories of sections.
use pgw.Base.{
  ℕ, ◌≡◌, refl, arith, Bool-cases, inl, inr, List, [], ◌∷◌, ◌++◌, append_assoc, none, some, Option,
  Text, All, All-set, All-get_elem?, get_elem?, Outcome, returns, throws, terminates, subst, sym,
  append-nil,
}
use pgw.Imsi.Valid.{IsValid, IsValid-dec}
use pgw.Sessions.State.{Manager, Instant}
use pgw.Sessions.Requests.{check_blacklist}
use pgw.Sessions.Shutdown.{start_graceful_shutdown}
use pgw.Sessions.Spec.{Call, create, touch, exists, remove, ban, unban, check}
use pgw.Sessions.Interleaving
use pgw.Sessions.Interleaving.{checks, opens, reaps, starts, picks, Run, here, next}
use pgw.Sessions.Clients.{perform-Run}
use pgw.Sessions.Refinement.{is_imsi-IsValid, is_imsi-not_IsValid}
use pgw.Sessions.Threads.{
  Thread, between, opening, begin_create, advance, System, resume, started, Action, turn, cleans,
  shuts, looks, act, act_all,
}

-- A thread opens sessions for valid subscribers only.
abbrev pub IsSane : Thread → Type 0
IsSane (between calls) = Unit
IsSane (opening now imsi rest) = IsValid imsi

pub Run-append :
    {l m n : Manager} {gone more : List Text} → Run l gone m → Run m more n → Run l (gone ++ more) n
Run-append {l} {m} {gone} r here = subst (λ g. Run l g m) (sym (append-nil gone)) r
Run-append {l} {gone} r (next {gone = first} {more = last} {n = n} q s) =
    subst (λ g. Run l g n) (append_assoc gone first last) (next (Run-append r q) s)

pub begin_create-IsSane :
    (now : Instant) (imsi : Text) (rest : List Call) (m : Manager)
    → IsSane (begin_create now imsi rest m).1
unfolding begin_create
begin_create-IsSane now imsi rest m = elim (IsValid-dec imsi) [
  | yes v ↦ ground (arith, v)
  | no n ↦ rw (is_imsi-not_IsValid imsi n, begin_create) tt
]

advance-IsSane : (t : Thread) (m : Manager) → IsSane (advance t m).1
unfolding advance
advance-IsSane (between []) m = tt
advance-IsSane (between (create now imsi ∷ rest)) m = begin_create-IsSane now imsi rest m
advance-IsSane (between (touch now imsi ∷ rest)) m = tt
advance-IsSane (between (exists imsi ∷ rest)) m = tt
advance-IsSane (between (remove imsi ∷ rest)) m = tt
advance-IsSane (between (ban imsi ∷ rest)) m = tt
advance-IsSane (between (unban imsi ∷ rest)) m = tt
advance-IsSane (between (check imsi ∷ rest)) m = tt
advance-IsSane (opening now imsi rest) m = tt

pub begin_create-Run :
    (now : Instant) (imsi : Text) (rest : List Call) (m : Manager)
    → Run m [] (begin_create now imsi rest m).0
unfolding begin_create
begin_create-Run now imsi rest m = elim (IsValid-dec imsi) [
  | yes v ↦ elim (Bool-cases (check_blacklist now imsi m).1) [
    | inl r ↦ rw (is_imsi-IsValid imsi v, r, begin_create) (next here (checks now imsi m v))
    | inr r ↦ rw (is_imsi-IsValid imsi v, r, begin_create) (next here (checks now imsi m v))
  ]
  | no n ↦ rw (is_imsi-not_IsValid imsi n, begin_create) here
]

-- The next section of a thread, as a history.
advance-Run :
    (t : Thread) (m : Manager) → IsSane t → (gone : List Text) × Run m gone (advance t m).0
unfolding advance
advance-Run (between []) m h = ([], here)
advance-Run (between (create now imsi ∷ rest)) m h = ([], begin_create-Run now imsi rest m)
advance-Run (between (touch now imsi ∷ rest)) m h = perform-Run (touch now imsi) m
advance-Run (between (exists imsi ∷ rest)) m h = perform-Run (exists imsi) m
advance-Run (between (remove imsi ∷ rest)) m h = perform-Run (remove imsi) m
advance-Run (between (ban imsi ∷ rest)) m h = perform-Run (ban imsi) m
advance-Run (between (unban imsi ∷ rest)) m h = perform-Run (unban imsi) m
advance-Run (between (check imsi ∷ rest)) m h = perform-Run (check imsi) m
advance-Run (opening now imsi rest) m h = ([], next here (opens now imsi m h))

resume-Run :
    (i : ℕ) (o : Option Thread) (s : System)
    → get_elem? s.threads i ≡ o
    → All IsSane s.threads
    → (gone : List Text) × Run s.manager gone (resume i o s).manager
      × All IsSane (resume i o s).threads
resume-Run i none s e v = ([], here, v)
resume-Run i (some t) s e v =
    let (gone, r) = advance-Run t s.manager (All-get_elem? IsSane s.threads i t v e) in
    (gone, r, All-set IsSane s.threads i (advance t s.manager).1 v (advance-IsSane t s.manager))

pub started-Run :
    (m : Manager) (o : Outcome Manager) → start_graceful_shutdown m ≡ o → Run m [] (started o m)
started-Run m (returns n) e = next here (starts m e)
started-Run m (throws w) e = here
started-Run m terminates e = here

act-Run :
    (a : Action) (s : System)
    → All IsSane s.threads
    → (gone : List Text) × Run s.manager gone (act a s).manager × All IsSane (act a s).threads
unfolding act
act-Run (turn i) s v = resume-Run i (get_elem? s.threads i) s refl v
act-Run (cleans now expired) s v = ([], next here (reaps now expired s.manager), v)
act-Run shuts s v = ([], started-Run s.manager (start_graceful_shutdown s.manager) refl, v)
act-Run (looks begin) s v = ([], next here (picks begin s.manager), v)
act-Run (Action.drops system imsi) s v =
    ([], next here (Interleaving.drops system imsi s.manager), v)

-- Every schedule of the threads is a history of sections of the manager.
act_all-Run :
    (actions : List Action) (s : System)
    → All IsSane s.threads
    → (gone : List Text) × Run s.manager gone (act_all actions s).manager
unfolding act_all
act_all-Run [] s v = ([], here)
act_all-Run (a ∷ rest) s v =
    let (gone, r, w) = act-Run a s v in
    let (more, q) = act_all-Run rest (act a s) w in (gone ++ more, Run-append r q)
