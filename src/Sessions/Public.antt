-- ===== src/Sessions/Public.antt =====
-- src/session_manager.h: all the public methods, one call after the other while the threads of the manager rest, against
-- what they promise: Sessions/Spec, and for the graceful shutdown whether it goes on and whether it was ever started.
use pgw.Base.{
  ◌≡◌, refl, sym, ap, ◌∙◌, arith, Bool, true, false, Bool-cases, inl, inr, List, [], ◌∷◌,
  if◌then◌else◌, Outcome, returns, throws, terminates, ◌>>=◌,
}
use pgw.Sessions.State.{Manager, emit_event}
use pgw.Sessions.Requests.{
  create_session, check_blacklist, open_session, remove_session, update_session_activity,
  add_to_blacklist, remove_from_blacklist,
}
use pgw.Sessions.Shutdown.{start_graceful_shutdown}
use pgw.Sessions.Spec.{View, Call, create, touch, remove, Reply, answer, done, spec}
use pgw.Sessions.Refinement.{perform, view, spec-perform}
use pgw.Sessions.Clients.{perform-Run, perform-listening}
use pgw.Sessions.Invariant.{Inv, Run-Inv}

-- `is_shutting_down` of the header.
unfoldable pub is_shutting_down : Manager → Bool
is_shutting_down m = m.graceful_shutdown_active

pub data Method : Type 0 where
  request : Call → Method
  shuts_down shutting_down : Method

unfoldable pub invoke : Method → Manager → Outcome (Manager × Reply)
invoke (request c) m = returns (perform c m)
invoke shuts_down m = do n ← start_graceful_shutdown m; returns (n, done)
invoke shutting_down m = returns (m, answer (is_shutting_down m))

-- The calls go on as long as the process does.
unfoldable pub invoke_all : List Method → Manager → Outcome (Manager × List Reply)
invoke_all [] m = returns (m, [])
invoke_all (c ∷ cs) m = do
  (n, reply) ← invoke c m
  (o, replies) ← invoke_all cs n
  returns (o, reply ∷ replies)

pub record Promise : Type 0 where
  pub seen : View
  pub shutting : Bool
  pub started : Bool

-- A shutdown can be started once; another start ends the process.
unfoldable pub keep : Method → Promise → Outcome (Promise × Reply)
keep (request c) p = returns (record p { seen = (spec c p.seen).0 }, (spec c p.seen).1)
keep shuts_down p =
    if p.started then terminates else returns (record p { shutting = true; started = true }, done)
keep shutting_down p = returns (p, answer p.shutting)

unfoldable pub keep_all : List Method → Promise → Outcome (Promise × List Reply)
keep_all [] p = returns (p, [])
keep_all (c ∷ cs) p = do
  (q, reply) ← keep c p
  (r, replies) ← keep_all cs q
  returns (r, reply ∷ replies)

abbrev pub promise : Manager → Promise
promise m = record {
  seen = view m;
  shutting = m.graceful_shutdown_active;
  started = m.graceful_joinable;
}

-- What clients see of an outcome.
abbrev pub seen_of {ℓ} : {A : Type ℓ} → Outcome (Manager × A) → Outcome (Promise × A)
seen_of (returns (m, a)) = returns (promise m, a)
seen_of (throws what) = throws what
seen_of terminates = terminates

perform-flags :
    (c : Call) (m : Manager)
    → ((perform c m).0.graceful_shutdown_active ≡ m.graceful_shutdown_active)
      × ((perform c m).0.graceful_joinable ≡ m.graceful_joinable)
unfolding perform create_session check_blacklist open_session remove_session update_session_activity
    add_to_blacklist remove_from_blacklist emit_event
perform-flags (create now imsi) m = ground arith
perform-flags (touch now imsi) m = ground arith
perform-flags (remove imsi) m = ground arith
perform-flags _ m = (refl, refl)

promise-perform :
    (c : Call) (m : Manager)
    → Inv m
    → m.has_callback ≡ true
    → keep (request c) (promise m) ≡ returns (promise (perform c m).0, (perform c m).1)
unfolding keep
promise-perform c m v h =
    let s = spec-perform c m v h in
    let (f, g) = perform-flags c m in
    λ i. returns (record { seen = (s i).0; shutting = sym f i; started = sym g i }, (s i).1)

-- The answers of the later calls come behind the one of the first.
abbrev behind {ℓ} : {A : Type ℓ} → Reply → Outcome (A × List Reply) → Outcome (A × List Reply)
behind reply o = o >>= (λ x. returns (x.0, reply ∷ x.1))

seen_of-behind :
    (reply : Reply) (o : Outcome (Manager × List Reply))
    → seen_of (behind reply o) ≡ behind reply (seen_of o)
seen_of-behind reply (returns x) = refl
seen_of-behind reply (throws what) = refl
seen_of-behind reply terminates = refl

-- What a first start makes of the manager.
abbrev started_up : Manager → Manager
started_up m = record m { graceful_shutdown_active = true; graceful_joinable = true }

invoke_all-started :
    (cs : List Method) (m : Manager)
    → m.graceful_joinable ≡ false
    → invoke_all (shuts_down ∷ cs) m ≡ behind done (invoke_all cs (started_up m))
unfolding invoke_all invoke start_graceful_shutdown
invoke_all-started cs m j = rw (j) refl

-- One call more in front.
keep_all-next :
    (c : Method) (cs : List Method) (p : Promise) (n : Manager) (reply : Reply)
    → keep c p ≡ returns (promise n, reply)
    → keep_all cs (promise n) ≡ seen_of (invoke_all cs n)
    → keep_all (c ∷ cs) p ≡ seen_of (behind reply (invoke_all cs n))
unfolding keep_all
keep_all-next c cs p n reply first ih =
    ap (λ o. o >>= (λ x. behind x.1 (keep_all cs x.0))) first
    ∙ ap (behind reply) ih
    ∙ sym (seen_of-behind reply (invoke_all cs n))

-- Any sequence of calls of the public methods, made one after the other on a manager with a callback and a table of valid
-- keys while its threads do nothing, gives the answers, the sessions, the blacklist, the events and the state of the
-- graceful shutdown of the specification, and ends the process exactly where that says so: at a second start of the
-- graceful shutdown.
pub keep_all-invoke_all :
    (cs : List Method) (m : Manager)
    → Inv m
    → m.has_callback ≡ true
    → keep_all cs (promise m) ≡ seen_of (invoke_all cs m)
unfolding keep_all invoke_all invoke keep is_shutting_down start_graceful_shutdown
keep_all-invoke_all [] m v h = refl
keep_all-invoke_all (request c ∷ cs) m v h =
    let n = (perform c m).0 in
    let ih = keep_all-invoke_all cs n (Run-Inv (perform-Run c m).1 v) (perform-listening c m ∙ h) in
    keep_all-next (request c) cs (promise m) n (perform c m).1 (promise-perform c m v h) ih
keep_all-invoke_all (shutting_down ∷ cs) m v h =
    keep_all-next shutting_down cs (promise m) m (answer m.graceful_shutdown_active) refl
      (keep_all-invoke_all cs m v h)
keep_all-invoke_all (shuts_down ∷ cs) m v h = elim (Bool-cases m.graceful_joinable) [
  | inl j ↦ rw (j, keep_all, invoke_all, keep, start_graceful_shutdown) refl
  | inr j ↦
      let n = started_up m in
      let ih = keep_all-invoke_all cs n (record { table = v.table; banned = v.banned }) h in
      let first : keep shuts_down (promise m) ≡ returns (promise n, done) = rw (j, keep) refl in
      keep_all-next shuts_down cs (promise m) n done first ih
      ∙ sym (ap seen_of (invoke_all-started cs m j))
]
