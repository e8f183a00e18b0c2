-- ===== src/App/Shutdown.antt =====
-- src/pgw_server_app.h: the members of PGWServerApp are destroyed in the reverse of their order: `dispatcher_`, then
-- `http_`, then `udp_`. That happens when `run` is back in src/main.cpp, and when a later part of
-- `init_components` throws, the parts not yet made being null. The workers go on meanwhile.
use pgw.Base.{
  ℕ, ◌≡◌, ◌≢◌, ◌≤◌, ◌⊎◌, inl, inr, refl, arith, Bool, true, false, Option, none, some, List, [],
  ◌∷◌, All, length, Outcome, returns, throws, terminates, sym, ◌∙◌, ap, subst,
}
use pgw.Fd.{Fds}
use pgw.Http.{HttpServer}
use pgw.Http
use pgw.Http.Lifecycle.{Happening, undergo}
use pgw.Udp.Setup
use pgw.Dispatcher.Workers.{Pc, finished, Pool, new_pool, stop_and_notify, Step, stops, Reach, next}
use pgw.Dispatcher.Joining.{length-Reach, IsLooping, Reach-IsServing}

-- How far the destruction is: before `stop` of the dispatcher; in its `join`s; before the HTTP server; before the UDP
-- server; done; ended by `std::terminate`.
pub data Stage : Type 0 where
  stopping joining closing_http closing_udp gone aborted : Stage

-- `http_` and `udp_` are null if they were not made; of the UDP server it is kept whether it was started.
pub record Process : Type 0 where
  pub stage : Stage
  pub pool : Pool
  pub http : Option HttpServer
  pub udp : Option Bool
  pub fds : Fds

abbrev pub leaving : Pool → Option HttpServer → Option Bool → Fds → Process
leaving p http udp fds = record { stage = stopping; pool = p; http = http; udp = udp; fds = fds }

-- The members' destructors, of which a null pointer has none.
unfoldable pub destroy_http : Option HttpServer → Outcome (Option HttpServer)
destroy_http none = returns none
destroy_http (some s) = elim (Http.destroy s) [
  | returns t ↦ returns none
  | throws what ↦ throws what
  | terminates ↦ terminates
]

unfoldable pub destroy_udp : Option Bool → Fds → Outcome Fds
destroy_udp none s = returns s
destroy_udp (some started) s = Setup.destroy started s

-- The next stage, or the end: a destructor throws nothing.
abbrev pub after : {A : Type 0} → Stage → Outcome A → Stage
after stage (returns a) = stage
after stage (throws what) = aborted
after stage terminates = aborted

abbrev pub kept : Fds → Outcome Fds → Fds
kept s (returns t) = t
kept s (throws what) = s
kept s terminates = s

-- The thread that destroys goes from stage to stage; the pool's threads take any steps in between, and so does what befalls
-- the HTTP server.
pub data Proceed : Process → Process → Type 0 where
  works : (q : Process) {p : Pool} → Step q.pool p → Proceed q (record q { pool = p })
  serves :
      (q : Process) (h : Happening) {s t : HttpServer}
      → q.http ≡ some s
      → undergo h s ≡ returns t
      → Proceed q (record q { http = some t })
  stops_pool :
      (q : Process)
      → q.stage ≡ stopping
      → Proceed q (record q { stage = joining; pool = stop_and_notify q.pool })
  joins :
      (q : Process)
      → q.stage ≡ joining
      → All (λ c. c ≡ finished) q.pool.workers
      → Proceed q (record q { stage = closing_http })
  closes_http :
      (q : Process)
      → q.stage ≡ closing_http
      → Proceed q (record q { stage = after closing_udp (destroy_http q.http) })
  closes_udp :
      (q : Process)
      → q.stage ≡ closing_udp
      → Proceed q (record q {
        stage = after gone (destroy_udp q.udp q.fds);
        fds = kept q.fds (destroy_udp q.udp q.fds);
      })

pub data Proceeds (q : Process) : Process → Type 0 where
  unmoved : Proceeds q q
  onward : {r s : Process} → Proceeds q r → Proceed r s → Proceeds q s

-- Of workers that loop, none has finished: a `join` of all returns only if there are none.
unjoined : (cs : List Pc) → All IsLooping cs → All (λ c. c ≡ finished) cs → length cs ≡ 0
unjoined [] l f = refl
unjoined (c ∷ cs) l f = absurd (l.0 f.0)

-- The pool is one that its threads can bring about, `udp` stays what it is, and the `join`s are passed only
-- without workers.
record IsOnItsWay (n : ℕ) (udp : Option Bool) (q : Process) : Type 0 where
  reached : Reach (new_pool n) q.pool
  same : q.udp ≡ udp
  waits : (q.stage ≡ stopping) ⊎ ((q.stage ≡ joining) ⊎ (n ≡ 0))
  stays : (q.stage ≢ gone) ⊎ (udp ≢ some true)

udp-cases : (udp : Option Bool) → (udp ≡ some true) ⊎ (udp ≢ some true)
udp-cases none = inr (λ e. cc)
udp-cases (some true) = inl refl
udp-cases (some false) = inr (λ e. cc)

after-gone : {A : Type 0} (stage : Stage) (o : Outcome A) → stage ≢ gone → after stage o ≢ gone
after-gone stage (returns a) h = h
after-gone stage (throws what) h = λ e. cc
after-gone stage terminates h = λ e. cc

no_workers :
    (n : ℕ) (udp : Option Bool) (q : Process) (stage : Stage)
    → stage ≢ stopping
    → stage ≢ joining
    → q.stage ≡ stage
    → IsOnItsWay n udp q
    → n ≡ 0
no_workers n udp q stage s j e v = elim v.waits [
  | inl w ↦ absurd (s (sym e ∙ w))
  | inr w ↦ elim w [ inl x ↦ absurd (j (sym e ∙ x)) | inr x ↦ x ]
]

destroy_udp-started : (s : Fds) → destroy_udp (some true) s ≡ terminates
unfolding destroy_udp Setup.destroy
destroy_udp-started s = refl

Proceed-IsOnItsWay :
    (n : ℕ) (udp : Option Bool) {q r : Process}
    → Proceed q r
    → IsOnItsWay n udp q
    → IsOnItsWay n udp r
Proceed-IsOnItsWay n udp (works q step) v = record {
  reached = next v.reached step;
  same = v.same;
  waits = v.waits;
  stays = v.stays;
}
Proceed-IsOnItsWay n udp (serves q h e u) v = record {
  reached = v.reached;
  same = v.same;
  waits = v.waits;
  stays = v.stays;
}
Proceed-IsOnItsWay n udp (stops_pool q e) v = record {
  reached = next v.reached (stops q.pool);
  same = v.same;
  waits = inr (inl refl);
  stays = inl (λ x. cc);
}
Proceed-IsOnItsWay n udp (joins q e out) v = record {
  reached = v.reached;
  same = v.same;
  waits = inr (
      inr (
        sym (length-Reach n v.reached)
        ∙ unjoined q.pool.workers (Reach-IsServing n v.reached).looping out));
  stays = inl (λ x. cc);
}
Proceed-IsOnItsWay n udp (closes_http q e) v = record {
  reached = v.reached;
  same = v.same;
  waits = inr (inr (no_workers n udp q closing_http (λ x. cc) (λ x. cc) e v));
  stays = inl (after-gone closing_udp (destroy_http q.http) (λ x. cc));
}
Proceed-IsOnItsWay n udp (closes_udp q e) v = record {
  reached = v.reached;
  same = v.same;
  waits = inr (inr (no_workers n udp q closing_udp (λ x. cc) (λ x. cc) e v));
  stays = elim (udp-cases udp) [
    | inr h ↦ inr h
    | inl h ↦ inl (
        subst (λ o. after gone o ≢ gone)
          (sym (ap (λ u. destroy_udp u q.fds) (v.same ∙ h) ∙ destroy_udp-started q.fds)) (λ x. cc))
  ];
}

Proceeds-IsOnItsWay :
    (n : ℕ) (q : Process) {r : Process}
    → q.stage ≡ stopping
    → Reach (new_pool n) q.pool
    → Proceeds q r
    → IsOnItsWay n q.udp r
Proceeds-IsOnItsWay n q e p unmoved = record {
  reached = p;
  same = refl;
  waits = inl e;
  stays = inl (λ x. cc);
}
Proceeds-IsOnItsWay n q e p (onward rest step) =
    Proceed-IsOnItsWay n q.udp step (Proceeds-IsOnItsWay n q e p rest)

-- With a worker or more, whatever was made of the servers, the destruction of the members does not get past the
-- dispatcher's `join`s, in whatever order the threads run.
pub Proceeds-joining :
    (n : ℕ) (q : Process) {r : Process}
    → 1 ≤ n
    → q.stage ≡ stopping
    → Reach (new_pool n) q.pool
    → Proceeds q r
    → (r.stage ≡ stopping) ⊎ (r.stage ≡ joining)
Proceeds-joining n q some_worker e p rest = elim (Proceeds-IsOnItsWay n q e p rest).waits [
  | inl w ↦ inl w
  | inr w ↦ elim w [ inl x ↦ inr x | inr x ↦ absurd (omega (arith, x, some_worker)) ]
]

-- With a worker or more, or with a UDP server that was started, the destruction of the members does not come to its end,
-- in whatever order the threads run.
pub Proceeds-gone :
    (n : ℕ) (q : Process) {r : Process}
    → (1 ≤ n) ⊎ (q.udp ≡ some true)
    → q.stage ≡ stopping
    → Reach (new_pool n) q.pool
    → Proceeds q r
    → r.stage ≢ gone
Proceeds-gone n q (inl some_worker) e p rest = elim (Proceeds-joining n q some_worker e p rest) [
  | inl w ↦ λ x. cc
  | inr w ↦ λ x. cc
]
Proceeds-gone n q (inr started) e p rest = elim (Proceeds-IsOnItsWay n q e p rest).stays [
  | inl h ↦ h
  | inr h ↦ absurd (h started)
]
