-- ===== src/App/Server/Histories.antt =====
-- What the running server does to its SessionManager, as a history of sections.
use pgw.Base.{ℕ, ◌==◌, ◌≡◌, refl, subst, arith, Bool-cases, inl, inr, [], none, some, Option, Text}
use pgw.Imsi.Valid.{IsValid}
use pgw.Sessions.State.{Manager, Instant}
use pgw.Sessions.Shutdown.{start_graceful_shutdown}
use pgw.Sessions.Interleaving
use pgw.Sessions.Interleaving.{checks, opens, reaps, starts, picks, Run, here, next}
use pgw.Sessions.Threads.{opening, Action, turn, cleans, shuts, looks, act}
use pgw.Sessions.Threads.Histories.{
  IsSane, Run-append, started-Run, begin_create-Run, begin_create-IsSane,
}
use pgw.Dispatcher.Workers.{Pool}
use pgw.App.Server.{
  Server, new_server, checked, in_background, assign, Serve, works, queues, bounces, refuses,
  admits, answers, ignores, background, Serves, at_start, after,
}

in_background-Run : (a : Action) (m : Manager) → Run m [] (in_background a m)
unfolding act
in_background-Run (turn i) m = here
in_background-Run (cleans now expired) m = next here (reaps now expired m)
in_background-Run shuts m = started-Run m (start_graceful_shutdown m) refl
in_background-Run (looks begin) m = next here (picks begin m)
in_background-Run (Action.drops system imsi) m = next here (Interleaving.drops system imsi m)

-- A worker between the sections of `create_session` holds a valid IMSI.
abbrev AreValid : (ℕ → Option Text) → Type 0
AreValid calls = (i : ℕ) (imsi : Text) → calls i ≡ some imsi → IsValid imsi

assign-AreValid :
    (calls : ℕ → Option Text) (i : ℕ) (call : Option Text)
    → AreValid calls
    → ((imsi : Text) → call ≡ some imsi → IsValid imsi)
    → AreValid (assign calls i call)
assign-AreValid calls i call v new j imsi e = elim (Bool-cases (j == i)) [
  | inl x ↦ new imsi (ground (arith, e, x))
  | inr x ↦ v j imsi (ground (arith, e, x))
]

-- The manager comes from `m` by a history in which nobody removed a session by hand.
record IsHistory (m : Manager) (s : Server) : Type 0 where
  history : Run m [] s.manager
  valid : AreValid s.calls

checked-IsValid :
    (now : Instant) (imsi : Text) (m : Manager)
    → (checked now imsi m).1 ≡ opening now imsi []
    → IsValid imsi
checked-IsValid now imsi m e = subst IsSane e (begin_create-IsSane now imsi [] m)

Serve-IsHistory : (m : Manager) {s t : Server} → Serve s t → IsHistory m s → IsHistory m t
Serve-IsHistory m (works s step h) v = record { history = v.history; valid = v.valid }
Serve-IsHistory m (queues s bytes client) v = record { history = v.history; valid = v.valid }
Serve-IsHistory m (bounces s client) v = record { history = v.history; valid = v.valid }
Serve-IsHistory m (refuses s i event imsi now a c d e) v = record {
  history = Run-append v.history (begin_create-Run now imsi.digits [] s.manager);
  valid = v.valid;
}
Serve-IsHistory m (admits s i event imsi now a c d e) v = record {
  history = Run-append v.history (begin_create-Run now imsi.digits [] s.manager);
  valid =
      assign-AreValid s.calls i (some imsi.digits) v.valid
        (λ other q. subst IsValid (cc q) (checked-IsValid now imsi.digits s.manager e));
}
Serve-IsHistory m (answers s i event imsi now a c) v = record {
  history = next v.history (opens now imsi s.manager (v.valid i imsi c));
  valid = assign-AreValid s.calls i none v.valid (λ other q. cc q);
}
Serve-IsHistory m (ignores s i event a) v = record { history = v.history; valid = v.valid }
Serve-IsHistory m (background s a) v = record {
  history = Run-append v.history (in_background-Run a s.manager);
  valid = v.valid;
}

Serves-IsHistory : (p : Pool) (m : Manager) {s : Server} → Serves (new_server p m) s → IsHistory m s
Serves-IsHistory p m at_start = record { history = here; valid = λ i imsi e. cc e }
Serves-IsHistory p m (after r step) = Serve-IsHistory m step (Serves-IsHistory p m r)

-- Whatever requests come and in whatever order all threads run, the manager of the server comes about by a history of its
-- sections in which no session is removed by hand.
pub Serves-Run :
    (p : Pool) (m : Manager) {s : Server} → Serves (new_server p m) s → Run m [] s.manager
Serves-Run p m r = (Serves-IsHistory p m r).history
