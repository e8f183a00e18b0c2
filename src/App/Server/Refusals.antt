-- ===== src/App/Server/Refusals.antt =====
-- Subscribers on the blacklist of the configuration, in the running server.
use pgw.Base.{
  ℕ, ◌==◌, ◌≡◌, ◌≢◌, sym, ap, subst, arith, Bool-cases, inl, inr, [], none, some, Option, Text,
  returns, find,
}
use pgw.Json.{JsonLibrary}
use pgw.Logger.{Spdlog, Logging}
use pgw.Sessions.State.{Manager, init}
use pgw.Sessions.Threads.{Action}
use pgw.Sessions.Threads.Refusal.{
  IsShut, Keeps, open_session-IsShut, begin_create-Keeps, act-IsBarred,
}
use pgw.Dispatcher.Workers.{Pool}
use pgw.App.{Components, construct, init_components}
use pgw.App.Construction.{construct-made}
use pgw.App.Blacklist.{IsListed, construct-blacklist}
use pgw.App.Server.{
  Server, new_server, in_background, assign, Serve, works, queues, bounces, refuses, admits,
  answers, ignores, background, Serves, at_start, after,
}

-- No worker is about to open a session for the subscriber, who is refused and has none.
record IsRefused (k : Text) (s : Server) : Type 0 where
  shut : IsShut k s.manager
  spared : (i : ℕ) (imsi : Text) → s.calls i ≡ some imsi → imsi ≢ k

assign-spared :
    (k : Text) (calls : ℕ → Option Text) (i : ℕ) (call : Option Text)
    → ((j : ℕ) (imsi : Text) → calls j ≡ some imsi → imsi ≢ k)
    → ((imsi : Text) → call ≡ some imsi → imsi ≢ k)
    → (j : ℕ) (imsi : Text) → assign calls i call j ≡ some imsi
    → imsi ≢ k
assign-spared k calls i call old new j imsi e = elim (Bool-cases (j == i)) [
  | inl x ↦ new imsi (ground (arith, e, x))
  | inr x ↦ old j imsi (ground (arith, e, x))
]

in_background-IsShut :
    (k : Text) (a : Action) (m : Manager) → IsShut k m → IsShut k (in_background a m)
in_background-IsShut k a m v =
    (act-IsBarred k a (record { manager = m; threads = [] }) (record { shut = v; kept = tt })).shut

Serve-IsRefused : (k : Text) {s t : Server} → Serve s t → IsRefused k s → IsRefused k t
Serve-IsRefused k (works s step h) v = record { shut = v.shut; spared = v.spared }
Serve-IsRefused k (queues s bytes client) v = record { shut = v.shut; spared = v.spared }
Serve-IsRefused k (bounces s client) v = record { shut = v.shut; spared = v.spared }
Serve-IsRefused k (refuses s i event imsi now a c d e) v = record {
  shut = (begin_create-Keeps k now imsi.digits [] s.manager tt v.shut).0;
  spared = v.spared;
}
Serve-IsRefused k (admits s i event imsi now a c d e) v =
    let (shut, keeps) = begin_create-Keeps k now imsi.digits [] s.manager tt v.shut in
    let other : imsi.digits ≢ k = (subst (Keeps k) e keeps).0 in
    record {
      shut = shut;
      spared =
          assign-spared k s.calls i (some imsi.digits) v.spared
            (λ t q. subst (λ x. x ≢ k) (cc q) other);
    }
Serve-IsRefused k (answers s i event imsi now a c) v = record {
  shut = open_session-IsShut k now imsi s.manager (v.spared i imsi c) v.shut;
  spared = assign-spared k s.calls i none v.spared (λ t q. cc q);
}
Serve-IsRefused k (ignores s i event a) v = record { shut = v.shut; spared = v.spared }
Serve-IsRefused k (background s a) v = record {
  shut = in_background-IsShut k a s.manager v.shut;
  spared = v.spared;
}

Serves-IsRefused :
    (k : Text) (p : Pool) (m : Manager) {s : Server}
    → IsShut k m
    → Serves (new_server p m) s
    → IsRefused k s
Serves-IsRefused k p m v at_start = record { shut = v; spared = λ i imsi e. cc e }
Serves-IsRefused k p m v (after r step) = Serve-IsRefused k step (Serves-IsRefused k p m v r)

-- The manager that the constructor makes has no session.
construct-sessions :
    (json : JsonLibrary) (spdlog : Spdlog) (l : Logging) (file : Option Text) (c : Components)
    → construct json spdlog l file ≡ returns c
    → c.session_manager.sessions ≡ []
unfolding init_components init
construct-sessions json spdlog l file c h =
    let (u, v, w, made) = construct-made json spdlog l file c h in
    ap (λ x. x.session_manager.sessions) (sym made)

-- A subscriber that stands in the blacklist of the file from which the application was constructed never has a session,
-- whatever requests come and in whatever order the threads of the running server go on.
pub construct-refused :
    (json : JsonLibrary) (spdlog : Spdlog) (l : Logging) (file : Option Text) (c : Components)
    (k : Text) {s : Server}
    → construct json spdlog l file ≡ returns c
    → IsListed json k file
    → Serves (new_server c.pool c.session_manager) s
    → find k s.manager.sessions ≡ none
unfolding find
construct-refused json spdlog l file c k h listed r =
    let none_yet : find k c.session_manager.sessions ≡ none =
      ap (find k) (construct-sessions json spdlog l file c h) in
    let banned = (construct-blacklist json spdlog l file c k h).1 listed in
    (Serves-IsRefused k c.pool c.session_manager (banned, none_yet) r).shut.1
