-- ===== src/App/Main.antt =====
-- src/main.cpp and `run` of src/pgw_server_app.cpp: from the arguments of the program to the point at which the members of
-- the application are destroyed, which is after ENTER, or when the UDP server's constructor throws.
use pgw.Base.{
  ℕ, ◌≡◌, ◌≤◌, ◌⊎◌, inl, inr, refl, sym, ◌∙◌, ap, subst, true, false, Option, none, some, List, [],
  ◌∷◌, Text, Outcome, returns, throws, terminates, ◌>>=◌,
}
use pgw.Json.{JsonLibrary}
use pgw.Logger.{Spdlog}
use pgw.Logger.Components.{nothing}
use pgw.App.{setup_logging}
use pgw.Cdr.{new_writer, make_writer}
use pgw.App.Logs.{make_writer-new_writer}
use pgw.App.Logs.{setup_logging-IsLogged}
use pgw.Config.{UdpConfig, HttpConfig, SessionConfig, load_configs}
use pgw.Fd.{Fds}
use pgw.Http.{HttpServer, new_server}
use pgw.Http
use pgw.Dispatcher.Workers.{new_pool, Reach, here}
use pgw.Udp.Setup.{Answers, all_well, IsSetUp, IsUndone, construct_lem}
use pgw.Udp.Setup
use pgw.App.{Components, init_components, load_blacklist, construct}
use pgw.App.Shutdown.{Process, leaving, stopping, joining, Proceeds, Proceeds-joining}

-- `main` returns a number, or the members are destroyed next, or the process is ended before.
pub data Launch : Type 0 where
  exits : ℕ → Launch
  leaves : Process → Launch
  dies : Launch

-- The calls of `start`; the UDP server's only makes its thread.
abbrev pub start_servers : Components → Fds → Outcome HttpServer → Launch
start_servers c s (returns http) = leaves (leaving c.pool (some http) (some true) s)
start_servers c s (throws what) = leaves (leaving c.pool (some c.http) (some true) s)
start_servers c s terminates = dies

-- The UDP server is made after the dispatcher and before the HTTP server.
abbrev pub make_servers : Components → Outcome (Unit {0}) × Fds → Launch
make_servers c (returns u, s) = start_servers c s (Http.start c.http)
make_servers c (throws what, s) = leaves (leaving c.pool none none s)
make_servers c (terminates, s) = dies

abbrev pub run : Answers → Fds → Outcome Components → Launch
run a s (returns c) = make_servers c (Setup.construct a s)
run a s (throws what) = exits 1
run a s terminates = dies

unfoldable pub main :
    JsonLibrary → Spdlog → (Text → Option Text) → Answers → Fds → List Text → Launch
main json spdlog files a s [] = exits 1
main json spdlog files a s (name ∷ []) = exits 1
main json spdlog files a s (name ∷ path ∷ rest) =
    run a s (construct json spdlog nothing (files path))

-- The HTTP server after its first start.
abbrev pub serving : HttpServer
serving = record new_server { running = true; joinable = true }

-- The process that leaves, after both servers were started or because the socket could not be set up.
abbrev pub IsLaunched : ℕ → Answers → Fds → Process → Type 0
IsLaunched n a s q =
    (q.stage ≡ stopping)
    × (q.pool ≡ new_pool n)
    × (((q.udp ≡ some true) × (q.http ≡ some serving) × (all_well a ≡ true) × IsSetUp a s q.fds)
        ⊎ ((q.udp ≡ none) × (q.http ≡ none) × (all_well a ≡ false) × IsUndone a s q.fds))

make_servers-started :
    (c : Components) (o : Outcome (Unit {0}) × Fds)
    → o.0 ≡ returns tt
    → c.http ≡ new_server
    → make_servers c o ≡ leaves (leaving c.pool (some serving) (some true) o.1)
unfolding Http.start
make_servers-started c (returns u, s) e h = ap (λ http. start_servers c s (Http.start http)) h
make_servers-started c (throws what, s) e h = absurd cc
make_servers-started c (terminates, s) e h = absurd cc

make_servers-thrown :
    (c : Components) (o : Outcome (Unit {0}) × Fds) (what : Text)
    → o.0 ≡ throws what
    → make_servers c o ≡ leaves (leaving c.pool none none o.1)
make_servers-thrown c (returns u, s) what e = absurd cc
make_servers-thrown c (throws other, s) what e = refl
make_servers-thrown c (terminates, s) what e = absurd cc

make_servers-IsLaunched :
    (n : ℕ) (c : Components) (a : Answers) (s : Fds)
    → c.pool ≡ new_pool n
    → c.http ≡ new_server
    → (q : Process) × (make_servers c (Setup.construct a s) ≡ leaves q) × IsLaunched n a s q
make_servers-IsLaunched n c a s p h = elim (construct_lem a s) [
  | inl (w, e, v) ↦ (
    leaving c.pool (some serving) (some true) (Setup.construct a s).1,
    make_servers-started c (Setup.construct a s) e h,
    (refl, p, inl (refl, refl, w, v)),
  )
  | inr (w, what, e, v) ↦ (
    leaving c.pool none none (Setup.construct a s).1,
    make_servers-thrown c (Setup.construct a s) what e,
    (refl, p, inr (refl, refl, w, v)),
  )
]

-- With a configuration that loads and files for logs and CDRs that can be opened, `main` comes to the destruction
-- of an application with as many workers as the file says: if every system call of the UDP server's constructor
-- goes well, after both servers were started, the HTTP server's flag and thread set and the two descriptors owned; if any
-- fails, because the constructor threw, with neither server made and what was opened closed once.
pub main-IsLaunched :
    (json : JsonLibrary) (spdlog : Spdlog) (files : Text → Option Text) (a : Answers) (s : Fds)
    (name path : Text) (rest : List Text) (u : UdpConfig) (h : HttpConfig) (k : SessionConfig)
    → load_configs json (files path) ≡ returns (u, h, k)
    → spdlog.opens u.log_file ≡ true
    → spdlog.opens h.log_file ≡ true
    → spdlog.opens k.cdr_file ≡ true
    → (q : Process) × (main json spdlog files a s (name ∷ path ∷ rest) ≡ leaves q)
      × IsLaunched k.threads_count a s q
unfolding main construct init_components
main-IsLaunched json spdlog files a s name path rest u h k e ou oh ok =
    let blacklist = load_blacklist json (files path) [] in
    let c = init_components new_writer u h k blacklist in
    let (l, logged, served_udp, served_http, free) = setup_logging-IsLogged spdlog u h ou oh in
    let (registered, made) = make_writer-new_writer spdlog k.cdr_file l ok free in
    let (q, f, v) = make_servers-IsLaunched k.threads_count c a s refl refl in
    (
      q,
      ap (run a s) (
            ap
              (λ o. o >>= λ (u, h, k). setup_logging spdlog u h nothing >>= λ l.
                make_writer spdlog k.cdr_file l >>= λ (w, r).
                returns (init_components w u h k blacklist))
              e
            ∙ ap
                (λ o. o >>= λ l. make_writer spdlog k.cdr_file l >>= λ (w, r).
                  returns (init_components w u h k blacklist))
                logged
            ∙ ap (λ o. o >>= λ (w, r). returns (init_components w u h k blacklist)) made)
          ∙ f,
      v,
    )

-- With a configuration that loads and asks for a worker or more, and files for logs and CDRs that can be opened,
-- the process that `main` comes to stays, whatever steps follow, before the destructor of the dispatcher or in its
-- `join`s.
pub main-waits :
    (json : JsonLibrary) (spdlog : Spdlog) (files : Text → Option Text) (a : Answers) (s : Fds)
    (name path : Text) (rest : List Text) (u : UdpConfig) (h : HttpConfig) (k : SessionConfig)
    {q r : Process}
    → load_configs json (files path) ≡ returns (u, h, k)
    → spdlog.opens u.log_file ≡ true
    → spdlog.opens h.log_file ≡ true
    → spdlog.opens k.cdr_file ≡ true
    → 1 ≤ k.threads_count
    → main json spdlog files a s (name ∷ path ∷ rest) ≡ leaves q
    → Proceeds q r
    → (r.stage ≡ stopping) ⊎ (r.stage ≡ joining)
main-waits json spdlog files a s name path rest u h k {q} e ou oh ok some_worker m steps =
    let (launched, f, v) = main-IsLaunched json spdlog files a s name path rest u h k e ou oh ok in
    let same : launched ≡ q = cc (f, m) in
    let (stage, pool, made) = subst (IsLaunched k.threads_count a s) same v in
    Proceeds-joining k.threads_count q some_worker stage
      (subst (Reach (new_pool k.threads_count)) (sym pool) here) steps
