-- ===== src/App/MainTests.antt =====
-- src/main.cpp: the way from the start to the end, at inputs.
use pgw.Base.{
  ap, ◌≡◌, ◌⊎◌, refl, arith, true, false, List, [], ◌∷◌, Text, codes, Option, some, none,
}
use pgw.Fd
use pgw.Fd.{pos, negsuc, Fds}
use pgw.Dispatcher.Workers.{new_pool, stop_and_notify}
use pgw.Udp.Setup.{Answers}
use pgw.Udp.Setup
use pgw.App
use pgw.App.Shutdown.{Process, leaving, stopping, joining, unmoved, onward, stops_pool}
use pgw.App.Main.{run, main, leaves, exits, IsLaunched, main-IsLaunched, main-waits}
use pgw.App.Tests.{
  construct-one_text, spdlog, listed, one_text, udp_config, http_config, session_config,
  load_configs-one_text,
}

abbrev files : Text → Option Text
files path = some listed

abbrev arguments : List Text
arguments = codes "pgw" ∷ codes "config.json" ∷ []

-- The port is taken.
abbrev busy : Answers
busy = record {
  server_fd = pos 3;
  epoll_fd = pos 4;
  reuses_address = true;
  flags_read = true;
  flags_set = true;
  bound = false;
  added = true;
}

abbrev no_fds : Fds
no_fds = record { objects = []; closed = []; released = [] }

-- The constructor has thrown: both descriptors are closed.
abbrev unbound : Process
unbound =
    leaving (new_pool 20) none none
      (record { objects = []; closed = pos 3 ∷ pos 4 ∷ []; released = [] })

no_arguments : main one_text spdlog files busy no_fds (codes "pgw" ∷ []) ≡ exits 1
unfolding main
no_arguments = refl

main-unbound : main one_text spdlog files busy no_fds arguments ≡ leaves unbound
unfolding main App.init_components Setup.construct Setup.set_up Fd.construct Fd.destruct Fd.get
main-unbound = ap (run busy no_fds) construct-one_text

main-IsLaunched_example :
    (q : Process) × (main one_text spdlog files busy no_fds arguments ≡ leaves q)
    × IsLaunched 20 busy no_fds q
main-IsLaunched_example =
    main-IsLaunched one_text spdlog files busy no_fds (codes "pgw") (codes "config.json") []
      udp_config http_config session_config load_configs-one_text refl refl refl

abbrev waiting : Process
waiting = record unbound { stage = joining; pool = stop_and_notify unbound.pool }

main-waits_example : (joining ≡ stopping) ⊎ (joining ≡ joining)
main-waits_example =
    main-waits one_text spdlog files busy no_fds (codes "pgw") (codes "config.json") [] udp_config
      http_config session_config {q = unbound} {r = waiting} load_configs-one_text refl refl refl
      (omega arith) main-unbound (onward unmoved (stops_pool unbound refl))
