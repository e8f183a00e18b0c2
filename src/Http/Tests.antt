-- ===== src/Http/Tests.antt =====
-- src/http_server.cpp: the theorems at inputs. The JSON library here knows one request.
use pgw.Base.{◌≡◌, refl, true, false, [], ◌∷◌, Text, codes, terminates, ◌>>=◌}
use pgw.Sessions.State.{Manager, init}
use pgw.Sessions.Requests.{add_to_blacklist}
use pgw.Sessions.Shutdown.{start_graceful_shutdown}
use pgw.Sessions.Interleaving.{here, next, bans}
use pgw.Http.{HttpServer, text_plain, new_server, handle_stop, start, stop, listen_ended, destroy}
use pgw.Http.Handlers.{handle_stop-handle_stop}
use pgw.Http.Lifecycle.{
  started, detached_exchange, follow, follow_all, undergo_all, undergo_all-destroy,
  listen_ended-start,
}

abbrev subscriber : Text
subscriber = codes "123456789012345"

abbrev manager : Manager
manager = init 30 20 [] true

abbrev shutting : Manager
shutting = record manager { graceful_shutdown_active = true; graceful_joinable = true }

abbrev asked : HttpServer
asked = record {
  running = true;
  joinable = true;
  shutdown_requested = true;
  stopping = false;
  pending_stops = 1;
}

abbrev up : HttpServer
up = record {
  running = true;
  joinable = true;
  shutdown_requested = false;
  stopping = false;
  pending_stops = 0;
}

handle_stop-handle_stop_example :
    handle_stop asked (add_to_blacklist subscriber shutting) ≡ terminates
unfolding add_to_blacklist init handle_stop start_graceful_shutdown
handle_stop-handle_stop_example =
    handle_stop-handle_stop up manager shutting asked
      (text_plain 200 (codes "Graceful shutdown initiated")) asked []
      (add_to_blacklist subscriber shutting) refl (next here (bans subscriber shutting)) refl

-- The destructor comes between the two steps of a detached thread's `stop`.
undergo_all-destroy_example :
    (undergo_all (started ∷ detached_exchange ∷ []) new_server >>= destroy) ≡ terminates
unfolding follow_all follow
undergo_all-destroy_example = undergo_all-destroy (started ∷ detached_exchange ∷ [])

listen_ended-start_example :
    (stop (listen_ended up) ≡ listen_ended up)
    × (destroy (listen_ended up) ≡ terminates)
    × (start (listen_ended up) ≡ terminates)
unfolding start
listen_ended-start_example = listen_ended-start new_server up refl refl
