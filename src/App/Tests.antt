-- ===== src/App/Tests.antt =====
-- src/pgw_server_app.cpp: the theorems at inputs. The JSON library here reads any file as a list of two texts.
use pgw.Base.{
  Bool, false, none, find, insert, Text_discrete, ℕ, ◌≡◌, refl, ◌↔◌, arith, true, List, [], ◌∷◌,
  ◌++◌, map, Text, codes, some, returns, member, replicate,
}
use pgw.Json.{JsonLibrary}
use pgw.Logger.{
  udp_log, http_log, Spdlog, Logging, configure_logger, configure_component_logger, open_sink,
  make_sink, register_file_sink, set_default_logger, register_logger, logger_exists, get_logger,
  find_existing_file_sink, attach,
}
use pgw.Logger.Components.{nothing}
use pgw.Cdr.{make_writer, new_writer}
use pgw.App.Logs.{IsLogged, setup_logging-IsLogged}
use pgw.Events.{Address, Event}
use pgw.Sessions.State.{Manager, init}
use pgw.Config.{
  UdpConfig, HttpConfig, SessionConfig, load_configs, load_config, load_json, udp_from_json,
  http_from_json, session_from_json, at, get_text, get_unsigned,
}
use pgw.Dispatcher.{handle_events}
use pgw.Udp.{Server, Accepts, would_block, returned, process_incoming_packets}
use pgw.App.{setup_logging, Components, construct, init_components, load_blacklist}
use pgw.App.Blacklist.{IsListed, construct-blacklist}
use pgw.App.Lifetimes
use pgw.App.Lifetimes.{Object, cdr_writer, same, go_well, IsOwned, init_components-IsOwned}
use pgw.App.Service.{Request, sent_as, taken_at, create_all, promised, requests-promised}

abbrev pub listed : Text
listed = codes "001010123456789"

abbrev free : Text
free = codes "123456789012345"

-- A value is a text and stands for itself, for a list of itself, and for the number 20.
abbrev pub one_text : JsonLibrary
one_text = record {
  Value = Text;
  parse = λ body. some body;
  member_of = λ key value. some value;
  as_string = λ value. some value;
  as_array = λ value. some (value ∷ []);
  as_unsigned = λ width value. some 20;
}

-- Every file can be opened.
abbrev pub spdlog : Spdlog
spdlog = record { initial = 0; alive = (λ sink. true); opens = (λ file. true) }

abbrev pub udp_config : UdpConfig
udp_config = record { ip = listed; port = 20; log_level = listed; log_file = listed }

abbrev pub http_config : HttpConfig
http_config = record { port = 20; log_level = listed; log_file = listed }

abbrev pub session_config : SessionConfig
session_config = record {
  session_timeout_sec = 20;
  cdr_file = listed;
  threads_count = 20;
  shutdown_rate = 20;
}

abbrev pub components : Components
components =
    init_components new_writer udp_config http_config session_config
      (load_blacklist one_text (some listed) [])

pub load_configs-one_text :
    load_configs one_text (some listed) ≡ returns (udp_config, http_config, session_config)
unfolding load_configs load_config load_json udp_from_json http_from_json session_from_json at
    get_text get_unsigned
load_configs-one_text = refl

pub construct-one_text : construct one_text spdlog nothing (some listed) ≡ returns components
unfolding construct make_writer setup_logging configure_logger configure_component_logger open_sink
    make_sink register_file_sink set_default_logger register_logger logger_exists get_logger
    find_existing_file_sink attach find insert Text_discrete load_configs load_config load_json
    udp_from_json http_from_json session_from_json at get_text get_unsigned
construct-one_text = refl

construct-blacklist_example :
    (member listed components.session_manager.blacklist ≡ true)
    ↔ IsListed one_text listed (some listed)
construct-blacklist_example =
    construct-blacklist one_text spdlog nothing (some listed) components listed construct-one_text

abbrev client : Address
client = record { s_addr = 2130706433; sin_port = 5000 }

abbrev requests : List Request
requests =
    record {
      now = record { steady = 1; system = 1; ticks = λ left. 1 };
      imsi = free;
      client = client;
    }
    ∷ record {
      now = record { steady = 2; system = 2; ticks = λ left. 2 };
      imsi = listed;
      client = client;
    }
    ∷ []

abbrev manager : Manager
manager = init 30 20 (listed ∷ []) true

abbrev server : Server
server = record {
  running = true;
  server_fd = 3;
  queue = [];
  has_notification = true;
  notified = 0;
  sent = [];
}

abbrev roomy : Accepts
roomy queue = true

abbrev always : (queue : List Event) → roomy queue ≡ true
always queue = refl

abbrev buffer : List ℕ
buffer = replicate 1024 0

requests-promised_example :
    (later : List ℕ) × (t : Server) × (process_incoming_packets roomy
        (map sent_as requests ++ would_block ∷ [])
        buffer
        server
      ≡ returned later t)
    × (handle_events (taken_at requests t.queue) manager
        ≡ returns (create_all requests manager, map (promised manager.blacklist) requests))
requests-promised_example =
    requests-promised roomy requests buffer server manager always (omega arith) (omega arith) refl
      refl

setup_logging-IsLogged_example :
    (l : Logging) × (setup_logging spdlog udp_config http_config nothing ≡ returns l)
    × IsLogged udp_log listed l
    × IsLogged http_log listed l
    × (get_logger (codes "cdr") l ≡ none)
setup_logging-IsLogged_example = setup_logging-IsLogged spdlog udp_config http_config refl refl

-- The port of the UDP server is taken.
abbrev taken : Object → Bool
taken o = same o Object.udp

init_components-IsOwned_example :
    IsOwned taken Object.session_manager cdr_writer false true (Lifetimes.init_components taken)
unfolding same go_well
init_components-IsOwned_example = init_components-IsOwned taken Object.session_manager cdr_writer
