-- ===== src/App.antt =====
-- src/pgw_server_app.h and src/pgw_server_app.cpp: the class PGWServerApp, which loads the blacklist and puts the
-- parts together.
pub mod Construction
pub mod Lifetimes
pub mod Blacklist
pub mod Service
pub mod Logs
pub mod Shutdown
pub mod Main
pub mod Server
mod Tests
mod MainTests
use pgw.Base.{
  ℕ, Bool, true, false, List, [], ◌∷◌, Text, codes, Option, none, some, Outcome, returns, throws,
  terminates, ◌>>=◌, set_insert,
}
use pgw.Json.{JsonLibrary}
use pgw.Logger.{Spdlog, Logging, configure_logger, configure_component_logger}
use pgw.Config.{UdpConfig, HttpConfig, SessionConfig, load_json, load_configs}
use pgw.Sessions.State.{Manager, init}
use pgw.Cdr.{Writer, make_writer}
use pgw.Dispatcher.Workers.{Pool, new_pool}
use pgw.Http.{HttpServer, new_server}

module _ (json : JsonLibrary) where
  -- The loop over the array: what is no string is passed over.
  unfoldable pub insert_strings : List json.Value → List Text → List Text
  insert_strings [] blacklist = blacklist
  insert_strings (v ∷ rest) blacklist = elim (json.as_string v) [
    | none ↦ insert_strings rest blacklist
    | some imsi ↦ insert_strings rest (set_insert imsi blacklist)
  ]

  -- The array under "blacklist", if there is one.
  unfoldable pub blacklist_array : json.Value → Option (List json.Value)
  blacklist_array j = elim (json.member_of (codes "blacklist") j) [
    | none ↦ none
    | some v ↦ json.as_array v
  ]

  unfoldable pub insert_array : Option (List json.Value) → List Text → List Text
  insert_array none blacklist = blacklist
  insert_array (some values) blacklist = insert_strings values blacklist

  -- The `try` block and its `catch` clause, which only logs.
  unfoldable pub insert_loaded : Outcome json.Value → List Text → List Text
  insert_loaded (returns j) blacklist = insert_array (blacklist_array j) blacklist
  insert_loaded (throws what) blacklist = blacklist
  insert_loaded terminates blacklist = blacklist

  unfoldable pub load_blacklist : Option Text → List Text → List Text
  load_blacklist file blacklist = insert_loaded (load_json json file) blacklist

-- The parts that `init_components` makes; the writer of the CDR file, which may throw, comes first. The two ports
-- are those that the servers get.
pub record Components : Type 0 where
  pub cdr_writer : Writer
  pub session_manager : Manager
  pub pool : Pool
  pub udp_port : ℕ
  pub http_port : ℕ
  pub http : HttpServer

unfoldable pub init_components :
    Writer → UdpConfig → HttpConfig → SessionConfig → List Text → Components
init_components cdr_writer udp_config http_config session_config blacklist = record {
  cdr_writer = cdr_writer;
  session_manager =
      init session_config.session_timeout_sec session_config.shutdown_rate blacklist true;
  pool = new_pool session_config.threads_count;
  udp_port = udp_config.port;
  http_port = http_config.port;
  http = new_server;
}

-- The default logger, then the macros UDP_INIT_LOGGER and HTTP_INIT_LOGGER.
unfoldable pub setup_logging : Spdlog → UdpConfig → HttpConfig → Logging → Outcome Logging
setup_logging spdlog udp_config http_config l = do
  l₁ ← configure_logger spdlog udp_config.log_file udp_config.log_level (codes "pgw") l
  l₂ ← configure_component_logger spdlog (codes "udp") udp_config.log_file udp_config.log_level l₁
  configure_component_logger spdlog (codes "http") http_config.log_file http_config.log_level l₂

-- The constructor, with the loggers that there are before.
unfoldable pub construct : JsonLibrary → Spdlog → Logging → Option Text → Outcome Components
construct json spdlog l file = do
  (udp_config, http_config, session_config) ← load_configs json file
  set_up ← setup_logging spdlog udp_config http_config l
  (cdr_writer, registered) ← make_writer spdlog session_config.cdr_file set_up
  returns (
      init_components cdr_writer udp_config http_config session_config
        (load_blacklist json file []))
