-- ===== src/Config.antt =====
-- src/server_config.h, utils/include/pgw_utils/config_loader.h and client/client_config.cpp: reading the configurations.
pub mod Fields
mod Tests
use pgw.Base.{
  ℕ, ◌^◌, ◌<◌, List, [], ◌∷◌, ◌++◌, Text, codes, Option, none, some, Outcome, returns, throws,
  terminates, ◌>>=◌,
}
use pgw.Json.{JsonLibrary}

pub record UdpConfig : Type 0 where
  pub ip : Text
  pub port : ℕ
  pub log_level : Text
  pub log_file : Text

pub record HttpConfig : Type 0 where
  pub port : ℕ
  pub log_level : Text
  pub log_file : Text

pub record SessionConfig : Type 0 where
  pub session_timeout_sec : ℕ
  pub cdr_file : Text
  pub threads_count : ℕ
  pub shutdown_rate : ℕ

pub record ClientConfig : Type 0 where
  pub server_ip : Text
  pub server_port : ℕ
  pub log_file : Text
  pub log_level : Text
  pub response_timeout_ms : ℕ

module _ (json : JsonLibrary) where
  -- `j.at(key)`. The texts of the library's exceptions are its own; here they say which field and what of it.
  unfoldable pub at : Text → json.Value → Outcome json.Value
  at key j = elim (json.member_of key j) [
    | none ↦ throws (codes "missing " ++ key)
    | some v ↦ returns v
  ]

  -- `get_to` of a `std::string`, and of an unsigned integer of a width.
  unfoldable pub get_text : Text → json.Value → Outcome Text
  get_text key v = elim (json.as_string v) [
    | none ↦ throws (codes "type of " ++ key)
    | some t ↦ returns t
  ]

  unfoldable pub get_unsigned : ℕ → Text → json.Value → Outcome ℕ
  get_unsigned width key v = elim (json.as_unsigned width v) [
    | none ↦ throws (codes "type of " ++ key)
    | some n ↦ returns n
  ]

  abbrev pub text_at : Text → json.Value → Outcome Text
  text_at key j = at key j >>= get_text key

  abbrev pub unsigned_at : ℕ → Text → json.Value → Outcome ℕ
  unsigned_at width key j = at key j >>= get_unsigned width key

  unfoldable pub udp_from_json : json.Value → Outcome UdpConfig
  udp_from_json j = do
    ip ← text_at (codes "udp_ip") j
    port ← unsigned_at 16 (codes "udp_port") j
    log_level ← text_at (codes "udp_log_level") j
    log_file ← text_at (codes "udp_log_file") j
    returns (record { ip = ip; port = port; log_level = log_level; log_file = log_file })

  unfoldable pub http_from_json : json.Value → Outcome HttpConfig
  http_from_json j = do
    port ← unsigned_at 16 (codes "http_port") j
    log_level ← text_at (codes "http_log_level") j
    log_file ← text_at (codes "http_log_file") j
    returns (record { port = port; log_level = log_level; log_file = log_file })

  unfoldable pub session_from_json : json.Value → Outcome SessionConfig
  session_from_json j = do
    session_timeout_sec ← unsigned_at 16 (codes "session_timeout_sec") j
    cdr_file ← text_at (codes "cdr_file") j
    threads_count ← unsigned_at 16 (codes "threads_count") j
    shutdown_rate ← unsigned_at 64 (codes "shutdown_rate") j
    returns (record {
      session_timeout_sec = session_timeout_sec;
      cdr_file = cdr_file;
      threads_count = threads_count;
      shutdown_rate = shutdown_rate;
    })

  unfoldable pub client_from_json : json.Value → Outcome ClientConfig
  client_from_json j = do
    server_ip ← text_at (codes "server_ip") j
    server_port ← unsigned_at 16 (codes "server_port") j
    log_level ← text_at (codes "log_level") j
    log_file ← text_at (codes "log_file") j
    response_timeout_ms ← unsigned_at 64 (codes "response_timeout_ms") j
    returns (record {
      server_ip = server_ip;
      server_port = server_port;
      log_file = log_file;
      log_level = log_level;
      response_timeout_ms = response_timeout_ms;
    })

  -- The contents of the file, if it can be opened.
  unfoldable pub load_json : Option Text → Outcome json.Value
  load_json none = throws (codes "Failed to open config")
  load_json (some contents) = elim (json.parse contents) [
    | none ↦ throws (codes "parse error")
    | some j ↦ returns j
  ]

  unfoldable pub load_config : {A : Type 0} → (json.Value → Outcome A) → Option Text → Outcome A
  load_config from_json file = load_json file >>= from_json

  -- The three configurations, of a file that is read three times.
  unfoldable pub load_configs : Option Text → Outcome (UdpConfig × HttpConfig × SessionConfig)
  load_configs file = do
    udp_config ← load_config udp_from_json file
    http_config ← load_config http_from_json file
    session_config ← load_config session_from_json file
    returns (udp_config, http_config, session_config)
