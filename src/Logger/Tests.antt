-- ===== src/Logger/Tests.antt =====
-- utils/logger_config.cpp and utils/include/pgw_utils/logger_config.h: runs at inputs.
use pgw.Base.{◌≡◌, refl, true, [], ◌∷◌, Text_discrete, codes, find, length, returns, throws}
use pgw.Logger.{
  Spdlog, Logging, configure_component_logger, register_logger, logger_exists, get_logger,
  find_existing_file_sink, attach, string_to_level, udp_log, http_log,
}
use pgw.Logger.Components.{first}

abbrev spdlog : Spdlog
spdlog = record { initial = 0; alive = (λ sink. true); opens = (λ file. true) }

abbrev with_udp : Logging
with_udp = record {
  console = 1;
  sinks = 1 ∷ [];
  registry = (codes "pgw.log", 0) ∷ [];
  loggers =
      record { name = codes "udp"; level = 1; sink = 0 }
      ∷ record { name = codes "pgw"; level = 2; sink = 0 }
      ∷ [];
}

-- The component shares the file and lowers the level of its sink.
configure_component_logger_shared :
    configure_component_logger spdlog
      (codes "udp")
      (codes "pgw.log")
      (codes "DEBUG")
      (first (codes "pgw.log") (codes "INFO") (codes "pgw"))
    ≡ returns with_udp
unfolding configure_component_logger find_existing_file_sink register_logger logger_exists
    get_logger attach find string_to_level Text_discrete
configure_component_logger_shared = refl

-- A second logger of one name is refused.
configure_component_logger_twice :
    configure_component_logger spdlog (codes "udp") (codes "pgw.log") (codes "INFO") with_udp
    ≡ throws (codes "already exists")
unfolding configure_component_logger find_existing_file_sink register_logger logger_exists
    get_logger attach find string_to_level Text_discrete
configure_component_logger_twice = refl

-- A macro of a component without a logger does nothing.
http_log_silent : http_log 2 (codes "started") with_udp ≡ []
unfolding http_log get_logger Text_discrete
http_log_silent = refl

udp_log_heard : length (udp_log 0 (codes "started") with_udp) ≡ 1
unfolding udp_log get_logger Text_discrete
udp_log_heard = refl
