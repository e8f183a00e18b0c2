-- ===== src/Logger.antt =====
-- utils/logger_config.cpp and utils/include/pgw_utils/logger_config.h: the class LoggerConfig. spdlog's loggers
-- and sinks are kept by their names and levels; what the library answers is an argument.
pub mod Levels
pub mod Components
mod Tests
use pgw.Base.{
  ℕ, ◌+◌, min, Bool, true, false, List, [], ◌∷◌, ◌++◌, Text, codes, ite, Text_discrete, Option,
  none, some, find, insert, erase, length, get_or, set, if◌then◌else◌, map, Outcome, returns,
  throws, ◌>>=◌,
}

-- `spdlog::level::level_enum`, from `trace` to `off`.
abbrev pub Level : Type 0
Level = ℕ

unfoldable pub string_to_level : Text → Level
string_to_level level = ite (Text_discrete level (codes "TRACE")) 0 (
    ite (Text_discrete level (codes "DEBUG")) 1 (
      ite (Text_discrete level (codes "INFO")) 2 (
        ite (Text_discrete level (codes "WARN")) 3 (
          ite (Text_discrete level (codes "ERROR")) 4 (
            ite (Text_discrete level (codes "CRITICAL")) 5
              (ite (Text_discrete level (codes "OFF")) 6 2))))))

-- What spdlog answers: the level of a new sink, whether a weak pointer to a sink can still be locked, and whether a
-- file can be opened.
pub record Spdlog : Type 0 where
  pub initial : Level
  pub alive : ℕ → Bool
  pub opens : Text → Bool

-- A logger: its name, its level, and the number of its file sink. All share the console sink.
pub record Logger : Type 0 where
  pub name : Text
  pub level : Level
  pub sink : ℕ

-- `console` is the level of the shared console sink, `sinks` are those of the file sinks, by number; the registry
-- maps a file to the number of its sink. `loggers` are those that spdlog knows.
pub record Logging : Type 0 where
  pub console : Level
  pub sinks : List Level
  pub registry : List (Text × ℕ)
  pub loggers : List Logger

-- `spdlog::get`.
abbrev pub named : Text → List Logger → Option Logger
named name [] = none
named name (g ∷ rest) = ite (Text_discrete name g.name) (some g) (named name rest)

unfoldable pub get_logger : Text → Logging → Option Logger
get_logger name l = named name l.loggers

abbrev pub is_there : Option Logger → Bool
is_there none = false
is_there (some g) = true

unfoldable pub logger_exists : Text → Logging → Bool
logger_exists name l = is_there (get_logger name l)

abbrev pub without : Text → List Logger → List Logger
without name [] = []
without name (g ∷ rest) =
    ite (Text_discrete name g.name) (without name rest) (g ∷ without name rest)

-- `spdlog::set_default_logger`: the logger is entered under its name.
unfoldable pub set_default_logger : Logger → Logging → Logging
set_default_logger g l = record l { loggers = g ∷ without g.name l.loggers }

abbrev pub releveled : Level → Logger → Logger
releveled level g = record g { level = level }

-- `spdlog::set_level`, for all loggers.
abbrev pub set_level : Level → Logging → Logging
set_level level l = record l { loggers = map (releveled level) l.loggers }

-- `spdlog::register_logger`.
unfoldable pub register_logger : Logger → Logging → Outcome Logging
register_logger g l =
    if logger_exists g.name l
    then throws (codes "already exists")
    else returns (record l { loggers = g ∷ l.loggers })

unfoldable pub register_file_sink : Text → ℕ → Logging → Logging
register_file_sink log_file sink l = record l { registry = insert log_file sink l.registry }

-- What `lock` makes of an entry: one whose sink is gone is erased.
abbrev pub locked : Text → Logging → ℕ → Bool → Logging × Option ℕ
locked log_file l sink true = (l, some sink)
locked log_file l sink false = (record l { registry = erase log_file l.registry }, none)

abbrev pub looked_up : (ℕ → Bool) → Text → Logging → Option ℕ → Logging × Option ℕ
looked_up alive log_file l none = (l, none)
looked_up alive log_file l (some sink) = locked log_file l sink (alive sink)

unfoldable pub find_existing_file_sink : (ℕ → Bool) → Text → Logging → Logging × Option ℕ
find_existing_file_sink alive log_file l = looked_up alive log_file l (find log_file l.registry)

-- A new sink with the next number.
unfoldable pub make_sink : Level → Text → Logging → Logging × ℕ
make_sink level log_file l = (
  register_file_sink log_file (length l.sinks) (record l { sinks = l.sinks ++ level ∷ [] }),
  length l.sinks,
)

-- The constructor of a rotating sink throws if it cannot open its file.
unfoldable pub open_sink : Spdlog → Level → Text → Logging → Outcome (Logging × ℕ)
open_sink spdlog level log_file l =
    if spdlog.opens log_file
    then returns (make_sink level log_file l)
    else throws (codes "Failed opening file")

-- What a call that throws leaves behind is not kept: `main` ends then.
unfoldable pub configure_logger : Spdlog → Text → Text → Text → Logging → Outcome Logging
unfolding open_sink
configure_logger spdlog log_file log_level logger_name l = do
  (m, sink) ← open_sink spdlog (string_to_level log_level) log_file l
  returns (
      set_level (string_to_level log_level) (
        set_default_logger
          (record { name = logger_name; level = string_to_level log_level; sink = sink })
          (record m { console = string_to_level log_level })))

-- The sink that a component shares or makes.
abbrev pub choose_sink : Spdlog → Text → Logging × Option ℕ → Outcome (Logging × ℕ)
choose_sink spdlog log_file (l, none) = open_sink spdlog spdlog.initial log_file l
choose_sink spdlog log_file (l, some sink) = returns (l, sink)

-- Levels only go down, to the lesser of what they were and the component's.
unfoldable pub attach : Level → Logging → ℕ → Logging
attach level l sink = record l {
  sinks = set l.sinks sink (min (get_or l.sinks sink 0) level);
  console = min l.console level;
}

unfoldable pub configure_component_logger : Spdlog → Text → Text → Text → Logging → Outcome Logging
configure_component_logger spdlog component_name log_file log_level l = do
  (m, sink) ← choose_sink spdlog log_file (find_existing_file_sink spdlog.alive log_file l)
  register_logger (record { name = component_name; level = string_to_level log_level; sink = sink })
      (attach (string_to_level log_level) m sink)

-- A call of one of the macros: the message goes to the component's logger if there is one.
pub record Message : Type 0 where
  pub logger : Logger
  pub level : Level
  pub text : Text

abbrev pub log_to : Option Logger → Level → Text → List Message
log_to none level text = []
log_to (some logger) level text = record { logger = logger; level = level; text = text } ∷ []

-- `UDP_LOG_TRACE` to `UDP_LOG_ERROR` by their level, and those of HTTP.
unfoldable pub udp_log : Level → Text → Logging → List Message
udp_log level text l = log_to (get_logger (codes "udp") l) level text

unfoldable pub http_log : Level → Text → Logging → List Message
http_log level text l = log_to (get_logger (codes "http") l) level text
