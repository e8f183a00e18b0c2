-- ===== src/App/Logs.antt =====
-- src/pgw_server_app.cpp: the loggers that `setup_logging` leaves.
use pgw.Base.{
  ◌++◌, ℕ, ◌≡◌, refl, ap, ◌∙◌, subst, true, none, List, [], ◌∷◌, All, Text, codes, Text_discrete,
  returns, ◌>>=◌,
}
use pgw.Config.{UdpConfig, HttpConfig}
use pgw.Logger.{
  Spdlog, Logger, Logging, Level, string_to_level, get_logger, named, configure_component_logger,
}
use pgw.Logger.Levels.{IsSound, IsHeardIn}
use pgw.Logger.Components.{
  nothing, first, first-IsSound, configure_logger-first, configure_component_logger-IsSound,
  configure_component_logger-returns,
}
use pgw.Logger.{register_logger, logger_exists, is_there}
use pgw.Cdr.{make_writer, new_writer, cdr_logger}
use pgw.Logger.{Message, udp_log, http_log, log_to}
use pgw.App.{setup_logging}

-- The macros of a component reach its logger, which has the level, and both of whose sinks let pass what it does.
abbrev pub IsLogged : (Level → Text → Logging → List Message) → Text → Logging → Type 0
IsLogged log level l =
    (g : Logger) × ((n : Level) (text : Text)
      → log n text l ≡ record { logger = g; level = n; text = text } ∷ [])
    × (g.level ≡ string_to_level level)
    × IsHeardIn l g

abbrev component : Text → Text → ℕ → Logger
component name level sink = record { name = name; level = string_to_level level; sink = sink }

-- Of three loggers with the names that `setup_logging` gives, the second and the first are found.
three-IsLogged :
    (l : Logging) (udp_level http_level : Text) (i j : ℕ) (rest : List Logger)
    → IsSound l
    → l.loggers ≡ component (codes "http") http_level j ∷ component (codes "udp") udp_level i ∷ rest
    → IsLogged udp_log udp_level l × IsLogged http_log http_level l
unfolding udp_log http_log get_logger Text_discrete
three-IsLogged l udp_level http_level i j rest v e =
    let heard : All (IsHeardIn l)
        (component (codes "http") http_level j ∷ component (codes "udp") udp_level i ∷ rest) =
      subst (All (IsHeardIn l)) e v.heard in
    (
      (
        component (codes "udp") udp_level i,
        (λ n text. ap (λ gs. log_to (named (codes "udp") gs) n text) e),
        refl,
        heard.1.0,
      ),
      (
        component (codes "http") http_level j,
        (λ n text. ap (λ gs. log_to (named (codes "http") gs) n text) e),
        refl,
        heard.0,
      ),
    )

-- If both files can be opened, the loggers are set up, from a state without any: the macros of "udp" and "http"
-- reach a logger each, of the level that its configuration asks for, and nothing that it lets through is dropped
-- by its file's sink or the console's, also if the two share a file. The name "cdr" is still free.
pub setup_logging-IsLogged :
    (spdlog : Spdlog) (u : UdpConfig) (h : HttpConfig)
    → spdlog.opens u.log_file ≡ true
    → spdlog.opens h.log_file ≡ true
    → (l : Logging) × (setup_logging spdlog u h nothing ≡ returns l)
      × IsLogged udp_log u.log_level l
      × IsLogged http_log h.log_level l
      × (get_logger (codes "cdr") l ≡ none)
unfolding get_logger setup_logging Text_discrete string_to_level
setup_logging-IsLogged spdlog u h ou oh =
    let l₀ = first u.log_file u.log_level (codes "pgw") in
    let e₀ = configure_logger-first spdlog u.log_file u.log_level (codes "pgw") ou in
    let v₀ = first-IsSound u.log_file u.log_level (codes "pgw") in
    let (l₁, s₁, e₁, g₁) =
      configure_component_logger-returns spdlog (codes "udp") u.log_file u.log_level l₀ ou refl in
    let v₁ =
      configure_component_logger-IsSound spdlog (codes "udp") u.log_file u.log_level l₀ l₁ v₀ e₁ in
    let free : named (codes "http") l₁.loggers ≡ none = ap (named (codes "http")) g₁ in
    let (l₂, s₂, e₂, g₂) =
      configure_component_logger-returns spdlog (codes "http") h.log_file h.log_level l₁ oh free in
    let v₂ =
      configure_component_logger-IsSound spdlog (codes "http") h.log_file h.log_level l₁ l₂ v₁ e₂ in
    let chain : setup_logging spdlog u h nothing ≡ returns l₂ =
      ap
        (λ o. o >>= (λ a.
          configure_component_logger spdlog (codes "udp") u.log_file u.log_level a
          >>= configure_component_logger spdlog (codes "http") h.log_file h.log_level))
        e₀
      ∙ ap (λ o. o >>= configure_component_logger spdlog (codes "http") h.log_file h.log_level) e₁
      ∙ e₂ in
    let (served_udp, served_http) =
      three-IsLogged l₂ u.log_level h.log_level s₁ s₂ l₀.loggers v₂
        (g₂ ∙ ap (λ gs. component (codes "http") h.log_level s₂ ∷ gs) g₁) in
    (
      l₂,
      chain,
      served_udp,
      served_http,
      ap (named (codes "cdr")) (g₂ ∙ ap (λ gs. component (codes "http") h.log_level s₂ ∷ gs) g₁),
    )

-- A free name and a file that can be opened are enough for the writer of the CDR file.
pub make_writer-new_writer :
    (spdlog : Spdlog) (file : Text) (l : Logging)
    → spdlog.opens file ≡ true
    → get_logger (codes "cdr") l ≡ none
    → (m : Logging) × (make_writer spdlog file l ≡ returns (new_writer, m))
unfolding make_writer register_logger logger_exists get_logger
make_writer-new_writer spdlog file l o free =
    let m : Logging = record l { sinks = l.sinks ++ spdlog.initial ∷ [] } in
    (record m { loggers = cdr_logger l ∷ m.loggers }, rw (o, free, is_there) refl)
