-- ===== src/Cdr.antt =====
-- src/cdr_writer.h and src/cdr_writer.cpp: the class CDRWriter. `gmtime` and `strftime` are the C
-- library's: the text of a second since the epoch is a parameter, `calendar`. The file behind the logger
-- is the list of lines handed to it; spdlog's rotation is left out.
pub mod Format
pub mod Lines
pub mod Reading
mod Tests
use pgw.Base.{
  ℕ, zero, suc, ◌+◌, ◌*◌, ◌/◌, ◌%◌, ◌^◌, ltb, ◌==◌, Bool, true, false, List, [], ◌∷◌, ◌++◌, Text,
  codes, if◌then◌else◌, length, Outcome, returns, throws, ◌>>=◌,
}
use pgw.Logger.{Spdlog, Logger, Logging, register_logger}
use pgw.Sessions.State.{SessionAction, SessionEvent, created, rejected, timeout, graceful_shutdown}

unfoldable pub action_to_string : SessionAction → Text
action_to_string created = codes "CREATED"
action_to_string rejected = codes "REJECTED"
action_to_string timeout = codes "TIMEOUT"
action_to_string graceful_shutdown = codes "GRACEFUL_SHUTDOWN"

-- `std::to_string`, for numbers of at most as many digits as there is fuel.
digits_of : ℕ → ℕ → Text
digits_of zero n = []
digits_of (suc fuel) n =
    let more = digits_of fuel (n / 10) in (if ltb n 10 then [] else more) ++ (b'0' + n % 10) ∷ []

-- Nineteen digits are enough for an `int64_t`.
unfoldable pub to_string : ℕ → Text
unfolding digits_of
to_string n = digits_of 19 n

abbrev pub Calendar : Type 0
Calendar = ℕ → Text

-- A time point is in nanoseconds since the epoch.
unfoldable pub milliseconds_text : ℕ → Text
milliseconds_text ms =
    (if ltb ms 100 then codes "0" else []) ++ (if ltb ms 10 then codes "0" else []) ++ to_string ms

unfoldable pub format_timestamp : Calendar → ℕ → Text
format_timestamp calendar tp =
    let ms = tp / 1000000 % 1000 in
    calendar (tp / 1000000000) ++ (codes "." ++ milliseconds_text ms)

unfoldable pub format_record : Calendar → Text → SessionAction → ℕ → Text
format_record calendar imsi action timestamp =
    format_timestamp calendar timestamp
    ++ (codes "," ++ (imsi ++ (codes "," ++ action_to_string action)))

-- `lines` are the lines that the logger got from this writer, oldest first; those of an earlier run, behind which the sink
-- of the file writes them, are not among them. `has_logger` says that `cdr_logger_` is set.
pub record Writer : Type 0 where
  pub has_logger : Bool
  pub lines : List Text
  pub total_records : ℕ

unfoldable pub new_writer : Writer
new_writer = record {
  has_logger = true;
  lines = codes "# CDR Log - Format: timestamp,IMSI,action" ∷ [];
  total_records = 0;
}

-- The constructor's logger: it has a file sink of its own, which is not in the registry of files.
abbrev pub cdr_logger : Logging → Logger
cdr_logger l = record { name = codes "cdr"; level = 2; sink = length l.sinks }

-- The constructor: the sink throws if it cannot open the file, `register_logger` if there is a logger "cdr".
unfoldable pub make_writer : Spdlog → Text → Logging → Outcome (Writer × Logging)
make_writer spdlog filename l =
    if spdlog.opens filename
    then (do
      m ← register_logger (cdr_logger l) (record l { sinks = l.sinks ++ spdlog.initial ∷ [] })
      returns (new_writer, m))
    else throws (codes "Failed opening file")

-- `total_records_++` on a `size_t`.
unfoldable pub write_line : Text → Writer → Writer
write_line line w = record w {
  lines = w.lines ++ line ∷ [];
  total_records = (w.total_records + 1) % 2 ^ 64;
}

-- `write_record(imsi, action)` stamps the record with the time of the call.
unfoldable pub write_record_now : Calendar → ℕ → Text → SessionAction → Writer → Writer
write_record_now calendar now imsi action w =
    if w.has_logger then write_line (format_record calendar imsi action now) w else w

-- `write_record(event)`, which the callback of `create_cdr_callback` calls.
unfoldable pub write_record : Calendar → SessionEvent → Writer → Writer
write_record calendar event w =
    if w.has_logger
    then write_line (format_record calendar event.imsi event.action event.timestamp) w
    else w

-- The callback over the events that a SessionManager delivers, in their order.
unfoldable pub cdr_callback : Calendar → List SessionEvent → Writer → Writer
cdr_callback calendar [] w = w
cdr_callback calendar (e ∷ es) w = cdr_callback calendar es (write_record calendar e w)
