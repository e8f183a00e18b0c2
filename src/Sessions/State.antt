-- ===== src/Sessions/State.antt =====
-- src/session_manager.h: the data of SessionManager, its constructor, and the events it emits.
-- Times are nanoseconds of `steady_clock` or `system_clock`; the readings of the clocks enter as
-- arguments. A `unique_ptr<Session>` is the session that it owns.
use pgw.Base.{
  ℕ, Bool, true, false, List, [], ◌∷◌, ◌++◌, Text, if◌then◌else◌, ◌+◌, ◌*◌, ite, Text_discrete,
}

pub data SessionAction : Type 0 where
  created rejected timeout graceful_shutdown : SessionAction

unfoldable pub SessionAction_discrete : Discrete SessionAction
SessionAction_discrete = hlevel

pub record SessionEvent : Type 0 where
  pub imsi : Text
  pub action : SessionAction
  pub timestamp : ℕ

pub record Session : Type 0 where
  pub imsi : Text
  pub created_at : ℕ
  pub last_activity : ℕ

-- One reading of `steady_clock::now()` and one of `system_clock::now()`. In a pass of the cleanup, which reads the system
-- clock again for each event, `ticks` has these readings, by the keys that are left.
pub record Instant : Type 0 where
  pub steady : ℕ
  pub system : ℕ
  pub ticks : ℕ → ℕ

abbrev pub later : Instant → ℕ → Instant
later now left = record now { system = now.ticks left }

unfoldable pub new_session : Instant → Text → Session
new_session now imsi = record { imsi = imsi; created_at = now.steady; last_activity = now.steady }

-- `has_callback` says whether `event_callback_` is set, and `delivered` lists the events that it was
-- called with, oldest first. A joinable thread handle is one that a thread was started in and that was
-- not joined yet.
pub record Manager : Type 0 where
  pub sessions : List (Text × Session)
  pub blacklist : List Text
  pub session_timeout : ℕ
  pub has_callback : Bool
  pub delivered : List SessionEvent
  pub running : Bool
  pub graceful_shutdown_active : Bool
  pub shutdown_rate : ℕ
  pub cleanup_joinable : Bool
  pub graceful_joinable : Bool

-- `std::chrono::seconds` in nanoseconds.
abbrev pub seconds : ℕ → ℕ
seconds n = n * 1000000000

-- The constructor starts the cleanup thread.
unfoldable pub init : ℕ → ℕ → List Text → Bool → Manager
init limit shutdown_rate blacklist callback = record {
  sessions = [];
  blacklist = blacklist;
  session_timeout = seconds limit;
  has_callback = callback;
  delivered = [];
  running = true;
  graceful_shutdown_active = false;
  shutdown_rate = shutdown_rate;
  cleanup_joinable = true;
  graceful_joinable = false;
}

-- The destructor clears both flags and joins both threads.
unfoldable pub destroy : Manager → Manager
destroy m = record m {
  running = false;
  graceful_shutdown_active = false;
  cleanup_joinable = false;
  graceful_joinable = false;
}

unfoldable pub emit_event : ℕ → Text → SessionAction → Manager → Manager
emit_event system imsi action m =
    if m.has_callback
    then record m {
      delivered = m.delivered ++ record { imsi = imsi; action = action; timestamp = system } ∷ [];
    }
    else m

-- The events of one action about one subscriber.
unfoldable pub count_events : Text → SessionAction → List SessionEvent → ℕ
count_events k a [] = 0
count_events k a (e ∷ es) =
    ite (Text_discrete e.imsi k) (ite (SessionAction_discrete e.action a) 1 0) 0
    + count_events k a es
