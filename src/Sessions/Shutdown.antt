-- ===== src/Sessions/Shutdown.antt =====
-- src/session_manager.cpp: `start_graceful_shutdown` and `graceful_shutdown_thread`.
use pgw.Base.{
  ℕ, zero, suc, true, false, ◌&&◌, List, ◌+◌, ◌/◌, ◌==◌, Option, none, some, Text, if◌then◌else◌,
  is_empty, find, erase, Outcome, returns, terminates,
}
use pgw.Sessions.State.{Manager, Session, graceful_shutdown, emit_event}

-- Assigning to a `std::thread` that is still joinable is `std::terminate`.
unfoldable pub start_graceful_shutdown : Manager → Outcome Manager
start_graceful_shutdown m =
    if m.graceful_joinable
    then terminates
    else returns (record m { graceful_shutdown_active = true; graceful_joinable = true })

-- `milliseconds(1000 / shutdown_rate_)`: a division by zero is undefined.
unfoldable pub sleep_duration : ℕ → Option ℕ
sleep_duration rate = if rate == 0 then none else some (1000 / rate)

-- `sessions_.begin()->first`: which entry comes first is the container's choice.
abbrev pub Begin : Type 0
Begin = List (Text × Session) → Option Text

-- The section under the shared lock: the key to remove, or the end of the shutdown.
unfoldable pub pick : Begin → Manager → Manager × Option Text
pick begin m = elim (begin m.sessions) [
  | some imsi ↦ (m, some imsi)
  | none ↦ (record m { graceful_shutdown_active = false }, none)
]

-- The section under the exclusive lock.
unfoldable pub remove_picked : ℕ → Text → Manager → Manager
remove_picked system imsi m = elim (find imsi m.sessions) [
  | none ↦ m
  | some s ↦
      emit_event system imsi graceful_shutdown (record m { sessions = erase imsi m.sessions })
]

-- The loop, with the milliseconds waited in `wait_for` so far, when no other thread clears the flags.
-- `none` means that the fuel ran out. `clock` has the system clock's reading in each round, by the fuel that is left after it.
unfoldable pub shutdown_loop : Begin → ℕ → ℕ → (ℕ → ℕ) → ℕ → Manager → Option (Manager × ℕ)
shutdown_loop begin zero pause clock waited m = none
shutdown_loop begin (suc fuel) pause clock waited m =
    if m.graceful_shutdown_active && m.running
    then (let (picked, choice) = pick begin m in
        elim choice [
          | none ↦ some (picked, waited)
          | some imsi ↦ elim (is_empty imsi) [
            | true ↦ shutdown_loop begin fuel pause clock waited picked
            | false ↦
                shutdown_loop begin fuel pause clock (waited + pause)
                  (remove_picked (clock fuel) imsi picked)
          ]
        ])
    else some (m, waited)

pub data Finish : Type 0 where
  finished : Manager → ℕ → Finish
  out_of_fuel undefined : Finish

finish : Option (Manager × ℕ) → Finish
finish none = out_of_fuel
finish (some (m, waited)) = finished m waited

unfoldable pub graceful_shutdown_thread : Begin → ℕ → (ℕ → ℕ) → Manager → Finish
unfolding finish
graceful_shutdown_thread begin fuel clock m = elim (sleep_duration m.shutdown_rate) [
  | none ↦ undefined
  | some pause ↦ finish (shutdown_loop begin fuel pause clock 0 m)
]
