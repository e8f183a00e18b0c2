-- ===== src/Sessions.antt =====
-- src/session_manager.h and src/session_manager.cpp: the class SessionManager.
-- The state and the operations stand in State, Requests, Cleanup and Shutdown; the other modules prove.
pub mod State
pub mod Requests
pub mod Cleanup
pub mod Shutdown
pub mod Interleaving
pub mod Invariant
pub mod Accounting
pub mod Expiry
pub mod Passes
pub mod Interference
pub mod Drain
pub mod Rounds
pub mod Lifecycle
pub mod Subjects
pub mod Locks
pub mod Restart
pub mod Spec
pub mod Refinement
pub mod Clients
pub mod Public
pub mod Threads
mod Tests
