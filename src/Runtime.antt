-- ===== src/Runtime.antt =====
-- core/runtime_execution.py, core/runtime_workers.py and core/runtime_events.py.
pub mod Status
pub mod Events
pub mod Workers
pub mod Session
pub mod Runs
pub mod Controls
pub mod Dispatch
pub mod Heartbeats
pub mod Steps
pub mod Rows
pub mod Assignment
pub mod Outcomes
pub mod Consistency
pub mod Api
pub mod Loops
pub mod Soundness
pub mod Additions
pub mod Reports
pub mod Identities
pub mod Moves
pub mod Reruns
