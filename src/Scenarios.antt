-- ===== src/Scenarios.antt =====
-- Concrete sessions of the components, on which the theorems are applied.
mod RunStates
mod Starts
mod Ends
mod Repeats
mod Lifecycles
mod Queues
mod Spawns
mod Blocks
mod Desks
mod Routes
mod Failures
mod Environments
mod Requests
mod Plans
