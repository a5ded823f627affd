-- ===== src/Agent.antt =====
-- The agent that runs a task: its state machine (internal/agent/state.go) and its loop
-- (internal/agent/agent.go).
pub mod Machine
pub mod World
pub mod Round
pub mod Run
mod Examples
