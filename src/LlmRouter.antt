-- ===== src/LlmRouter.antt =====
-- The model router (internal/llm/provider.go). Its children: the price table, the prompt, the task
-- with its complexity, the choice of a model, the attempts at the providers; then the proofs.
pub mod Float
pub mod Pricing
pub mod Tasks
pub mod Choice
pub mod Attempts
mod Examples
