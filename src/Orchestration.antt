-- ===== src/Orchestration.antt =====
-- ai-chat-server/services/orchestration.
pub mod ToolBudget
pub mod ContextBudget
pub mod OpenAiStream
pub mod ToolCalls
pub mod Turns
pub mod Envelope
pub mod EventStream
pub mod ResponsesStream
