-- ===== src/Conversation.antt =====
-- ai-chat-server/services/conversation.
pub mod ChunkEmitter
pub mod ActiveRun
pub mod GuestHistory
pub mod Sanitizer
pub mod TurnBuffer
pub mod AssistantParts
pub mod UserParts
