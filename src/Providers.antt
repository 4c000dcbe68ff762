-- ===== src/Providers.antt =====
-- ai-chat-server/services/providers.
pub mod CircuitBreaker
