-- ===== src/Security.antt =====
-- ai-chat-server/services/security: admission of WebSocket connections and of their actions.
pub mod Connections
pub mod Distributed
pub mod LeaseKeeper
pub mod Heartbeat
pub mod Revocation
pub mod ActionGuard
pub mod Lifecycle
pub mod Origin
pub mod Ticket
