-- ===== src/Runtime.antt =====
-- ai-chat-server/services/gateway/gateway-runtime.js, the in-memory mode of `GatewayRuntime`.
pub mod RateLimit
pub mod Batch
pub mod Locks
pub mod Scoped
pub mod Capacity
pub mod Cache
pub mod Limits
pub mod Metrics
