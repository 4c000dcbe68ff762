-- ===== src/Examples.antt =====
-- Runs of the theorems at concrete states, one module per part of the server.
mod RateLimit
mod Batch
mod Locks
mod Scoped
mod Capacity
mod Cache
mod Security
mod ImageGuard
mod Breaker
mod ToolBudget
mod UserParts
mod Emitter
mod GuestHistory
mod ActiveRun
mod Admission
mod Customer
mod History
mod Sanitizer
mod View
mod Stream
mod Catalog
mod Continuity
mod Ticket
mod AssistantParts
mod Turns
mod Envelope
mod Responses
