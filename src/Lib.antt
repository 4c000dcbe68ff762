-- ===== src/Lib.antt =====
-- A verification library for the chat gateway of the Magento AI assistant, the Node server under
-- ai-chat-server/. It models the parts of services/ that keep state between messages, that decide
-- what is admitted and that drive an answer of a language model to its end, and the part of the
-- storefront that draws an answer, and proves that they keep their promises.
--
-- Parts and files. A path is relative to ai-chat-server/services/.
--   Prelude, JsMap, JsNumber: lists and Booleans over the native numbers; a `Map` of JavaScript as
--     a list of pairs in order of insertion; what `Number(value)` gives, and `numberFromEnv`.
--   Runtime: gateway/gateway-runtime.js in its in-memory mode. RateLimit is `consumeRateLimit`, Batch
--     `consumeRateLimitBatch`, Locks `acquireActionLock`, Scoped `acquireScopedCapacity` and its
--     renewal, Capacity `acquireMemoryCapacity`, Cache the caches, `claimOnce` and the versions.
--   Security: security/websocket-security.js. Connections and Distributed admit sockets, Distributed
--     over the semaphores of Runtime.Scoped; LeaseKeeper renews their lease; Heartbeat pings them.
--   Media: media/image-generation-guard.js, over Runtime.RateLimit and Runtime.Scoped.
--   Providers: providers/provider-circuit-breaker.js.
--   Orchestration: ToolBudget is orchestration/tool-execution-budget.js. The others model
--     openai-compatible-orchestrator.js: EventStream is what its two readers of streams
--     share, OpenAiStream `readOpenAiStream`, ResponsesStream `readOpenAiResponsesStream`, ToolCalls
--     `collectToolCalls`, and Turns the loop of `streamChatResponse`, whose state and types are in
--     Turns.State, with the rule of tool-rounds.js; its text is handed on by Conversation.ChunkEmitter,
--     and Turns.Emission is about that. Envelope is provider-response-envelope.js.
--   Conversation: ChunkEmitter is conversation/smooth-chunk-emitter.js, ActiveRun
--     active-run-controller.js, GuestHistory guest-session-history.js.
--   Runtime.Limits is gateway/runtime-limits.js; Security.Revocation security/session-revoker.js and
--     Security.ActionGuard security/websocket-action-guard.js; Media.ImageAdmission
--     media/image-admission.js and Media.VoiceGuard media/voice-transcription-guard.js.
--   Customer: PendingAction is conversation/pending-verification-action.js, BrowserCart
--     customer/browser-cart-bridge.js, GuestAccess the guest-order half of
--     customer/verified-access-session.js over the cache of the runtime.
--     SupportAccess is its support half, and AddressUpdate customer/address-update-admission.js.
--   Security.Lifecycle is gateway/connection-lifecycle.js, and Orchestration.ContextBudget
--     orchestration/context-budget.js.
--   Catalog: Pagination is catalog/catalog-pagination.js and QueryContinuity
--     catalog/catalog-query-continuity.js.
--   Conversation.Sanitizer is conversation/customer-response-sanitizer.js, TurnBuffer
--     customer-turn-buffer.js over it; UserParts and AssistantParts are the customer's and the
--     assistant's half of message-parts.js.
--   Support: support/support-broadcaster.js.
--   View: stream-renderer.js of view/frontend/web/js/chat, RenderQueue its queue of frames and
--     MessagePatch its patching of blocks.
--   Text and Text.Split: texts as lists of UTF-16 code units, with `trim`, `startsWith`, `split` and
--     `replace`. Security.Ticket is security/ws-ticket.js.
--   Runtime.Metrics is gateway/gateway-metrics.js, and Security.Origin the test of origins in
--     security/websocket-security.js.
--   Examples: every theorem of the list below at a concrete state.
--
-- State and calls. Each operation takes the state it reads and returns the state it leaves, beside
-- its result. The clock, random tokens and the answers of predicates on text (an origin, an open
-- socket) are arguments. An `async` operation that never waits in memory is one step; one that polls
-- is a step for each round, and the theorems are about any sequence of steps. Keys are values of a
-- type with decidable equality; a theorem about hashes takes the hash as a parameter. Times are
-- natural numbers, so a difference that would be negative is 0, as the `Math.max(0, ...)` of the
-- source has it; where the source has no such guard the theorem says that the clock does not go
-- back. Recursion is structural throughout, so nothing runs on fuel: the loop over the turns of an
-- answer has the bound that the source gives it.
--
-- Not modelled: the Redis mode, whose scripts run in another process; the PHP module and the other
-- scripts of the storefront and of the admin; the calls of language models, of Magento and of the
-- database; the tool flow of provider-neutral-tool-flow.js, which is an interface to the turns of an
-- answer; HTML and the wording of messages; byte lengths of numbers beyond 2 ^ 53.
pub mod Prelude
pub mod JsNumber
pub mod JsMap
pub mod Text
pub mod Support
pub mod View
pub mod Catalog
pub mod Runtime
pub mod Security
pub mod Media
pub mod Providers
pub mod Orchestration
pub mod Conversation
pub mod Customer
pub mod Examples
