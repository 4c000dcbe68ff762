-- ===== src/View.antt =====
-- view/frontend/web/js/chat: the parts of the chat that draw a message.
pub mod MessagePatch
pub mod RenderQueue
