-- ===== src/Media.antt =====
-- ai-chat-server/services/media: admission of image requests.
pub mod GenerationGuard
pub mod VoiceGuard
pub mod ImageAdmission
