-- ===== src/Webhook.antt =====
-- internal/webhook: records of a topic forwarded to a URL.
pub mod Delivery
pub mod Delivered
pub mod Dlq
pub mod Lines
pub mod Replay
mod Tests
