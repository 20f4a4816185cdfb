-- ===== src/Chat.antt =====
-- services/chat-service: conversations, messages and the event outbox.
pub mod Model
pub mod OutboxStatus
pub mod Lifecycle
pub mod Scheduler
pub mod World
pub mod Repository
pub mod Format
pub mod Events
pub mod Conversations
pub mod Messages
pub mod AutoClose
pub mod Dispatcher
pub mod Service
pub mod Gateway
pub mod Tests
