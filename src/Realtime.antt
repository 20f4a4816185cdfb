-- ===== src/Realtime.antt =====
-- services/realtime-service: the connections of a conversation.
pub mod Client
pub mod Hub
pub mod Upstream
pub mod Origins
pub mod Connections
pub mod Replay
pub mod Sending
pub mod Serve
pub mod Tests
