-- ===== src/Ai.antt =====
-- services/ai-service: the replies that it writes by itself.
pub mod Query
pub mod AutoReply
pub mod Texts
pub mod Chunks
pub mod Tests
