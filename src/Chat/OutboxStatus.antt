-- ===== src/Chat/OutboxStatus.antt =====
-- The states of an outbox row in services/chat-service/internal/model/model.go.
use inline_chat.Prelude.{String}

abbrev pub pending : String
pending = "pending"

abbrev pub processing : String
processing = "processing"

abbrev pub published : String
published = "published"

abbrev pub dead : String
dead = "dead"
