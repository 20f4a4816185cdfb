-- ===== src/Lib.antt =====
-- The services of InlineChat: conversations between visitors and agents (services/chat-service), the
-- accounts of agents and admins (services/auth-service and services/admin-service), the connections
-- of the clients (services/realtime-service), the automatic replies (services/ai-service), and the rate
-- limiter (services/gateway-service).
--
-- The chat service, below services/chat-service/internal:
--   Errors, Effects, Store, Grpc: the errors of the services, methods as actions, a database table as
--     an interface, and the answers of a gRPC server. All services share them.
--   Chat.Model, Chat.OutboxStatus: model/model.go.
--   Chat.Lifecycle: the closures that the methods hand to Mutate, as functions of one row. Its
--     children say which rows are valid, who may change them, and how a transfer goes.
--   Chat.Scheduler: the timers of service/auto_close_scheduler.go.
--   Chat.World: the fields of ChatService; what a method reads and writes (database, published events,
--     timers, the context).
--   Chat.Repository: repository/repository.go, a child for each of its three repositories.
--   Chat.Format, Chat.Events: withEventTransaction, the events and the system messages.
--   Chat.Conversations, Chat.Messages, Chat.AutoClose: the methods of ChatService.
--   Chat.Dispatcher: service/outbox_dispatcher.go.
--   Chat.Service: all of these calls as one step function, and histories of steps.
--   Chat.Gateway: grpcserver/server.go and grpcserver/gateway_server.go.
--
-- The accounts, which two services keep in one database:
--   Accounts: the tables of agents and super admins (internal/repository of both services). Its
--     children are the rows, the token versions, the password policy and the tokens (internal/model and
--     internal/security).
--   Auth: services/auth-service/internal/service/auth_service.go. Auth.Server: its gRPC server.
--   Admin: services/admin-service/internal, the repositories and the log of changes. Admin.Names,
--     Admin.Agents, Admin.Sites, Admin.Sessions: the methods of service/admin_service.go. Admin.Server
--     and Admin.Server.Calls: grpcserver/server.go.
-- A change of an agent in the admin service ends its sessions in the auth service through the token
-- version of the account, so that Admin.Agents.Revocation uses both.
--
-- Connections and rates:
--   Realtime.Hub, Realtime.Client: services/realtime-service/internal/ws/hub.go and client.go.
--   Realtime.Upstream, Realtime.Origins, Realtime.Connections, Realtime.Replay, Realtime.Sending,
--     Realtime.Serve: services/realtime-service/internal/ws/handler.go, from the services behind it to
--     Serve: who may connect and from where, what a client has missed, the messages it sends, and a
--     connection as a list of events. Http: the checks of a handler and the parts of an address.
--   Ai.Query, Ai.AutoReply: services/ai-service/internal/service/auto_reply_service.go: from an event of
--     chat-service to an automatic reply. Ai.Texts, Ai.Chunks: internal/knowledgebase/document_loader.go,
--     from the paragraphs of a document to its chunks.
--   Gateway.Limiter: services/gateway-service/internal/ratelimit/limiter.go.
-- The modules called Tests hold services and worlds to evaluate the definitions on.
--
-- A method becomes an action: a function from a world to a result and a world. A method that fails
-- keeps what it wrote before, as in Go, and only a transaction takes writes back. A request reads
-- and writes through a `Table`, whose laws are what gorm and MySQL document of a statement that
-- succeeds: which rows a query returns and in which order, that an INSERT appends one row with a fresh
-- id unless it breaks a unique key, and which rows an UPDATE changes. Any statement, the begin and the
-- commit of a transaction, the lock and the transport may also report an error. Store.Memory is
-- a table that meets the laws.
--
-- Choices. A call is one step: the row lock of Mutate, the mutexes of the scheduler, the hub and the
-- limiter, and the lock of CreateConversation make them so; calls on accounts are one step too, as if
-- they came one after another. Times are natural numbers of one clock, read once per call and passed as
-- an argument; durations that configuration sets are positive. Ids are natural numbers; token versions
-- wrap around at 64 bits. Texts are valid UTF-8, compared exactly, as under a binary collation; the
-- lower case of a text is exact where it is compared with an ASCII word. Reading pages of open
-- conversations is recursion on fuel, one unit per page of 200 rows, so that one unit more than the
-- full pages is enough; a history passes as much as it likes. A replay has fuel for one page more than
-- the 500 messages it may hold, since each page adds one or ends it. A list of messages holds no nil.
-- During a replay the WriteLoop takes messages at a pace that is an argument; broadcasts come after it,
-- and what chat-service holds does not change during it. The retry delay is computed in 64-bit
-- two's complement. A map of Go is a list of keys and values, and the pointer of a client is a number.
--
-- Parameters: the JWT library and bcrypt (Crypto), the tables of package unicode (Letters), the random
-- bytes of a widget key, the uuid of a chunk, url.Parse, the JSON codec of a connection, the token
-- bucket of golang.org/x/time/rate, the answers of Redis to the limiter, and the patterns of regexp.
--
-- Not modelled: Redis, HTTP, gRPC, logging and JSON encoding; the goroutines around a dispatch; which
-- timers of the runtime still run, beside the map of the scheduler; the pings and deadlines of a
-- connection; the columns created_at and updated_at, except of messages; the text of an error over 1024
-- bytes that is cut in the middle of a code point, which drops the whole code point here; in the ai
-- service, the text of a reply, which is a parameter (Knowledge) since it rests on regular expressions
-- and floating point scores, the paragraphs of a file, the index of the chunks, and the expiry of a
-- lock. The handlers and proxies of the gateway, the shared packages and the frontends are not modelled.
pub mod Prelude
pub mod Errors
pub mod Effects
pub mod Store
pub mod Grpc
pub mod Http
pub mod Chat
pub mod Accounts
pub mod Auth
pub mod Admin
pub mod Ai
pub mod Realtime
pub mod Gateway
