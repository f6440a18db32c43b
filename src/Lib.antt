-- ===== src/Lib.antt =====
-- The server of say: people link their Signal and Telegram accounts, a worker per account keeps a
-- websocket to the gateway, and clients read and send messages through the HTTP API.
--
-- The parts and their files:
-- Base: helpers of all parts. Base/Text has internal/random/value.go (`random_value`) and what
-- the program uses of Go's strings; Base/Maps has Go's maps as association lists; Base/Pointers
-- has objects under numbers.
-- Protocol: internal/protocol/envelope.go; Protocol/Payloads: payloads.go, with the decoders.
-- Protocol/JsonTree has the JSON values, Protocol/Codec the theorems.
-- Gateway/Account, Gateway/Store: the types and methods of internal/gateway/store.go, each method
-- one step on the state, since it runs under the store's lock. `update_generation` is what
-- SetWorkerStatus, TouchWorker and SetWorkerIdentity share; AuthenticateWorker is
-- `authenticate_worker`, with its parts `use_credential`, `use_enrollment` and `exchange`.
-- Gateway/Hub: register, unregister, Request and deliver of internal/gateway/hub.go, each critical
-- section one step. Request is `start_request` for the lookup of the worker, `enter_pending` for its
-- channel, `write_command` and, after its select, `finish_request`; in between other steps may run.
-- Gateway/Hub/Runs has all interleavings of these steps (`Step`, `Reach`).
-- Gateway/Session, Gateway/Serve: ServeWorker of the same file: `handshake` for the first message,
-- `serve_frame` for a round of the loop, `serve_worker` for a whole connection. The account store
-- and the event handler are the interface `Backend`; Gateway/Session/InMemory fills it with the
-- store above.
-- Database: tables as lists of rows, statements that may fail, and transactions. Database/Keeps and
-- Database/Yields have the rules by which a property is carried through a transaction.
-- Auth: internal/auth/service.go on the tables of internal/postgres/migrations/001_initial.sql.
-- Auth/Start has Start; Verify, Refresh and ValidateAccessToken are `verify`, `refresh` and
-- `validate_access_token`.
-- Postgres: the rows of the migrations that internal/postgres/messages.go uses. PrepareSend is in
-- Postgres/Sends, MarkCommandDispatched in Postgres/Sends/Dispatch, CompleteSend and FailSend in
-- Postgres/Sends/Outcome, IngestMessage and CacheMessage in Postgres/Ingest, PendingOutbox,
-- MarkOutboxDelivered and Prune in Postgres/Outbox, and UpsertConversations, ListConversations,
-- ListMessages and GetConversationTarget in Postgres/Conversations. The order of the database on
-- texts is a parameter (`above`, `below`). Postgres/Accounts has internal/postgres/accounts.go:
-- the methods of AccountStore under their names, with redeemEnrollment in `redeem_found` and `grant`,
-- and what workers report in Postgres/Accounts/Reports.
-- HttpApi: internal/httpapi/router.go, each handler as a function from a decoded request to a
-- response and the tables, with what the handler asks the gateway's hub; the hub's answer is an
-- input. HttpApi/Users has the logins and requireUser, HttpApi/Accounts the accounts, HttpApi/Listing
-- listConversations and listMessages, HttpApi/Sending sendMessage.
-- Realtime: internal/realtime/hub.go: Publish, add and remove, and of Serve what a connection takes
-- from its queue and from its peer.
-- Signal: internal/signalworker/service.go. Signal has the state and the linking of a device,
-- Signal/Receive parseReceive, Signal/Sending send, and Signal/Conversations conversations; what
-- signal-cli answers is an input (`Rpc`). Protocol/Structs has how objects are read into structs.
-- Worker/Spool: internal/worker/spool.go on the names and contents of files; Worker/Backoff: of
-- internal/worker/client.go the waits in Run, Worker/Session of connect the loop with the commands
-- that run beside it (`Step`, `Reach`), and Worker/Session/Events sendPendingEvents.
-- SayApi: of cmd/say-api/main.go the event handler and drainOutbox, on the tables and the hub of
-- the clients.
-- Examples: runs on small inputs.
--
-- The clock, the random bytes and the failures of statements and writes are arguments of the
-- operations (`Moment`). SHA-256, HMAC, the JWT library and the parser of mail addresses are
-- parameters (`sum256`, `Outside`), as are the reading of times (`parse_time`) and fmt's "%d"
-- (`decimal`), filepath.Base and filepath.Join (`base`, `join`); a theorem that needs more of them than that they are functions
-- says so in its hypotheses. Times are nanoseconds from Go's zero time, so that they stand in ℕ. A
-- generation is a uint64 and wraps. Statements of one transaction see no other transaction: rows are
-- locked by FOR UPDATE in the source.
--
-- The loops are over lists that are given, so nothing here needs fuel.
--
-- Not modelled: the text of JSON, websocket and HTTP transport, logging, deadlines of connections,
-- the columns created_at and updated_at that nothing reads, the routing of the HTTP API and its
-- websocket, the handshake and the files of a worker's client, the client of signal-cli
-- (internal/signalcli), the webhook for login codes (internal/auth/webhook.go), the generated
-- internal/contract, the set-up of the database, flags and environment variables of the commands,
-- cmd/fake-worker, and the TypeScript programs. A time that comes from signal-cli is kept as the
-- timestamp that it is made of (`Time`), since it may lie before Go's zero time.
pub mod Base
pub mod Protocol
pub mod Gateway
pub mod Database
pub mod Auth
pub mod Postgres
pub mod Realtime
pub mod HttpApi
pub mod Signal
pub mod SayApi
pub mod Worker
pub mod Examples
