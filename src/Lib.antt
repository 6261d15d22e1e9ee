-- ===== src/Lib.antt =====
-- The Go services of the repository. ol1n-vault stores files on UseNet: a client uploads a file, pays,
-- the file is split, encoded and posted, and it can be downloaded again. superol1n is the gateway in
-- front of other services.
--
-- How the parts of ol1n-vault interact. A request passes the API key gate (internal/handler/middleware.go,
-- cmd/vault/main.go) and reaches a handler. `initUpload` keeps the file and stores an artifact and a
-- job in the database (internal/db). A signed notice of the payment provider (internal/payment) reaches
-- `paymentConfirm`, which moves the artifact on and starts the upload. The upload splits the file,
-- encodes each part (internal/nntp/yenc.go, client.go) and posts it over a pool of connections. A
-- download fetches and decodes the parts and stores a token, which `serveFile` asks for. Progress goes
-- to the clients through a broker (internal/sse).
--
-- In superol1n every request passes Logger, CORS and Auth; a chat is streamed from an upstream service,
-- and the events of other services go to the web sockets through a hub.
--
-- Which file models what, by paths below ol1n-vault/internal:
--   Go                 what is used of Go's library: strings, white space, channels, crc32, hex, strconv,
--                      and the dot writer and reader of net/textproto (Textproto)
--   Nntp.Yenc          nntp/yenc.go: YEncEncodeSegment (Encode), YEncDecode (Decode), parseKV and
--                      parseEnd (Keywords); Pieces, Headers, Lines and RoundTrip are proofs;
--                      Text and Wire are proofs about what a dot writer and a dot reader leave of it
--   Nntp.Nzb           nntp/nzb.go: BuildNZB and ParseNZB; the ids of nntp/client.go
--   Nntp.Segments      nntp/client.go: SplitSegments; Cover and Ends have the proofs
--   Nntp.Session, Nntp.Commands
--                      nntp/client.go: a connection as a script, and dial, authenticate, cmd, post, body
--                      and close over it; Accepted and Sync have the proofs
--   Nntp.Pool          nntp/client.go: NewClient, acquire, release, and PostArticle and FetchBody as
--                      their callers; System interleaves them; Safety and Starvation have the proofs
--   Db.Tables          db/migrations/001_init.sql and db/db.go: rows, keys and references
--   Db.Artifacts, Db.Jobs, Db.Tokens
--                      db/queries.go, a function per statement; Payment and Promotion have proofs
--   Db.Integrity       proofs about the keys of the tables in every reachable database, and about the
--                      table of tokens as a map (TokenMap)
--   Payment.Json       payment/webhook.go: writeSorted
--   Payment.Verify     payment/webhook.go: Verify and IsTerminalConfirmed
--   Payment.Invoice    payment/nowpayments.go: CreateInvoice
--   Sse.Broker         sse/broker.go: Subscribe, cancel and Publish
--   Events.Hub         superol1n/internal/modules/events/hub.go; Counting, Safety and Reachable have the
--                      proofs
--   Events.Handler     superol1n/internal/modules/events/handler.go: webhookHandler, and the loop of wsHandler
--   Jobs.Worker        jobs/worker.go: the goroutine of Submit, Progress and Done; Life has proofs;
--                      Slots has the slots of Submit, and Wait
--   Jobs.Upload        jobs/upload_job.go: Run; Blocked has the proofs
--   Jobs.Start         jobs/upload_job.go: StartFromPaymentConfirm; Inserted, Paid and Whole have the
--                      proofs
--   Jobs.Download      jobs/download_job.go: Run; Served has the proofs
--   Jobs.RoundTrip     proofs: what an upload posts, a download reads back
--   Storage.Cleaner    storage/files.go: sweep; Kept and Boundary have the proofs
--   Config             config/config.go: Load and Validate; Environment and Required have proofs;
--                      Concurrency is the number of slots that cmd/vault/main.go gives the worker
--   Gateway.Http       what superol1n uses of net/http
--   Gateway.Middleware superol1n/internal/gateway: Auth, CORS, Logger and NewServer; Access has proofs
--   Gateway.Chat       superol1n/internal/modules/ai/handler.go: Chat; Streaming has the proofs
--   Gateway.Nim        superol1n/internal/modules/ai/client.go: do, ChatStream, Models and IsHealthy, and the
--                      handlers Models and NewConversation; Saved has the proofs
--   Gateway.Sabnzbd    superol1n/internal/modules/sabnzbd/handler.go; Routes and Asked have the proofs
--   Gateway.Proxy      superol1n/internal/modules/radarr/handler.go (sonarr's is the same) and the health
--                      route of superol1n/internal/gateway/server.go
--   Handler.Gate       handler/middleware.go: APIKey and SkipPrefixes
--   Handler.Filename   handler/helpers.go: sanitizeFilename
--   Handler.Status     handler/sse.go and helpers.go: streamJobStatus; Events reads its text as a client
--                      does; Watch interleaves a client, the worker and the other users of the broker
--   Handler.Upload     handler/upload.go: initUpload; Complete, Stored and Invoiced have the proofs
--   Handler.Webhook    handler/upload.go: paymentConfirm
--   Handler.Download   handler/download.go: request and serveFile
--
-- How state is modelled. The database is a record of three lists of rows; a statement takes the clock
-- and whether the driver refuses it, and returns the new tables or an error, which leaves the tables as
-- they were. The pool and its goroutines are a state with one step of one goroutine at a time. A Go
-- string is a list of bytes, an int is an integer, with the wrap-around of 64 bits written out where
-- the code computes; times are seconds and not negative.
--
-- Fuel. The loops of parseKV and parseEnd, of SplitSegments and of TrimSpace, and the printing of a
-- number, run on fuel that is the length of what they consume, and each turn consumes some of it.
--
-- Parameters. JSON texts, the printing of a float and HMAC-SHA512 are the fields of a record, of which
-- one law is used: the hash gives bytes. The form of an upload, the copy to disk, the sniffed type,
-- the invoice and the removal of the temporary file are data. Random ids are arguments. The XML text of an NZB document is a record of two
-- functions. For a job, what the disk, the provider and the contexts do, the random bytes and the
-- percentages, whose arithmetic is in floats, are data; for a sweep, its clock and its removals.
--
-- In the gateway the token library, the fetched keys, the upstream service and JSON texts are fields of
-- records. Of the token library one law is used, and only where a theorem names it: it accepts no token
-- for which it is given no key.
--
-- The payment provider, the services behind the gateway and the parsing of what they answer are records of
-- functions from a request to an answer, of which no law is used. Of encoding/json two are used, and
-- only where a theorem names them: the text of an event has no line break, and reading its status gives it
-- back.
--
-- Not modelled: the network's connections, TLS and deadlines, HTTP answers' bodies of
-- ol1n-vault except the streams of job events, the cleaner's ticker, Close of the NNTP client, the list of
-- conversations, the upgrade to a web socket and its reader, the routing by prefixes and the configuration of superol1n, and the mobile
-- application.
pub mod Base
pub mod Config
pub mod Go
pub mod Nntp
pub mod Db
pub mod Payment
pub mod Jobs
pub mod Sse
pub mod Storage
pub mod Events
pub mod Gateway
pub mod Handler
mod Tests
