-- ===== src/Lib.antt =====
-- Verification of harpy, a toolkit for JSON-RPC 2.0 servers and clients in Go.
--
-- The program reads a request set (one request or a batch), validates it, hands each request to an
-- exchanger, most often a router of handlers by method name, and writes the responses through a
-- response writer; the HTTP transport supplies the reader and the writer. The parts and their files:
--
--   errorcode.go: ErrorCode (codes, `IsReserved`, `IsPredefined`, `String`, `describeError`).
--   error.go: Error (`Error`, `NewError`, `NewErrorWithReservedCode`, the options, `MarshalData`).
--     `new_application_error` is `NewError`, and `new_error` is `newError`.
--   internal/jsonx and json.go: Jsonx (`Decode`, `Unmarshal`, `IsParseError`, the options).
--   request.go: Request (requests and their validation), Request/Params (`UnmarshalParameters`),
--   Request/Set (request sets), Request/Batch (`BatchRequestMarshaler`), Request/Batch/RoundTrip (a
--   marshaled batch as the server reads it); Request/Spec says what a conforming request is.
--   response.go: Response (building and validating responses) and Response/Set.
--   router.go: Router (routes, options, `Call`, `Notify`) and Router/Answers (its responses).
--   exchange.go: Exchange (`Exchange`, `readRequestSet`, `exchangeOne`, `exchangeSingle`,
--   `exchangeBatch`), Exchange/Events (the parties), Exchange/Many (the goroutines of `exchangeMany`)
--   and Exchange/Many/Run (`exchangeMany` under a schedule, as a part of an exchange). Exchange/Logs
--   says which log entries the events of an exchange call for, and Exchange/Many/Matching and
--   Exchange/Many/Handled compare the responses of a batch with its calls, and its requests with what
--   the exchanger is given.
--   logging.go: Logging (the structured logger, and those for zap and slog).
--   transport/httptransport: Http/Writer (`ResponseWriter`), Http/Reader (`RequestSetReader`),
--   Http/Handler (`Handler`, `NewHandler`), Http/Handler/Answered (its statuses),
--   Http/Handler/Writes (the writer behind the history of a batch), Http/Client (`Client`),
--   Http/Client/Panics, Http/Client/Errors, Http/Target (`http.ResponseWriter`), Http/RoundTrip (a
--   call of the client that the handler serves) and Http/Routed (a server with a router, its
--   batches and its calls) with Http/Routed/Valid, Http/Routed/Messages and Http/Routed/Received
--   (its answers as a client reads and validates them) and Http/Routed/Observed (with the
--   middleware). What the answers of a server have to do with its server-side errors is the matter
--   of the modules named Secrecy, which follow an exchange, its goroutines, the handler and the
--   router.
--   internal/version: Version (the version in the build information).
--   middleware/otelharpy: Otel (attributes), Otel/Tracing (`Tracing`), Otel/Metrics (`Metrics`) and
--   Otel/Stack (the first around the second).
--   Go and its children hold what the package uses of the language and its standard library: errors
--   by their dynamic type, `json.RawMessage`, UTF-8, white space, writers. Prelude has the shared
--   helpers, and Samples the data of the tests, which stand in the modules Tests.
--
-- How state and effects are modelled. An object is a record, and a method that changes it returns the
-- new one. A Go error is a value of `GoError`, with `no_error` for nil. A panic is a value of
-- `Outcome`. Validation returns an `Option Error`, where `none` is `Error{}, true`. In Exchange the
-- exchanger, the reader and the writer are functions of all that has happened before, so that they
-- stand for parties with any state; a run adds its events to that history, the newest first.
-- `exchangeMany` is a step relation: each goroutine has a program counter, a step is an action of one
-- goroutine between two points where another may run, and the mutex is its owner. The exchanger, the
-- writer and the context, which the error group may cancel, are free at each step. A schedule chooses
-- the goroutine of each step and its context; the error group returns an error that is not nil if a
-- goroutine has one.
-- The writer of `ServeHTTP` is the one that the calls so far in the history have left. The client and
-- the middleware are runs (Go/Run) that add to a history of what they do to HTTP responses, spans and
-- instruments, and that return or panic.
-- A call of `NewErrorWithReservedCode` at one of the predefined codes is the call of `newError` that it
-- comes to.
--
-- Parameters. `json.Marshal` and `json.Unmarshal` into `any` (the record `Json`), the decoders of
-- `encoding/json`, `mime.ParseMediaType`, the `Validate` methods of application values and the
-- encoders of requests and responses are arguments; so are the network of the client (`Net`), the
-- functions of zap and slog that make log attributes, the zap logger, and the exchanger behind a
-- middleware with the contexts, instruments and times that the OpenTelemetry SDK and the clock give
-- (`Next`). A value of the application is a name (`Any`).
--
-- Bounds. Error codes are integers without a bound, since they are only compared and printed. The loop
-- over leading white space has one round of fuel more than there are bytes, and each rune takes at
-- least one byte, so the fuel does not run out. The IDs of the client's calls wrap around at 2 ^ 32.
--
-- Not modelled: the test fixtures, which are stubs of the interfaces that Exchange/Events has in
-- general.
-- A nil error given to `WithCause`, on which Go panics, is left out. The exchanger, the reader and the
-- writer of an exchange return; an exchange in which one of them panics is not described, while the
-- middleware passes on the panic of the exchanger behind it.
pub mod Prelude
pub mod ErrorCode
pub mod Go
pub mod Error
pub mod Request
pub mod Response
pub mod Router
pub mod Exchange
pub mod Logging
pub mod Http
pub mod Otel
pub mod Samples
pub mod Version
pub mod Jsonx
