-- ===== src/Lib.antt =====
-- Onprest: models of the repository's Go code, with the theorems that make it correct.
--
-- Onprest connects callers of a gateway with capabilities that run beside private data. An agent holds
-- one connection to the gateway; requests, results and files travel on it as frames. The agent admits a
-- request against the capability's rate limit, binds its parameters into SQL, reads or writes CSV, and
-- sends what it made through the transfer layer. The files model these parts:
--
-- Sql.Regions, Sql.Classify: internal/sqlsyntax/sql.go. `protected_region_end` is ProtectedRegionEnd
--   with the skip functions under it, `parameters` is Parameters, `classify` is Classify over
--   scanSQLTokens, and `has_single_sql_statement` is hasSingleSQLStatement.
-- Sql.Bind: buildSQL of internal/agent/sql.go, which binds parameters outside protected regions.
-- Agent.RateLimit: internal/agent/rate_limit.go, the token bucket: `lint`, `new_limiter`, `take`.
-- Agent.Csv: internal/agent/csv_parser.go: `next` decodes a character, `Records.read` is
--   csvRecords.read over any source of characters.
-- Contract.Integer: internal/contract/json_integer.go, integral numbers in JSON text.
-- Contract.Pattern: CompilePattern of internal/contract/pattern.go, the check before the parser.
-- Contract.CsvOutput: the record terminator and the formula escape of internal/contract/csv_output.go.
-- Contract.Pointer: unescapePointer of internal/contract/binding.go, outputPointer of
--   internal/contract/csv_output.go, and in Contract.Pointer.Replace replaceInputFiles of
--   internal/agent/input_commit.go.
-- Contract.Schema: ResolvePointer and schemaHasFile, on the parts of a schema that they read.
-- Protocol.Frame: the frame fields, ValidID, Chunk and FrameLimit of internal/protocol/transfer.go.
-- Protocol.Response: Response of internal/protocol/protocol.go: `marshal` is MarshalJSON and `unmarshal`
--   UnmarshalJSON, with the limits of DecodeJSON of internal/contract/canonical.go; how a text is parsed
--   and encoded is the library's. Its errors are those of Agent.Controller.PublicError.
-- Ws.Scheduler: internal/ws/scheduler.go, the queues in front of the connection: `post`, `next`, and
--   `round` and `finish` for Run.
-- Ws.Transfers: internal/ws/transfer.go, windows of chunks: `add`, `retire`, `grant`, `handle`, and in
--   Ws.Transfers.Steps the critical sections of the receiving and the sending goroutine. A goroutine's
--   place is the `phase` of its transfer, and Ws.Transfers.Reachable interleaves all of them.
--   Ws.Transfers.Open is how a transfer begins.
-- Agent.Effects: Effects of internal/agent/providers/lifecycle.go: `begin`, `finish`, `outcome` and the
--   marks; a handle is the place of its operation.
-- Agent.Prepared: the registry, Prepare, Acquire, Release and Close of the same file. `prepare` returns
--   the closed executors where the source returns none, so that a theorem can speak of them.
-- Agent.Controller: internal/agent/controller.go: `enter` is Execute up to the provider, `leave` its
--   deferred calls, `admit` is admit. They use Agent.RateLimit and Agent.Prepared. PublicError is how
--   Execute answers a provider's error, with ErrorValue of internal/contract/envelope.go; its outcome
--   comes from Agent.Effects.
-- Agent.Artifacts: internal/agent/artifacts, the private files of requests and outputs. The store, its
--   quota and its records are in Agent.Artifacts; Stages, Cleanup, Input, Requests, Output and Sweep have
--   the operations, named as in the source; Saves has what a save whose cleanup fails does to the usage,
--   and is all of save.go that is modelled; Reachable puts them in any order. A pointer is a key, and what
--   the source's maps still have is said by fields. Negative lengths, which the source refuses, are not
--   numbers of the model.
-- Agent.Async: internal/agent/wasmruntime/async.go: a guest's asynchronous handles, named as in the
--   source, and in Agent.Async.Jobs the runtime methods. The synchronous handles are a number.
-- Prelude holds what these share: byte lists, loops with a cursor on fuel, and maps from strings.
-- Samples evaluates the models, and applies the theorems, on concrete inputs.
--
-- Numbers are natural numbers. Where the source subtracts, the model shows that the result is not
-- negative or writes out what the source does. The products of the rate limiter are wrapped at 64 bits. Loops with a cursor run on fuel one above the length of
-- the text, which is enough since each round moves the cursor; `read` of Agent.Csv takes any fuel above
-- the length of its input. Strings that are only compared are `String`, text that is scanned is a list
-- of bytes.
--
-- Parameters stand for code outside the repository: utf8.ValidString, base64, time.ParseDuration,
-- strconv.ParseInt and ParseUint, the Shift_JIS decoder, bufio.Reader.ReadRune, regexp, and the
-- destinations that are written to. Times and context errors are arguments.
--
-- Not modelled: databases and drivers, HTTP and MCP handlers, the command lines, logging, services of
-- the operating system, Wasm engines, YAML and JSON Schema. Wake-up channels, wait groups and the
-- hashing of a transfer's content are left out of the transfer layer.
pub mod Prelude
pub mod Contract
pub mod Protocol
pub mod Sql
pub mod Ws
pub mod Agent
pub mod Samples
