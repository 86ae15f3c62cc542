-- ===== src/Lib.antt =====
-- Verification of omni-logging, a log server in Go: it takes events in over HTTP, syslog and OTLP,
-- writes them to a write-ahead log and in batches to a store, shows them live, and searches them.
--
-- The parts and their files, with the paths of the code from the repository's root:
-- - Common: what the parts share. Tests, Lists, Texts and Int are Boolean tests, lists, texts and
--   integers over the native numbers; Float64 is what the code uses of floats; Strings is what it uses
--   of Go's strings, unicode and strconv; Maps are Go's maps with text keys.
-- - Wal: internal/wal/wal.go. Words is binary.BigEndian and crc32; Record is encodeRecord and
--   scanSegment; Log is the state WAL with Append, SetCheckpoint, Replay, Close and Open. Scan and
--   Recovery are about scans, Chain, Append and Accept about Append, Checkpoint about SetCheckpoint,
--   Reopen about Open on the files that a crash leaves.
-- - Ingest: internal/ingest/ingest.go. Journal is what ingest relies on in a log, with the log of Wal as
--   its implementation; Ingestor is Enqueue, run, writeBatch, Stop and Recover; Durable, Flush and
--   Accept are about where the accepted events are, Runs over whole runs, and Recover behind a crash,
--   where the next process opens the log from its files.
-- - Dedupe: internal/ingest/dedupe.go. Tail: internal/tail/hub.go. Admission:
--   internal/admission/admission.go. Each has its theorems in a module below it.
-- - Query: internal/query. Lexer, Times, Filters and Parse are parse.go, Agg is agg.go, Build is build.go
--   and cursor.go, Match and Phrase are match.go, Query itself is query.go. Bounds, Cuts and Window are
--   about parsing and building, Matching about match.go.
-- - Model: internal/model. Model itself is level.go and Normalize, Ids is id.go, Json is EventFromJSON.
--   Levels is about normal events, Sorting about the order of IDs.
-- - Syslog: internal/syslog/parse.go. Syslog itself is the priority and the names, Elements the
--   structured data, Message the two formats and Parse. Quoting, Reading, Params and RoundTrip are about
--   structured data, Priorities, Header and Parsed about messages of RFC5424, Keeping about all lines.
-- - Pipeline: internal/pipeline. Pipeline itself is the specifications and Compile, Grok is grok.go, Stages
--   the stages, Set is set.go. Kept is about Apply, Replacing about Replace, Rehearsal about Test.
-- - Store: internal/store/sqlite/search.go. Conditions is filterCond, Search the statements, Pages what Search,
--   Stream, count and Stats make of the rows, Cursors is EncodeCursor of internal/query/cursor.go.
--   Placeholders and Statements are about the statements, Globs about globToLike, Results about Search.
-- - Forward: internal/forward. Forward itself is spool.go, on the log of Wal; Delivery is attempt, post, settle,
--   deliver and drainSpool of forward.go, Tailing is tail and send. Queue is about the batches that wait,
--   Settled about those that a delivery leaves, Numbers and Draining about drainSpool, Retries about post,
--   Lines about tail, Batching about send.
-- - Otlp: internal/otlp. Otlp itself is protowire.go; Fields, Values, Records and Logs are logs.go: the loops over
--   the fields of a message, the values of attributes, records, and the messages around them. Progress is about
--   the reader, Rounds and Depth about the ends of the loops and of the recursion, Events and Mapping
--   about the events. Encoding is what an exporter writes; RoundTrip, Entries, Leaves, Trees and Nesting
--   are about reading it back.
-- - Alert: internal/alert. Alert itself is alert.go, Evaluate is evaluate.go, Scheduler is scheduler.go
--   with SaveRuleState of internal/store/sqlite/alerts.go. Extremes and Reports are about an evaluation of
--   a table, Transitions about the notifications of a rule, Spacing about the times of its evaluations.
-- - A module Samples evaluates a part at concrete inputs.
--
-- How they interact: a producer's event goes through Enqueue into the log and the queue; the writer
-- takes it from there into a batch, the store and the hub, and moves the log's checkpoint. After a
-- crash, Recover replays the log beyond the checkpoint into the store. A forwarder beside a server
-- reads lines from files, spools them in batches in a log of its own, and posts them. The alerts' scheduler runs the
-- rules' queries against the store and notifies channels.
--
-- State is a record that each operation takes and returns. What the operating system, the store and
-- the clock answer is an argument: the answers of one operation stand in one record. Each operation is
-- a critical section of the code or a round of its one writer, so that a run of the program is a
-- sequence of operations. A crash is one of the process: what was written to a file stays there, and
-- the beginning of a record may stand behind it. Where a theorem says so, the truncation that takes a
-- failed append back succeeds. Go's range over the captures of a pattern goes in an order that is a
-- parameter.
--
-- Parameters: the JSON encoding of events, the pipelines of the ingestor, the answers of the store, the
-- matching in the hub, SQLite, what the network and the file system answer to the forwarder, the texts
-- that Go makes of bytes, floats and nested values of OTLP, strings.EqualFold, strconv.ParseFloat, the
-- tables of Unicode, the layouts of the package time, regexp, base64, the table of grok patterns, and
-- floats that are not NaN; what a delivery to an alert's channel answers. Numbers are natural or integer numbers; the log's numbers wrap at 2 ^ 64 and its
-- lengths at 2 ^ 32 as in the code. Texts are lists of code points, bytes lists of numbers.
--
-- Fuel: the scan of a segment runs on fuel, the length of its bytes and one, since each round reads a
-- header. The loop of splitElementID runs on fuel, the length of the text and one, since each parameter takes a
-- character at least; and so does strconv.Itoa, with the number and one. The pieces of a grok pattern are
-- read on the length of the pattern, its references nest 21 levels deep at most as in the code, and the
-- name of a capture is sought on the number of names and one.
--
-- A loop over the fields of an OTLP message runs on the length of its bytes, since each round takes a byte; a
-- value of OTLP on 17 levels, since one deeper than 16 is refused. The attempts of a delivery are a list of
-- what happens in each.
--
-- Not modelled: HTTP, gRPC and syslog transport, the web interface, the SDKs, SQLite, the file names of
-- segments, metrics, settings, the payloads of alerts, the requests that the forwarder builds, the JSON
-- encoding of OTLP, and what the store does besides searching.
pub mod Common
pub mod Wal
pub mod Ingest
pub mod Dedupe
pub mod Tail
pub mod Admission
pub mod Query
pub mod Store
pub mod Otlp
pub mod Alert
pub mod Forward
pub mod Model
pub mod Pipeline
pub mod Syslog
