-- ===== src/Lib.antt =====
-- A model of slog-agent, a log agent that reads syslog records over TCP, transforms them, and forwards
-- them in chunks to an upstream server, keeping chunks on disk when the upstream is slow.
--
-- The way of a record: a TCP connection is cut into records by the multi-line reader; each record is
-- parsed into the fields of a schema; transforms change or drop it; an output serializes it, with
-- rewriters for some fields, into chunks; a chunk is accepted by the hybrid buffer, which keeps it in
-- memory or on disk; the feeder of the buffer hands chunks to the client of the output, which sends
-- them over sessions, waits for their acknowledgement, and reports each chunk back to the buffer as
-- consumed or as left over.
--
-- The files and what they model:
-- - Base: lists, slices, byte strings and tests on native numbers.
-- - Text/Utf8: CleanUTF8 and OverwriteNTruncate, util/utf8.go and util/strings.go.
-- - Text/Unescape: Unescaper, util/stringunescape/unescape.go, and base/bsupport/unescape.go.
-- - Input/Protocol: TestRecordStart and the name tables, input/syslogprotocol. Input/Protocol/Start
--   describes the head of a record.
-- - Input/MultiLine: multiLineReader, input/tcplistener/multilinereader.go, with Read, Flush, FlushAll
--   and checkOverflow; Scan, Invariant and Lossless are its proofs. The test of a record start is a
--   parameter of these.
-- - Input/Parser: syslogParser.Parse and its helpers, input/syslogparser/syslogparser.go, with
--   base/loginputcounterset.go; Safety and Fields are its proofs.
-- - Transform/Matcher: base/bmatch. Transform/Run: RunTransforms of base/bsupport/logtransforms.go and
--   the Transform methods of if, switch, block, addFields, delFields, drop, mapValue and truncate
--   (transform/t*). Fits, Safety, Drop and Fields are its proofs.
-- - Pipeline/Worker: LogProcessingWorker, base/bsupport/logprocessingworker.go, over an interface of
--   serializer and chunk maker; Order is its proofs.
-- - Output/Rewrite: the rewriters of rewrite/ and transform/tunescape.
-- - Extract/Pattern, Label, Search: the string extractor of transform/textractspecial/stringextractor.go.
--   Extract/Transform: extractHead and extractTail; Sound is its proofs.
-- - Time/Rfc3339: the parser of timestamps and the parseTime transform, transform/tparsetime; Printed
--   has the printed form and its proofs.
-- - Redact/Email: transform/tredactemail/redactemail.go; Masked, Signs and Loop are its proofs.
-- - Msgpack/Writer: output/fastmsgpack. Msgpack/Decode: a reader of the format, written from the
--   format. Laws and RoundTrip say what the writers leave and how it reads.
-- - Output/Event: the event serializer of output/fluentdforward/eventserializer.go, its constructor,
--   and eventtime.go. Value, Field, Fields, Environment, Reserved, Stream, Serialized and Served follow
--   encodeRecord from one value to the whole stream; Rewriters puts Output/Rewrite behind the
--   interface that the serializer uses.
-- - Chunk/Id: output/shared/chunkidgen.go. Chunk/Packer: messagepacker.go and chunkfactory.go of
--   output/shared with output/fluentdforward/chunk.go; Laws and Limits are its proofs.
-- - Orchestrate/KeySet: orchestrate/obykeyset with util/localcachedmap and base/fieldsetextractor.go;
--   Routing, Accepted, Closed and Shared are its proofs.
-- - Buffer/Disk: the chunk directory and the gauges. Buffer/Operator: chunkOperator. Buffer/Manager:
--   chunkManager. Buffer/Bufferer: bufferer and outputFeeder, all of buffer/hybridbuffer. Accounting,
--   Sound, Steps, Space, Stored, Settled and Shutdown are the proofs.
-- - Client/Leftovers: newLeftoverChannel. Client/Session: clientSession, with its functions cut where
--   the code waits; Steps has the interleavings of sender and acknowledger; Kept and Complete are the
--   proofs. Client/Worker: ClientWorker. All of output/baseoutput.
--
-- State and time. A Go struct is a record, a method a function from the old to the new record. What
-- the environment decides (the result of a system call, of a send, the answer of the peer, which
-- branch of a select is ready) is an argument or a choice of step. Concurrent parts are relations of
-- single steps, and invariants hold for every sequence of them. Panics are results: Parse, the
-- matchers and the transforms return them. Numbers are unbounded, except where a conversion checks a
-- range (strconv.Atoi on 64 bits); the counters of the program are far from their bounds.
--
-- Buffers. The serializer writes at positions of one buffer, which it keeps from record to record: the
-- model has the whole buffer and the position, a write out of range is a panic, and a copy is cut where
-- the buffer ends. Its proofs state each writer as the bytes that it leaves in front of the rest.
--
-- Fuel. The loop of the multi-line reader takes the length of its buffer as fuel, since each round
-- moves its search offset on; the loop of RunToBuffer takes the length of its source, since each round
-- takes two bytes at least; the loops that redact take the length of the text, since each round moves
-- past a sign. All are shown to be enough where their results are stated.
--
-- What is taken from other packages: compiled globs and regular expressions and expanded templates are
-- functions; among the transforms of a list those that Transform/Run does not have are functions on
-- the record that may panic. The codes of MessagePack are the numbers of the format. For timestamps
-- the value of a fraction, which the code computes in floating point, time zones and the time of a
-- date are functions. The results of NewParser and of
-- the configuration are hypotheses on the locators.
--
-- What is not modelled: timeouts and deadlines, except as the choice to stop waiting; logging and
-- metrics other than the gauges and counters named above; the pooling of buffers and the reference
-- counts of records; the reading and checking of configuration; the forward
-- protocol and the JSON of the datadog output; the construction and the end of pipelines; reloading and
-- the command line; of the transforms replace and extract. Between two chunks of one ID the
-- standard library's sort promises no order, the model's keeps the earlier one first.
pub mod Base
pub mod Text
pub mod Input
pub mod Buffer
pub mod Client
pub mod Transform
pub mod Output
pub mod Pipeline
pub mod Extract
pub mod Chunk
pub mod Orchestrate
pub mod Msgpack
pub mod Time
pub mod Redact
