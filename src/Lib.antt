-- ===== src/Lib.antt =====
-- sigil-siem is a security event store with detection: events are ingested, matched against Sigma
-- rules, correlated and indexed, by nodes that form a cluster. This library models its decision
-- logic as functions and states what makes that logic correct. The parts:
--
-- Raft, for crates/sigil-cluster/src/raft.rs, replicates a log among the nodes. The source makes it
-- free of I/O: `RaftNode` is a record here as there, and a method `&mut self` that returns envelopes
-- is a function to the new node and the envelopes. A slice or an index out of range panics in the
-- source, and the function's result is then `none`. Raft.Types has the data; Raft.Init `new`;
-- Raft.Node the accessors, ticks, elections, proposals and `advance_commit`; Raft.Step `step`, one
-- function for each message; Raft.Driver `decode_step`, `send` and the topics of `RaftDriver`, over
-- any codec of messages. Bounds, Panics, Frame, Commit, Committed, Elections, Votes and Replication
-- prove; Raft.Run has the runs of one node, a list of ticks and messages. Raft.Cluster has many nodes
-- and the messages between them: System is the step relation, with a history of what was sent,
-- counted and led, and Invariant what every call keeps; Raft.Turns says what one call of one node
-- does to its vote and its claim to lead, Raft.Turning and Raft.Says that every call does so. A step
-- is a tick, a proposal or the arrival of any message of the history at a node it is for, so messages
-- may be lost, late or reordered. Terms and indexes are
-- `u64`, the counter of quiet ticks is `u32`: sums are written with their wrap-around, as a release
-- build computes them.
--
-- Transport, for the frames of crates/sigil-cluster/src/transport.rs, carries the envelopes between
-- nodes: topic and payload, each behind its length in four bytes, the most significant first.
-- Reading is on fuel, one more than the bytes of the stream, since a frame takes eight at least. A
-- topic is a text: Utf8 has its bytes and `from_utf8_lossy`, which reads bytes that are no character
-- as U+FFFD, and Topics shows that the bytes of a text are read as the text.
--
-- Shard, for crates/sigil-cluster/src/shard.rs, places keys on nodes. The hash of the standard
-- library is a parameter, any function of what is fed to the hasher.
--
-- Roles, for crates/sigil-cluster/src/role.rs, resolves the configured targets of a node.
--
-- Ingest, for crates/sigil-ingest/src/cef.rs, reads lines of the Common Event Format. Cef has the
-- header's loop and the escapes, with the character behind a backslash taken in the same step;
-- Record `parse_cef`, over any finder of keys in place of the regular expression, with positions
-- counted in characters and not in bytes; Headers and Values compare with lines that are written.
-- Leef and Attributes do so for the other format, crates/sigil-ingest/src/leef.rs.
--
-- Plugin, for crates/sigil-plugin-wasm/src/capability.rs, has the capabilities that a plugin asks for
-- and the policy that grants them; an error is `none`, and its text is left out.
--
-- Condition, for crates/sigil-sigma/src/condition.rs, reads and evaluates the `condition:` of a Sigma
-- rule. Lexer and Parser follow the source; the parser's functions call one another without a bound
-- there, and take fuel here, four for each token and four more, which Condition.Fuel shows to be
-- enough. Grammar states the language apart from the parser, as a relation with one constructor for
-- each production; Complete and Sound compare the two. Print writes an expression with as few
-- parentheses as the grammar needs; Eval and Meaning are the evaluation and its meaning. An
-- expression deep enough to exhaust the stack of the process is not told apart from the others.
--
-- Event, for crates/sigil-core/src/event.rs, the alert of crates/sigil-core/src/plugin.rs and the field
-- lookup of crates/sigil-sigma/src/matcher.rs, has the event, its classes and severities with their
-- numbers, and what a field name finds on an event. JSON values are a parameter with the two answers of serde_json that the source uses.
--
-- Matcher, for crates/sigil-sigma/src/matcher.rs, has the modifiers of a field's key, the predicates
-- that its values become, and the selections that combine them. The regular expressions of the crate
-- `regex`, and the lower case of all Unicode, are parameters.
--
-- Detection, for crates/sigil-sigma/src/engine.rs and rule.rs, compiles a rule, matches events and
-- makes alerts; Loading proves what a compiled rule has. The values of serde_yaml are a parameter,
-- with a view of their cases, and so are its `as_str` and `is_mapping`, which look through tags.
--
-- Correlation, for crates/sigil-sigma/src/correlation.rs, aggregates the alerts of events in windows
-- by group. Timespan and Rule read and compile a rule; Engine keeps one function from groups to
-- windows for each rule, and `process` feeds it an event. The wall clock is a parameter, one reading
-- for each rule. Spans, Fires, Eviction, Firing and Loading prove. `i64` values wrap as in a release
-- build, and splitting a text inside a character is a panic, `panicked`.
--
-- Store, for crates/sigil-store/src/lib.rs, keeps alerts with their triage, and saved objects. redb
-- and serde_json are the parameter Backend, with the laws IsLawful: a row that is written is read
-- back, other rows stay, JSON that is written is read back. Memory is a table that meets them. A
-- call gives the new store, or `none` for an error; the clock and the hasher are parameters.
--
-- Index, for crates/sigil-index/src/catalog.rs, lists the segments of the index. Writing the catalog
-- is a parameter that may fail, and the change in memory then stays. `remove` also gives the paths
-- of the files it removes, in their order; the errors of a removal are ignored, as in the source.
--
-- Edr, for crates/sigil-edr/src/tokens.rs, registry.rs and queue.rs, enrols endpoint agents, keeps
-- their sessions and issues commands, with saved objects for its records. A channel is the number of
-- those made before it. During a send other tasks run: `enqueue` takes what they do as a parameter.
-- Gateway, for the start and the end of a session's task in crates/sigil-edr/src/server.rs, has the
-- Hello that connects, the registry's hold on a channel and the disconnect when the task is over.
--
-- The number of a quantifier is read as `usize` of 64 bits. Maps are association lists, or functions
-- where every missing key has the same default; the order in which the source iterates a `HashMap` is
-- left open there, and here it is the order of the list.
--
-- Not modelled: sockets, tasks, locks and clocks; the databases, index engines, regular expressions,
-- YAML and JSON readers and WASM host that the source calls; floating-point scores; the HTTP and
-- command-line wiring; the endpoint agent; the user interface.
mod Prelude
pub mod Raft
pub mod Transport
pub mod Shard
pub mod Roles
pub mod Condition
pub mod Ingest
pub mod Plugin
pub mod Event
pub mod Store
pub mod Index
pub mod Edr
pub mod Matcher
pub mod Detection
pub mod Correlation
