-- ===== src/Lib.antt =====
-- A model of the core of a central limit order book: crates/domain, crates/matching, crates/risk,
-- crates/engine, the frames and messages of crates/wire, and the encoder of crates/marketdata.
--
-- The parts. Domain holds the value types and the byte codes of crates/domain. Matching is the
-- order book of crates/matching/src/book.rs: it keeps two price-indexed sides of levels, a sidecar
-- index of the resting orders and an index of their ids by account. Wire holds the client commands
-- of crates/wire/src/inbound and the messages of crates/wire/src/outbound. Risk is
-- crates/risk/src/state.rs: the checks that gate a command before the book sees it, and the
-- counters per account that follow what rests. Wire/Framing.antt is crates/wire/src/framing.rs.
-- Engine is crates/engine/src/engine.rs: one command at a time passes the risk check, changes the
-- book, the registry and the risk state, and is reported to the sink together with the levels that
-- it changed. Collections holds the maps and sets of Rust's library, and Prelude what all modules
-- share.
--
-- How they correspond. Engine.antt is the struct Engine; Engine/Entry.antt is handle_new_order,
-- Engine/Changes.antt the other handlers, Engine/Fills.antt emit_fills_for_taker and
-- emit_stp_cancels, Engine/Reports.antt the emit functions, Engine/Deltas.antt the level deltas
-- and Engine/Step.antt step. Engine/Ids.antt and Engine/Clocks.antt are ids.rs and clock.rs; a
-- clock is a state that a reading may move on, and the sink is the list of VecSink in
-- crates/marketdata/src/sink.rs. The files of Wire/Inbound and Wire/Outbound named for a message
-- are its parse and encode; their Frames.antt is parse_frame, and Marketdata.antt is
-- crates/marketdata/src/encoder.rs. Matching/Book.antt is the struct Book and its queries,
-- Matching/Resting.antt add_resting and cancel, Matching/Walk.antt match_aggressive,
-- Matching/Modify.antt replace and mass_cancel, Risk.antt RiskState, Wire/Framing.antt the frames;
-- each function has the name of the Rust function, and each helper is a block of it. A mutable
-- book is passed in and returned. A HashMap is a function, since the code only looks keys up; a
-- BTreeMap is a list in ascending order. Prices and quantities are natural numbers with the
-- predicates IsPrice and IsQty for the range of the newtype; ids are natural numbers.
-- Matching/Sweep.antt is the specification of matching on plain lists, Matching/Ladder.antt shows
-- a side of the book as such a list, and Matching/Walk/Refinement.antt and
-- Matching/Walk/Answer.antt tie the two together.
--
-- Third-party code. The container of one price level is the crate pricelevel. Matching/Level.antt
-- takes it as a parameter: the operations that the book calls, and the laws that it relies on. A
-- failed listing of a level stops the walk in the code; the theorems on match_aggressive assume
-- that it does not fail. Tests/Fifo.antt is an instance at which the laws hold. The packed structs
-- of the payloads are read and written by the crate zerocopy: Wire/Layout.antt takes that as a
-- parameter, and the files of the messages model the checks around it. Tests/Payloads.antt,
-- Tests/Reports.antt and Tests/Packed.antt are little-endian layouts at which the law holds.
--
-- Bounds and fuel. The walk runs on fuel of one more than the number of levels on the other side:
-- each round takes a level off the book or is the last. The merge of the level deltas runs on the
-- sum of the lengths of its lists: each round uses up an element. Arithmetic on machine integers
-- is checked or reduced where the source does so: the arrival counter and the counters per account
-- are checked, the total of a side wraps, and a notional is a u128 product.
--
-- Not modelled. The gateway, the clients, the binaries and benches, the system's clock, files and
-- sockets. The counters' panic is modelled by the checked draws of Engine/Ids.antt and their
-- sequences in Engine/Ids/Drawing.antt; the generator of the engine's test runs is one for
-- sessions in which no counter overflows.
pub mod Engine
pub mod Marketdata
pub mod Prelude
pub mod Domain
pub mod Collections
pub mod Matching
pub mod Wire
pub mod Risk
pub mod Tests
