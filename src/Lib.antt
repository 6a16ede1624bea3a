-- ===== src/Lib.antt =====
-- Treble Tracker: a market data and trading terminal, its stateful core.
--
-- The program takes in ticks and quotes, shows and serves them, sends and receives orders over FIX,
-- and keeps what it sent and received under a retention schedule. The parts modelled here keep state
-- that a fault would corrupt without a trace; each has a file of definitions that follow the source
-- one operation by one, and modules under it for what is shown of them.
--
-- The parts and their files, with paths under treble/:
--   * Ems.Session (ems/session.py): `Session` is a record of the fields, `receive`, `encode` and the
--     messages built on it are functions from a session to a result and a session. An exception is
--     a value of `SessionError`, and the session beside it is the one that the caller still holds.
--     `receive` is cut at its early returns: accept_message, accept_parsed, accept_numbered,
--     accept_next, accept_logon. The parser and the encoder of the package simplefix are the record
--     `Simplefix`, a parameter, whose parser returns a message or none: an exception of the package
--     itself is not modelled. Ems.Wire is one instance, for the examples.
--   * Ems.Heartbeat (ems/heartbeat.py, and `_tick` of ems/transport.py): the session's clock, over
--     whole microseconds; `tick` is what one look of the clock task does to the monitor.
--   * Ems.Simulator (ems/simulator.py): the acceptor's book of resting orders, with `fill`, `_cancel`
--     and `_replace` and the messages that they send by the session. Reading and printing a float is
--     the record `FloatText`, a parameter. Ems.Simulator.Ledger and Account add up the prints on an order;
--     Ems.Simulator.Intake has `_accept` and `_slices`, and
--     Ems.Simulator.Client the requests of a client. `respond`, and the attributes that only make
--     the transport hostile, are left out.
--   * Ems.Executions (ems/executions.py and ems/orders.py): the fill that an execution report tells of
--     and the order that a new order single asks for, in the order in which the fields are read and
--     checked. Floats, `float` of a text, the shapes of a time and time zones are the record
--     `Readings`, a parameter. The facts that are stored of them are left out.
--   * Store.Payloads (store/payloads.py): the files by address, plain and compressed. SHA-256 and
--     gzip are the record `Archiver`, a parameter; that decompression undoes compression is a
--     hypothesis where it is used. `compress_existing` is compress_files, over the files in the order
--     in which it is passed them, with its limit, the names that it leaves out and its totals.
--   * Vault (vault/worm.py): the index of archived records over the payload store, and the index
--     file that every change writes. Vault.Dates has the calendar: `date.replace` raises where the
--     year is out of range or has no such day.
--   * Plant.Conflation (plant/conflation.py): the image of current values, the check of sequence
--     numbers, and the bounded stream of all ticks. Plant.Deque is `collections.deque(maxlen=...)`.
--   * Plant.Broadcast (plant/broadcast.py): subscriptions are objects of a heap, so that a
--     subscriber keeps its own when the broadcaster has dropped it. A method that holds a lock is one
--     step. `next_batch` gives up the lock while it waits, and what other threads do meanwhile is an
--     argument. `publish` copies the list of subscribers and then offers to each; it is one step
--     here.
--   * Plant.History and Plant.Vwap (plant/bars.py: `TickHistory`, `vwap_over`), Plant.Quotes
--     (plant/quotes.py): the ticks kept of each instrument, their average, and the contributed
--     quotes with their expiry and composites.
--   * Render.Canvas (render/canvas.py: `Canvas`, `Placement`, `Channel`): the components of a
--     workspace as a dict, their channels and the instrument that each shows. Render.Frame has
--     `normalise_content` and `frame_lines`, with a text as a list of code points.
--   * Render.Layout (render/layout.py): moving and resizing under the check of overlaps, and the saved
--     layout as a value. A corner is a pair of integers: `Placement` refuses a negative one, but a
--     move makes the new placement by a copy that checks nothing, and the sizes are natural numbers,
--     which `resize_component` checks itself.
--   * Compliance.Rules (compliance/rules.py): one test for each predicate, cut at the branches of
--     `evaluate`, and `run`. A detail is the data that its sentence names. Floats, their sum, `float`
--     of a text and `str.upper` are the record `Builtins`, a parameter. Compliance.Loader
--     (compliance/loader.py) reads a mandate from what the YAML parser returns.
--   * Core.Identifiers and Core.Positions (core/identifiers.py): FIGI, LEI and ISIN with their check
--     digits, the CUSIP in an ISIN, and the subjects of positions. Core.Chars has Python's tables of
--     characters as a record, a parameter; `IsPython` says what they hold for ASCII.
--   * Core.EntityGraph (core/entity_graph.py): the fields and values of relationship records, the
--     edges that they make, and the resolution of a parent.
--   * Prelude: the standard library, Python's dict, bytes, `int` and `str` as the code uses them.
--     `Prelude.Float` stands for floats: a type with operations, of which a theorem says what it
--     assumes.
--
-- The vault stores its documents in the payload store and is the client of its operations. The clock
-- task asks the monitor what is due and sends by the session. The broadcaster and the history take the
-- ticks that the plant took. A layout moves the components of a canvas. The mandates that the loader
-- reads are what `run` tests, and the entity graph takes the shape of an LEI from the identifiers.
--
-- Bounds. Sequence numbers, sizes and times are natural numbers without a bound, as Python's integers
-- are; a number in a message is an integer and may be negative. No definition needs fuel: each loop
-- of the source that is modelled is over a list, or counts up to a number.
--
-- Not modelled: sockets, files and JSON as such, threads between two steps, the wording of error
-- messages, SHA-256 over a rule set, and the parts of the program outside these: ingest, analytics, the
-- query language, the screens, the fact store and messaging.
pub mod Prelude
pub mod Ems
pub mod Store
pub mod Vault
pub mod Plant
pub mod Render
pub mod Compliance
pub mod Core
