-- ===== src/Lib.antt =====
-- StratumBee is a solo mining pool for Bitcoin: it takes block templates from a node, sends them as
-- jobs to miners over the Stratum protocol, checks the shares that come back, submits the blocks
-- among them, and keeps statistics. This library models the parts that decide what is mined and
-- counted, with theorems on them, which the list at the end names.
--
-- Base holds the shared names: tests, lists and words over the native numbers, text as its bytes,
-- results with a message, integers. Crates holds the functions of the third-party crates (`sha2`,
-- `hex`, `bitcoin`, `num_bigint`) as parameters with the laws that the code relies on, and Float
-- those of `f64`. A message of an error is its literal text, without the values in it.
--
-- Hash models src/hash.rs. Encoding models src/bitcoin_encoding.rs (Encoding/HexText with
-- `parse_u32_be_hex`) and the variable-length integers, with `read_varint` of src/p2p.rs
-- (Encoding/Varint).
-- Merkle and Template model functions of src/template.rs: `build_merkle_branches`, the witness
-- commitment and the transaction root (Merkle), script numbers and pushes (Template/Script),
-- compact targets (Template/Compact), the coinbase (Template/Coinbase), and the rules of a template
-- with small tests of the engine (Template/Rules). Job is the template that a job is made from, and
-- Config the settings of src/config.rs, with the sections of the file (Config/Sections), `load` from
-- the parsed file and the environment on (Config/Load), the validation (Config/Valid), and theorems on
-- both (Config/Accepted, Config/Loaded).
-- Template/Engine is the state that the clones of `TemplateEngine` share. Its children are the jobs
-- (`build_job` and `build_empty_job`, Template/Engine/Job), `apply_gbt_response` and the loops that
-- call it (Template/Engine/Refresh), `handle_fast_block_announcement` (Template/Engine/Fast) and
-- `submit_block` (Template/Engine/Submit); Template/Engine/Heights has the steps of all the tasks as
-- one relation. What the node answers is an argument of a step. A step runs whole, since a task
-- that changes the job holds the engine's permit; a task that meets the permit taken is a step too.
-- P2p models src/p2p.rs: the frames (P2p/Frame), the version message (P2p/Version), what a peer
-- announces (P2p/Announce) and the session (P2p/Handshake), a function from the messages that come,
-- each with the engine's current job at that time, to what is sent and announced to the engine.
-- Share models src/share.rs: `validate_share` takes the job, the coinbase up to the second
-- extranonce and the submission, and gives the result with the block, if it is one. The system time
-- is an argument.
-- Vardiff models src/vardiff.rs, the controller of a session's difficulty.
-- Session models the state of one Stratum V1 session in src/stratum.rs: job identifiers
-- (Session/JobId), the duplicate check of `handle_submit` (Session/Dedup), and `SessionState` with
-- `push_job`, `find_job` and the bootstrap flags (Session/State); the line reader (Session/Lines),
-- the messages to the miner (Session/Messages), `mining.subscribe` (Session/Subscribe),
-- `mining.configure`, `mining.suggest_difficulty` and the password of `mining.authorize`
-- (Session/Requests), and `handle_submit` (Session/Submit), which gives the session behind it and a
-- list of effects: what is sent, counted and recorded, and the block whose submission is started.
-- Its share goes to Share, its block to Template/Engine/Submit, and its reports to Metrics.
-- Session/Notify has the tasks that send a session its jobs, and Session/Steps these as one
-- relation on sessions, but for the subscription.
-- Metrics models src/metrics.rs: counters (Metrics/Counters), the store and its pruning
-- (Metrics/Store), shares (Metrics/Shares), blocks and reports (Metrics/Blocks). A hash map is a
-- list of keys and values (Metrics/Maps). Monitor models `refresh` of src/block_monitor.rs, which
-- asks the node for the confirmations that Metrics/Blocks records, and Rpc what src/rpc.rs makes of
-- an answer of the node.
-- Examples applies the theorems at concrete inputs, with concrete functions for the crates and
-- natural numbers in the place of `f64`.
--
-- A method on a mutable value is a function from the value before to the value after. Times are
-- natural numbers, in milliseconds but for the seconds of `validate_share`. A loop on a Merkle
-- level has as much fuel as the level has hashes, and each round leaves fewer; the loop over the
-- bytes of a 64-bit number has nine rounds, of which eight can be needed. Words of a fixed width
-- wrap where the code wraps.
--
-- The loop of `refresh_template` has as many turns as the list of its rounds, and returns none where
-- they end first. A round carries what the other tasks make of the engine at each of its pauses; block submission makes five attempts.
--
-- Not modelled: sockets, timers and log lines; the tasks around a session in src/stratum.rs, with
-- its reading loop and the latency probes; src/sv2; the HTTP interface; sending a request to the
-- node; and parsing the file of settings.
pub mod Base
pub mod Crates
pub mod Encoding
pub mod Hash
pub mod Merkle
pub mod Float
pub mod Config
pub mod Job
pub mod Share
pub mod Template
pub mod Vardiff
pub mod Session
pub mod Metrics
pub mod P2p
mod Examples
pub mod Monitor
pub mod Rpc
