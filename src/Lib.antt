-- ===== src/Lib.antt =====
-- zkSync withdrawal finalizer: a model of the Rust program that watches withdrawals from zkSync
-- (L2) and finalizes them on Ethereum (L1), with the theorems about it.
--
-- The program. Two listeners read the events of the chains and send them to a watcher, which stores
-- what it is sent in a Postgres database: the L2 withdrawals, and which L2 blocks were committed,
-- verified and executed on L1. One task of the finalizer asks a node for the parameters of the
-- finalization of each withdrawal and stores them. The other, the finalizer loop, selects withdrawals that can be finalized, collects them in
-- an accumulator up to a gas or fee limit, simulates the call that finalizes the batch, sets aside
-- those that would fail, and sends the transaction, again with higher fees while it is not mined.
-- Then it records the batch as finalized or failed, and at the end of an iteration asks the
-- contracts on L1 which of those set aside are finalized already.
--
-- The files.
-- - Client: the types of client/src/lib.rs and zksync_types.rs. Addresses, hashes and U256 are
--   numbers. Errors has client/src/error.rs. Contract has client/src/zksync_contract.rs: the parser
--   of the pubdata that a committed batch has, on lists of bytes, where an index out of range is a
--   panic; Framing has the encoding of counts and lengths, Logs that of a batch and the reading
--   of its logs, Messages the reading of the whole batch, Calls is about single messages, and
--   Agreement about those that the client rebuilds itself. Node has the requests to a zkSync node, as
--   actions over its answers: Messages the message of a withdrawal, Params the parameters of a
--   finalization, Places and Origin where these come from, and Status the question whether a
--   withdrawal is finalized.
-- - Accumulator: finalizer/src/accumulator.rs. A `&mut self` method returns the new accumulator
--   next to its result; a panic is `none`. The BTreeMap is a list of entries in the order of the
--   keys (Common/BTreeMap). Its children prove what is removed (Removal, Unnamed), and
--   how far a batch goes beyond the limit (Room).
-- - TxSender: tx-sender/src/lib.rs. `Middleware` is the provider: any functions from the number of
--   the retry to its answers. `send_loop` returns the list of the transactions sent too. The loop
--   of the source has usize::MAX rounds, which is the fuel of the model (`max_attempts`): running
--   out is the source's own `unreachable`. Its children are about fees (Fees), about what is sent
--   (Retries), and about the answer (Answers).
-- - Storage: storage/src/lib.rs and storage/migrations. A table is a list of rows, a statement a
--   function of the tables (Db), by the documented meaning of the SQL: ON CONFLICT, the foreign
--   key, the sequence of the ids, NULL as `none`, a failing statement changes nothing. Scan is the
--   order in which the server returns rows that no ORDER BY arranges, any permutation. Blocks,
--   Withdrawals, Finalization, Tokens and Events have the statements of a table each, Selection
--   and Inclusion the queries that join them, Wipes the deletion of their content; its loops run
--   on fuel, of which one more than the rows of the largest table is enough.
-- - Finalizer: finalizer/src/lib.rs. A method that awaits is an action of the monad of
--   Finalizer/Monad on the loop's state: the withdrawals set aside, the tables, the number of
--   calls so far, and a trace of what was done, for the tests. World has the environment, which
--   answers the calls by their number: the node, the contracts, the clock, a lost connection, and
--   what the other tasks do to the tables between two statements. Batch and Loop are the methods.
--   Tables says which updates of the tables the answers from outside call for and which tables they
--   lead to; its children follow the code: Batches, Checks (the withdrawals set aside), Rounds and
--   Iterations, by the rules for pre- and postconditions in Keeping. Recorded is about a mined batch.
--   Params is the task that fetches the parameters, Params/Requests what it keeps of the answers.
-- - Watcher: watcher/src/lib.rs. Its two loops are actions on a state of their own (World), with
--   the same kind of environment; a stream is the list of the events it gives before it ends.
--   Blocks has the loop over L1: Ranges says what a batch writes, Order what the loop has written
--   when it ends, Tables what that makes of the tables. Withdrawals has the loop over L2: Groups is
--   about the numbers within a transaction, Numbering and Members about those of a stream,
--   Batching about the loop.
-- - ChainEvents: chain-events/src. Blocks is the listener on L1, Withdrawals the one on L2, each an
--   action over an environment that answers its calls by their number; a stream is the list of its
--   items, and the endless loop is its first n rounds. Deployments finds new tokens in receipts, Run
--   has the runs and rounds. Sending, Covering and Keeping say what the processing of a log sends
--   and keeps, Reading and Rounds what is sent up to the block where reading resumes, Stored what
--   the watcher makes of it, and Pagination is about the step of a query.
-- - Meter: withdrawals-meterer/src/lib.rs. The metrics are the list of the increments; how an
--   amount is formatted is a parameter. Cache compares the cache with the table, Increments is
--   about the metrics.
-- - Startup: bin/withdrawal-finalizer/src/main.rs, the blocks from which the chains are read.
-- - Common: lists, outcomes, U256, the ordered map, and actions on a state (Actions) with the rules
--   for their pre- and postconditions (Actions/Hoare).
-- - Tests: the theorems at concrete inputs, and a run of one iteration of the loop.
--
-- Numbers. A U256 operation that overflows panics; `saturating_mul` saturates. The casts between
-- u64 and bigint, and the conversions of amounts and proofs to their columns, are the identity on
-- the numbers that occur. The number of a transaction in its block has a smallint column, which is
-- modelled, since a u16 may exceed it.
--
-- What is not modelled. Metrics and logs; the meter's own work within the loops; the waiting itself
-- (a sleep is an action of the trace). The calls of a `join_all` are made in the order of the list.
-- The code that decodes and encodes logs and calls is generated, and a parameter; so is the order in
-- which a query lists the set of tokens. The API is not modelled, nor what the binaries do besides
-- Startup.
pub mod Common
pub mod Client
pub mod Accumulator
pub mod TxSender
pub mod Storage
pub mod Finalizer
pub mod Watcher
pub mod ChainEvents
pub mod Meter
pub mod Startup
pub mod Tests
