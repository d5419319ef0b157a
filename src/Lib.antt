-- ===== src/Lib.antt =====
-- A verification library for the Rust crate of this repository: tools for an exchange or custodian
-- on Kaspa's testnet TN10. It models the parts of src/ that keep state or decide about money, and
-- proves what makes them correct.
--
-- How the parts interact. A watcher (src/watch.rs) turns snapshots of an address's outputs into
-- deposits that are deep enough, through a tracker (src/exchange.rs). Withdrawals are confirmed once by
-- src/exchange.rs and durably by src/withdrawal_ledger.rs. The frames of an operator's own node
-- (src/wrpc.rs) are journalled, projected onto the live outputs, and replayed into the deposit ledger
-- (src/deposit_ledger.rs), which credits and reverses deposits. Its events wait in its outbox, from which
-- workers claim them under a lease, and go by webhook to an inbox (src/outbox_receiver.rs), which takes
-- each once. Before money moves, src/owned_node.rs and src/owned_node_gate.rs decide whether the
-- operator's own nodes are healthy. src/krc20.rs keeps token balances from a feed of inscriptions, and src/covenant.rs holds off-chain policies for coins.
-- All of them classify and validate addresses by src/network.rs.
--
-- Files, and the code each models:
--   Base and below: lists, texts, maps, results, the sizes of the machine integers. A text is the list of
--     its Unicode scalar values; `str::len` counts UTF-8 bytes. A map or a set is an association list
--     whose laws are those of a HashMap; where the source walks one, the model walks it in one
--     order, and no theorem depends on which.
--   Network: `classify_address`, `is_valid_testnet_address` with `cashaddr_polymod`, `require_tn10`.
--   Krc20: `Krc20StateEngine` with `apply`, and below it the inscription builders. `u128` sums are
--     checked as the source checks them. `serde_json::from_str` and `str::to_uppercase` are parameters of
--     which nothing is assumed. What the source writes before a failure is written in the model.
--   Outpoint, Exchange: `DepositTracker` and `confirm_withdrawal`.
--   Watch: `DepositWatch::apply` and the snapshot's validation.
--   Withdrawals: `register`, `observe`, `advance`, `get` of `WithdrawalLedger`. The SQL table is a map by
--     its primary key, and each statement a change of one row; an error rolls the transaction back.
--   EventKey, Receiver: the event key and `OutboxReceiverStore::accept`.
--   Outbox: `claim_next_delivery`, `acknowledge_claim`, `release_claim`, `fail_claim`, `acknowledge_event` and
--     `requeue_dead_letter` of `DepositLedger`; a claim keeps its write if the row does not decode.
--   Deposits: `import_legacy_credit`, `reconcile` and `reverse_credited_on_reorg` of `DepositLedger`, with the
--     inserts into its outbox. Below it: what was sent of an outpoint (Sent, Rows), the agreement of rows and
--     events (Invariant, Calls), what every call keeps (Later), the runs of the ledger with its workers
--     (Runs, History), and the same reconciliation twice (Again, Settles, Twice).
--   Wrpc: the node's entries and their validation; Codec, `decode_notification` over an interface for
--     serde_json of which nothing is assumed; Journal, `WrpcJournal`; Projection, `WrpcDepositProjection`;
--     Bootstrap, `bootstrap_addresses`; Replay, `replay_into_ledger_addresses` and
--     `apply_pending_journal_frames`. Valid, Rebuilt and the children of Journal, Projection and Replay hold
--     the proofs. The order in which a HashSet is walked is that of insertion.
--   Delivery: the loop `deliver` of src/bin/tn10_outbox.rs, with `retry_delay_seconds` and
--     `record_delivery_failure`, against `receive` of src/bin/tn10_outbox_receiver.rs. Every round says what the
--     clock shows and which of the request and its answer are lost.
--   OwnedNode: `owned_node_stage`, `assess_owned_node`, `select_primary`, `choose_failover_index`.
--   NodeGate: `report_from_probe`, `evaluate_owned_node_gate`, `summarize_gate`, `run_owned_node_gate`.
--   Covenant: the three policy engines, with the runs of successful spends.
--
-- Numbers are natural numbers; what the source bounds is bounded where it does so (`checked_add`, the
-- range of SQLite's INTEGER, `u64` parsing), and `saturating_sub` is subtraction that stops at 0. The sum
-- of a tick's outputs wraps at 2^64 as it does in a release build. All recursion is structural; the
-- decimal form of an output index has fuel for ten digits, which a `u32` does not exceed.
--
-- Not modelled: sockets, HTTP, TLS, JSON and SQL themselves, file schemas, the command-line programs
-- but for the delivery loop, the integrator's HTTP API, the clients of indexers and of other chains, the
-- inclusion proofs, the scripts in other languages and the examples. What a call on the projection leaves behind when it
-- fails is not modelled either.
pub mod Base
pub mod Covenant
pub mod Delivery
pub mod Deposits
pub mod EventKey
pub mod Exchange
pub mod Krc20
pub mod Network
pub mod NodeGate
pub mod Outbox
pub mod Outpoint
pub mod OwnedNode
pub mod Receiver
pub mod Watch
pub mod Withdrawals
pub mod Wrpc
