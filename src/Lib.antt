-- ===== src/Lib.antt =====
-- A model of the core of the Fiber network node (fiber/), a payment channel node for CKB, and the
-- theorems about it.
--
-- The parts and how they interact:
-- - Tlc: the TLCs (time-locked contracts) of one channel, fiber/src/fiber/channel.rs. Tlc/Commitment
--   is `CommitmentNumbers`, Tlc/Id is `TLCId`, Tlc/Info is `AddTlcInfo`, `RemoveTlcInfo` and
--   `RemoveTlcReason`, Tlc/Kind is `TlcKind`, Tlc/Pending is `PendingTlcs` and Tlc/State is `TlcState`
--   with `unify_tlcs`, `commit_local_tlcs`, `filter_add_tlcs` and `apply_remove_tlc`. Each side of a
--   channel keeps a list of operations with an index up to which they are committed.
-- - Channel: the channel's actor, fiber/src/fiber/channel.rs. Channel/Flags is `ChannelState` and its
--   flags, Channel/Error is `ProcessingChannelError`, Channel/State is the part of
--   `ChannelActorState` that the TLC flow uses, Channel/Checks are its checks, Channel/Settle is
--   `remove_tlc_with_reason`, Channel/Parameters are the checks of a channel's parameters and of a
--   shutdown fee, and Channel/Messages the handlers of the peer's `AddTlc` and
--   `RemoveTlc`. They change the TLC state of Tlc and the two balances.
-- - History: what payment attempts showed of the channels. History/ErrorCode is `TlcErrorCode` and
--   `TlcErr` (fiber/src/fiber/types.rs), History/Internal is `InternalResult` with
--   its steps, History/Fail is `record_payment_fail`, and History/Pairs is `PaymentHistory` with `apply_pair_result` and
--   `apply_internal_result`, which takes an `InternalResult` (fiber/src/fiber/history.rs).
-- - Gossip: the messages by which nodes announce channels and themselves. Gossip/Message is the part of
--   fiber/src/fiber/types.rs with `BroadcastMessage` and its relatives, Gossip/Cursor is `Cursor` and
--   `BroadcastMessageID` with their bytes and orders, and Gossip/Store the gossip messages in the
--   database (fiber/src/store/store.rs), a map from byte keys. Gossip/Verify is what
--   fiber/src/fiber/gossip.rs checks before it saves a message (`verify_and_save_broadcast_message`),
--   and Gossip/Prune is `prune_messages_to_be_saved` with the messages that wait for their dependencies.
--   Gossip/Insert is how they come in (`insert_message_to_be_saved_list`), and Gossip/Query the answer
--   to a query (`query_broadcast_messages`).
-- - Graph: the network as a node knows it, fiber/src/fiber/graph.rs. Graph/Info is `ChannelInfo` and
--   its relatives, Graph/State is `NetworkGraph` with what gossip messages, failed channels and failed
--   nodes change in it and `get_node_inbounds`, Graph/Route is `build_route` behind `find_path`, and
--   Graph/Session is `SessionRoute` and `PaymentSession`.
-- - Payments: the payments that a node sends, fiber/src/fiber/network.rs. Payments/Request is
--   `SendPaymentData::new`, Payments/State the sessions, the graph and the delayed retries with
--   `update_graph_with_tlc_fail`, Payments/Send is `on_send_payment` down to
--   `send_payment_onion_packet`, and Payments/Remove is `on_remove_tlc_event`. Payments/Steps has the
--   calls as steps of a state machine. They take hops from Graph, and tell Graph and History what an
--   attempt showed. What path finding, the onion crate and the first channel answer, and what the
--   store has of gossip messages, comes with each call.
-- - Fee: `calculate_tlc_forward_fee` of fiber/src/fiber/fee.rs. Cch/Orders: `CchOrdersDb` of
--   fiber/src/cch/orders_db.rs with its orders, in which a call has a result and leaves a database
--   behind also when the result is an error.
-- - Common: lists, `BTreeMap` and the outcome of a call. Tests: data, runs and applications.
--
-- Conventions. An operation takes the state and gives an `Outcome`: a value, an error value, or a
-- panic. fiber/Cargo.toml sets `panic = "abort"` and `overflow-checks = true` for the release build,
-- so that an overflow, an index out of range and a failed `assert!` are all a panic; `debug_assert!`
-- is not there. Integers are natural numbers, and the code's additions are compared with 2^64 or
-- 2^128. No function runs on fuel: every loop of the code is over a list or a range, and is
-- structural recursion here. A `BTreeMap` is a list of entries in the order of the keys; a `HashMap`
-- is one too, whose order no theorem but for the order of application depends on. Hashes, keys,
-- outpoints and secrets are numbers; the clock and the hash functions are parameters.
--
-- Not modelled: commitment signatures, funding, shutdown and reestablishment of a channel, the onion
-- packets, path finding, the syncing of gossip messages, invoices, the rest of the
-- store, the watchtower, RPC, peers and sessions of the network actor, and the actor of the cross-chain
-- hub. The probabilities of `PaymentHistory` and the weights of path finding are floats and are left
-- out. What is left to third-party crates (musig2, secp256k1, ckb-sdk, rocksdb, molecule) is a
-- parameter where the code above relies on it, and is not modelled otherwise.
pub mod Common
pub mod Tlc
pub mod Channel
pub mod History
pub mod Fee
pub mod Gossip
pub mod Graph
pub mod Payments
pub mod Cch
mod Tests
