-- ===== src/Lib.antt =====
-- A verification library for UTXO_Block_Emulator, a Go emulator of sharded blockchains.
--
-- A shard is a group of nodes that run a PBFT consensus on blocks. A node keeps a blockchain: pools of
-- transactions that wait, the top block, a trie of the accounts' balances (account mode) or of their
-- unspent outputs (UTXO mode), and a store of blocks. The main node of a shard packs a block from its
-- pool and proposes it; when a block is committed, it relays the transactions whose recipient lives in
-- another shard to the main node there.
--
-- Which file models which part:
--   Core/Account, Transaction, UtxoTransaction, Block: the structs of core/. TxPool: core/txpool.go, and
--     by it core/utxo_txpool.go (UtxoTxPool), which is the same code at another type.
--   Message, Message/Prefix: message/, shard/nodes.go; MergeMessage is merge_message, SplitMessage
--     split_message.
--   Utils: utils/, Addr2Shard is addr_to_shard.
--   Chain/Ledger: chain/blockchain.go, GetUpdateStatusTrie (update_status_trie; its loop is handle_txs,
--     one round handle_tx). Chain/Blockchain: the rest of that file: GenerateBlock is generate_block,
--     AddBlock add_block; Genisis has NewBlockChain, Accounts has AddAccounts and FetchAccounts.
--     Chain/UtxoTx: NewUTXOTransaction, and the loop of TxTransform.
--   Chain/StatusTrie, Chain/UtxoSet: chain/utxo_set.go, the parts on the trie and on the bolt bucket.
--   Chain/Storage: storage/storage.go, whose AddBlock is store_block.
--   Pbft: consensus_shard/pbft_all/pbft.go and toolFuncs.go, the state; Pbft/Handlers: messageHandle.go,
--     one function for each handler, and handle_message for handleMessage.
--   Pbft/Modules: pbftInside_module.go (RawRelay), pbftInside_module_utxo.go (UtxoRelay),
--     pbftOutside_module.go and pbftOutside_module_utxo.go (Outside).
--     The broker module is RawBroker (pbftInside_moduleBroker.go), and pbftOutside_moduleBroker.go in
--     Outside.
--   Pbft/Clpa: dataSupport/clpaData_Extra.go and message/message_CLPA.go; Pbft/Clpa/Transfer:
--     accountTransfer_module.go; Pbft/Clpa/Inside and Outside: pbftInside_moduleCLPA.go and
--     pbftOutside_moduleCLPA.go. The chain of such a node is a ClpaChain, with the shared data.
--   Pbft/ClpaBroker: accountTransfermod_Broker.go (Transfer), pbftInside_modCLPABroker.go and
--     pbftOutside_modCLPABroker.go.
--   Hotstuff: consensus_shard/synchotstuff_all/synchotstuff.go, the state; Hotstuff/Handlers: its
--     messageHandle.go; Hotstuff/Relay: synchotstuffMod_Relay_utxo.go; Hotstuff/Outside:
--     OutsideModRelay.go. Hotstuff/Frame and Hotstuff/Framed play the part of Pbft/Frame.
--   Partition: partition/graph.go (Graph) and partition_CLPA.go: its counts are Counting and Clpa, the
--     initial partitions and CLPA_Partition (clpa_partition) Labels.
--   Supervisor: supervisor/signal/supervisorStopModule.go; Supervisor/Sending: txSending of
--     supervisor/committee/committee_relay.go and committee_broker.go; Supervisor/Handling: data2tx and
--     the row loop of the relay committee's TxHandling; Supervisor/Brokers: the handlers
--     of committee_broker.go, message/message_broker.go and broker/broker.go's maps.
-- The extra modules of the consensus node are a record of operations (Pbft.InsideMod), as in
-- pbftMod_interface.go; what the protocol relies on of them is Pbft/Frame, and Pbft/Modules/Framed shows
-- it of the two modules.
--
-- How the code is read. A method that changes its receiver returns the new state. `log.Panic`, a read
-- out of range, a write to a nil map and an unlock of an unlocked mutex are the outcome `panic`; a lock
-- that is held is `blocked`. A Go map is an association list, and its order an order in which `range` may
-- visit it. `*big.Int` and `int` are integers, `uint64` sums wrap around. Texts are lists of bytes, and
-- the hexadecimal form of an id stands for the id. A decoded message has a new `SenderNode` pointer,
-- which is a number (Node.next_ptr). What a node sends is a list in its result.
--
-- Loops are recursion on lists. The loops over heights and shards recurse on the number of rounds, which
-- is computed from the bounds as the code has them: end + 1 - start for heights below 2^64 - 1, and
-- ShardNums for shards; so no fuel can run out.
--
-- The main loops of the nodes are runs: sequences of events, each of which is one message or one timer
-- that ran out and is handled whole, under the locks that the code holds.
--
-- Parameters, which are not in the repository: Go's floating point numbers (Partition/Labels), go-ethereum's trie and its database (Chain/TrieDb, and
-- Chain/TxRoot for a block's transactions), bolt's buckets (Chain/Bucket), the gob and JSON encodings,
-- SHA-256, random nonces and clock readings. TrieDb and Bucket have instances in memory, on which the
-- examples run. A trie knows whether an update has changed it; committing one that has not changed
-- panics (commit_nodes), since its node set is nil.
--
-- Not modelled: networks/, build/, query/, test/, the supervisor's main loop, its CLPA committees, the
-- reading of files, measurement, logging and printing.
pub mod Base
pub mod Core
pub mod Message
pub mod Utils
pub mod Chain
pub mod Pbft
pub mod Hotstuff
pub mod Partition
pub mod Supervisor
pub mod Examples
