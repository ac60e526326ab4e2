-- ===== src/Lib.antt =====
-- The publisher watches an Osmosis full node and publishes what it sees, with values in USD. This
-- library models the indexer, which keeps what was seen, the client of the full node, the database
-- behind the indexer, the handlers that publish, the socket that they may publish to, and the
-- reading of the settings.
--
-- Parts, and the files that model them:
-- * the data that is exchanged (pkg/types/types.go, pkg/repository/types.go), float64 and results:
--   Types.antt. A time is its nanoseconds since 1970, a float64 a record of the operations used.
-- * the price cache (internal/indexer/prices.go): Prices.antt, with PriceMap.Set as `set_price`,
--   Nearest as `nearest`, Estimate as `estimate`, Sort as `sort`. The library search
--   slices.BinarySearchFunc is in Prices/Search.antt; a round more than the length is fuel enough,
--   since a round halves the range.
-- * the pool cache (internal/indexer/pool.go, PoolMap): Pools.antt, with Set as `set_pool`, Get as
--   `get_pool`, Has as `has_pool`, Prune as `prune_pools`.
-- * the interfaces that the indexer is given, the repository (pkg/repository/repository.go) and
--   the client (ExpectedRPC of internal/indexer/indexer.go): Interfaces.antt, as records of
--   functions over a state, with the laws `AnswersAll` of the client and
--   `NeverFails` of both.
-- * the indexer (internal/indexer/indexer.go): Indexer.antt, a record of its fields, and the steps
--   on it and the state outside that succeed, fail or panic. Its children: PoolStatus (pool.go
--   from PoolStatusesAt on), BlockClock (SetLatestBlockHeight, AverageBlockTime,
--   BlockToTimestamp), DenomTraces (ibc.go), Syncing (syncing.go, the loading and pruning, New).
--   There queueMissingHeights is one step on a queue; Syncing/Channel.antt has it as it sends into
--   the channel of 720 heights, in turns with handleSyncing, which receives.
-- * the volumes (internal/indexer/volume.go): Volume.antt. A price or a sum is a value of the
--   float64 record; the loops are recursion on what is left. fetchVolumeValuesPerBlockRange panics
--   when it makes slices for more entries than a slice can have, `max_slice`; a panic stands also
--   for its loop that does not end when the range goes up to the greatest uint64. Volume/Making.antt
--   has what the loop puts in when it does neither.
-- * the client of the full node (internal/osmosis/rpc.go, rpc.parsers.go): Osmosis.antt, with
--   Messages (the denominations of a transaction), Mempool (its poll), EventBuffer (bufferChannel,
--   as a list of steps of the goroutine and the reader in any order) and Queries (the questions to
--   the node, which fill ExpectedRpc, and with States and Diagnostics those about pools' states
--   and ranges of heights). The pages of DenomTraces are followed on fuel, and as many rounds as
--   the node has pages are enough.
-- * the pools of interest (internal/osmosis/subscriptions.pools.go) and the option of the pools to
--   monitor (internal/osmosis/options.go): Osmosis/PoolsOfInterest.antt. The messages of its
--   errors are without the numbers that they print.
-- * the denominations of a published message (getDenoms of internal/osmosis/publisher.go):
--   Osmosis/Denoms.antt.
-- * the publisher (internal/osmosis/publisher.go) and its handlers (subscriptions.block.go,
--   subscriptions.tx.go, subscriptions.price.go, subscriptions.pools.go): Osmosis/Publisher.antt,
--   with NewNonce as `new_nonce`, getStatus as `get_status`, and Handlers.antt, PoolEvents.antt
--   and Events.antt beside it, with handleBlock as `handle_block` and so on. The state is the
--   counters, the indexer and the outside; `sent` lists what Publish was called with, since
--   nothing looks at its result. `handle` is one event, `handle_all` events in any order.
--   Sentinel.antt and Watched.antt have MakeSentinel and the loops of handleBlocks and
--   handleTransactions, over events with the times when they are taken; the goroutine that fails
--   when the timer expires with no event is left out.
-- * the database (internal/repository/models.go, query.go, mutation.go): Database.antt has the
--   rows and the statements of gorm, as functions of the database that a `Tables` gives; `IsTable`
--   and `AreTables` say what SQL documents of them, for statements that report no error and for
--   those that do. Database/Reading.antt has the queries, Database/Writing.antt the saves and
--   prunings, with OnConflict as a function of the old row and the new, and the `repository` that
--   the indexer is given. Keys.antt and Rows.antt are lemmas on the rows of a key.
-- * the socket (pkg/dtlWithSocket/dtlSocket.go): Socket.antt, with InitUnixSocket as
--   `init_unix_socket` and PublishToUnixSocket as `publish_to_unix_socket`; the network and the
--   service of the SDK are an `Outlet`.
-- * the command line (cmd/root.go, cmd/start.go, cmd/utils.go): Command.antt, with
--   SplitAndTrimEmpty as `split_and_trim_empty`, CreateUser as `create_user`, and what each flag
--   defaults to. The environment is an association list, and its texts are ASCII.
-- * Prelude.antt and its children: tests, lists, maps, int64 and uint64 with their wrapping,
--   texts, decimals, sorting. Tests.antt and its children: concrete data, and the theorems at
--   concrete inputs.
--
-- How they interact: a block sets the clock; a round of monitorHeights queues the heights whose
-- pools are missing and prunes; a sync looks pools up, asks the client for those missing, caches
-- and saves them; the volumes are computed from the pool cache and the price cache through the
-- clock. A handler moves the clock, asks the indexer and the client, and publishes; a start loads
-- what the database holds into the caches.
--
-- Each operation under a lock, and each use of an atomic counter, is one step. uint64 and int64
-- arithmetic wraps as written out. Go's maps are association lists, read at the first entry of a
-- key.
--
-- Not modelled: the loggers, contexts, tickers, histograms and the gauges of time; the wiring of
-- New, Start and SubscribeAll in internal/osmosis/publisher.go, the closing of the parts and the
-- other options, which call the data-layer SDK; the connections and the migration of
-- internal/repository; the commands of cobra in cmd. What decodes a transaction (cosmos-sdk),
-- hashes it (cometbft), names a trace (ibc-go), prints and parses coins (cosmos-sdk), runs SQL
-- (gorm), signs a user's claims (nkeys, jwt) or reaches the network is an argument.
pub mod Prelude
pub mod Types
pub mod Prices
pub mod Pools
pub mod Interfaces
pub mod Database
pub mod Indexer
pub mod Volume
pub mod Osmosis
pub mod Socket
pub mod Command
pub mod Tests
