-- ===== src/Tests/Syncing.antt =====
-- Tests and witnesses of the block clock, and of the syncing and pruning of heights.
use osmosis_publisher.Prelude.{
  ◌+◌, ℕ, List, ◌++◌, pos, ◌≤ℤ◌, ◌≡◌, refl, [], ◌∷◌, none, Member, inl, if◌then◌else◌, arith, ltb,
  ◌-◌, ◌*◌, ◌/◌, ◌≤◌, ◌<◌, ◌↔◌, to_uint64, lookup, insert, false, true, length,
}
use osmosis_publisher.Types.{ok}
use osmosis_publisher.Pools.{has_pool, set_pool}
use osmosis_publisher.Indexer.{Indexer, default_blocks_per_hour}
use osmosis_publisher.Indexer.BlockClock.{
  Received, set_latest_block_height, receive_all, block_to_timestamp,
}
use osmosis_publisher.Indexer.BlockClock.Timestamps.{block_to_timestamp_mono}
use osmosis_publisher.Indexer.PoolStatus.{
  pool_statuses_at, pool_status_at, status_loop, get_pool, fetch_pool,
}
use osmosis_publisher.Indexer.Syncing.{
  is_missing, queue_missing_heights, missing_from, monitor_round, sync_height,
}
use osmosis_publisher.Indexer.Syncing.Queueing.{
  queue_missing_heights-Member, queue_missing_heights_short,
}
use osmosis_publisher.Indexer.Syncing.Channel.{Turn, turns, all_heights}
use osmosis_publisher.Indexer.Syncing.Waiting.{opened, rounds, turns-queue_missing_heights}
use osmosis_publisher.Indexer.Syncing.Pruning.{round_keeps_window, round_drops_all}
use osmosis_publisher.Interfaces.{NeverFails}
use osmosis_publisher.Indexer.Syncing.Draining.{handle_rounds, handle_rounds_fill}
use osmosis_publisher.Indexer.Syncing.Synced.{sync_height_fills}
use osmosis_publisher.Osmosis.Queries.{pools_total_liquidity_at, pools_volume_at}
use osmosis_publisher.Pools
use osmosis_publisher.Tests.{coins, indexer, world, repo, node, whole}

abbrev first_in : Received
first_in = record { height = 12; block_time = pos 5; now = pos 6 }

abbrev next_in : Received
next_in = record { height = 11; block_time = pos 4; now = pos 7 }

-- No block was received yet.
abbrev unmarked : Indexer ℕ
unmarked = record indexer { last_block_height = 0 }

abbrev hourly : Indexer ℕ
hourly = record indexer { blocks_per_hour = pos 720 }

few : 12 < 8 + to_uint64 (pos 720)
unfolding to_uint64
few = omega arith

block_to_timestamp_mono_example :
    (block_to_timestamp indexer 9 ≤ℤ block_to_timestamp indexer 12)
    × (block_to_timestamp indexer 10 ≡ pos 0)
block_to_timestamp_mono_example =
    block_to_timestamp_mono indexer 1 refl (omega arith) 9 12 (omega arith) (omega arith)
      (omega arith) (omega arith)

queue_missing_heights-Member_example :
    Member 8 (queue_missing_heights indexer 3).sync_heights
    ↔ ((10 - 3 ≤ 8) × (8 < 10) × (is_missing indexer.pools indexer.pool_ids_to_monitor 8 ≡ true))
queue_missing_heights-Member_example =
    queue_missing_heights-Member indexer 3 8 (omega arith) (omega arith) refl

abbrev some_turns : List Turn
some_turns = Turn.sends indexer.pools ∷ Turn.receives ∷ []

turns-queue_missing_heights_example :
    let ids = indexer.pool_ids_to_monitor in
    let c = turns ids some_turns (opened indexer 3) in
    let c' = turns ids (rounds indexer.pools c.left) c in
    let queue = (queue_missing_heights indexer 3).sync_heights in
    (length c.sync_heights ≤ default_blocks_per_hour)
    × (all_heights ids indexer.pools c ≡ queue)
    × (c'.left ≡ 0)
    × (c'.received ++ c'.sync_heights ≡ queue)
turns-queue_missing_heights_example =
    turns-queue_missing_heights indexer 3 some_turns refl (refl, tt)

queue_missing_heights_short_example : queue_missing_heights indexer 20 ≡ indexer
queue_missing_heights_short_example =
    queue_missing_heights_short indexer 20 (omega arith) (omega arith)

round_keeps_window_example :
    Pools.get_pool (monitor_round repo 4 world).1.indexer.pools 9 1
    ≡ (if ltb 9 (10 - 4 * 3 / 2) then none else Pools.get_pool world.indexer.pools 9 1)
round_keeps_window_example =
    round_keeps_window repo 4 world 9 1 (omega arith) (omega arith) (omega arith)

round_drops_all_example : Pools.get_pool (monitor_round repo 20 world).1.indexer.pools 9 1 ≡ none
round_drops_all_example =
    round_drops_all repo 20 world 9 1 (omega arith) (omega arith) (omega arith)

abbrev later : Indexer ℕ
later = record indexer { current_block_height = 11 }

queued_8 : Member 8 (queue_missing_heights indexer 2).sync_heights
unfolding queue_missing_heights missing_from is_missing has_pool lookup
queued_8 = inl refl

abbrev received : Indexer ℕ
unfolding receive_all set_latest_block_height Pools.set_max_value to_uint64
received = receive_all unmarked (first_in ∷ next_in ∷ [])

synced : (sync_height repo node 8 world).0 ≡ ok tt
unfolding sync_height pool_statuses_at pool_status_at status_loop get_pool fetch_pool Pools.get_pool
    set_pool insert lookup pools_total_liquidity_at pools_volume_at
synced = refl

sync_height_fills_example :
    is_missing (sync_height repo node 8 world).1.indexer.pools world.indexer.pool_ids_to_monitor 8
    ≡ false
sync_height_fills_example = sync_height_fills repo node 8 world (λ e. omega arith) synced

never_fails : NeverFails repo node
unfolding pools_total_liquidity_at pools_volume_at
never_fails = record {
  liquidity_found = λ s h id. (record { pool_id = id; liquidity = coins }, refl);
  volume_found = λ s h id. (record { pool_id = id; volume = coins }, refl);
  saved = λ s p. refl;
}

handle_rounds_fill_example :
    let d = queue_missing_heights world.indexer 3 in
    let w' = handle_rounds repo node (length d.sync_heights) (record world { indexer = d }) in
    (w'.indexer.sync_heights ≡ [])
    × ((h : ℕ) → 10 - 3 ≤ h → h < 10 → is_missing w'.indexer.pools (1 ∷ []) h ≡ false)
handle_rounds_fill_example =
    handle_rounds_fill repo node never_fails world 3 (omega arith) (omega arith) refl
