-- ===== src/Indexer/Syncing/Pruning.antt =====
-- monitorHeights: what a round prunes.
use osmosis_publisher.Prelude.{
  ℕ, ◌+◌, ◌-◌, ◌*◌, ◌/◌, ◌≤◌, ◌<◌, ◌≡◌, true, arith, none, Member, is_empty, if◌then◌else◌, ltb,
  word, int_eq,
}
use osmosis_publisher.Types.{Time}
use osmosis_publisher.Prices.{prune}
use osmosis_publisher.Interfaces.{Repository}
use osmosis_publisher.Pools.{get_pool}
use osmosis_publisher.Pools.Caching.{get_pool-prune_pools}
use osmosis_publisher.Indexer.{Indexer, World}
use osmosis_publisher.Indexer.Syncing.{
  queue_missing_heights, prune_height, pools_prune, prices_prune, monitor_round,
}
use osmosis_publisher.Indexer.Syncing.Queueing.{queue_missing_heights-Member}

module _ {F : Type 0} (d : Indexer F) (blocks : ℕ) (fits : blocks * 3 < word) where
  prune_height_long :
      d.current_block_height < word
      → blocks * 3 / 2 ≤ d.current_block_height
      → prune_height d blocks ≡ d.current_block_height - blocks * 3 / 2
  unfolding prune_height
  prune_height_long small enough = omega arith

  prune_height_short :
      d.current_block_height < blocks * 3 / 2 → d.current_block_height < prune_height d blocks
  unfolding prune_height
  prune_height_short short = omega arith

module _ {F S : Type 0} (repo : Repository F S) (blocks : ℕ) (w : World F S) where
  round_pools :
      (height id : ℕ)
      → get_pool (monitor_round repo blocks w).1.indexer.pools height id ≡ (
          if ltb height (prune_height w.indexer blocks)
          then none
          else get_pool w.indexer.pools height id)
  unfolding monitor_round prices_prune pools_prune queue_missing_heights prune_height
  round_pools height id =
      ground (arith, get_pool-prune_pools w.indexer.pools (prune_height w.indexer blocks) height id)

  -- If the current height is a uint64 of at least `blocks * 3 / 2`, and the product `blocks * 3`
  -- does not wrap, a round keeps the pools of the heights from `current - blocks * 3 / 2` on, and
  -- drops those below.
  pub round_keeps_window :
      (height id : ℕ)
      → blocks * 3 < word
      → w.indexer.current_block_height < word
      → blocks * 3 / 2 ≤ w.indexer.current_block_height
      → get_pool (monitor_round repo blocks w).1.indexer.pools height id ≡ (
          if ltb height (w.indexer.current_block_height - blocks * 3 / 2)
          then none
          else get_pool w.indexer.pools height id)
  round_keeps_window height id fits small long =
      rw (← prune_height_long w.indexer blocks fits small long) (round_pools height id)

  -- If the current height is below `blocks * 3 / 2`, and the product `blocks * 3` does not wrap,
  -- a round drops every pool up to the current height: the subtraction wraps.
  pub round_drops_all :
      (height id : ℕ)
      → blocks * 3 < word
      → w.indexer.current_block_height < blocks * 3 / 2
      → height ≤ w.indexer.current_block_height
      → get_pool (monitor_round repo blocks w).1.indexer.pools height id ≡ none
  round_drops_all height id fits short below =
      ground (arith, prune_height_short w.indexer blocks fits short, round_pools height id)

-- A height that was queued when the queue was empty is not below the height that a later round
-- prunes from, if at most half of `blocks` blocks came in since, the current height was at least
-- `blocks * 3 / 2` before, and no number wraps.
queued_not_pruned :
    {F : Type 0} (d d' : Indexer F) (blocks height : ℕ)
    → blocks * 3 < word
    → d'.current_block_height < word
    → d.current_block_height ≤ d'.current_block_height
    → d'.current_block_height ≤ d.current_block_height + blocks / 2
    → blocks * 3 / 2 ≤ d.current_block_height
    → is_empty d.sync_heights ≡ true
    → Member height (queue_missing_heights d blocks).sync_heights
    → prune_height d' blocks ≤ height
queued_not_pruned d d' blocks height fits small grows near long idle m =
    let (low, _, _) =
      (queue_missing_heights-Member d blocks height (omega arith) (omega arith) idle).0 m in
    let at : prune_height d' blocks ≡ d'.current_block_height - blocks * 3 / 2 =
      prune_height_long d' blocks fits small (omega arith) in
    omega arith

-- The prices of the cache and of the repository, pruned below a time.
abbrev pub prices_pruned : {F S : Type 0} → Repository F S → Indexer F → S → Time → World F S
prices_pruned repo d s t = record {
  indexer = record d { prices = (prune d.prices t).0 };
  outside = (repo.prune_token_prices s t).1;
}
