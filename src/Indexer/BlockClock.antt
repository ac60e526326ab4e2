-- ===== src/Indexer/BlockClock.antt =====
-- internal/indexer/indexer.go, lines 115-147, and the mapping of heights to times at the end of
-- internal/indexer/volume.go. A time of now is an argument.
pub mod Heights
pub mod Timestamps
use osmosis_publisher.Prelude.{
  ℕ, suc, ℤ, pos, negsuc, ◌-ℤ◌, ◌+ℤ◌, ◌*ℤ◌, neg, quot, Bool, List, [], ◌∷◌, ◌==◌, nat_eq, int_eq,
  if◌then◌else◌, ltb, leb, sub64, to_int64, to_uint64, wrap64,
}
use osmosis_publisher.Types.{Time, Duration, Float64, hour}
use osmosis_publisher.Pools.{set_max_value}
use osmosis_publisher.Indexer.{Indexer, default_blocks_per_hour}

-- The quotient of two int64 that are not 0 and -1. A division by 0 panics in Go; the callers test
-- for 0 before.
unfoldable pub quot64 : ℤ → ℤ → ℤ
quot64 a (pos d) = quot a d
quot64 a (negsuc d) = wrap64 (neg (quot a (suc d)))

-- The rate that the source divides by: 0 stands for the default.
unfoldable pub rate_or_default : ℤ → ℤ
rate_or_default bph = if bph == pos 0 then pos default_blocks_per_hour else bph

-- A block that was received: its height and time, and the time of now.
pub record Received : Type 0 where
  pub height : ℕ
  pub block_time : Time
  pub now : Time

module _ {F : Type 0} where
  -- AverageBlockTime
  unfoldable pub average_block_time : Indexer F → Duration
  unfolding quot64 rate_or_default
  average_block_time d = quot64 hour (rate_or_default d.blocks_per_hour)

  -- BlockToTimestamp
  unfoldable pub block_to_timestamp : Indexer F → ℕ → Time
  unfolding quot64 rate_or_default
  block_to_timestamp d height =
      let bph = rate_or_default d.blocks_per_hour in
      let current = d.current_block_height in
      if ltb current height
      then d.current_block_time +ℤ quot64 (wrap64 (to_int64 (sub64 height current) *ℤ hour)) bph
      else d.current_block_time
        +ℤ quot64 (wrap64 (neg (wrap64 (to_int64 (sub64 current height) *ℤ hour)))) bph

  -- `if d.lastBlockHeight == 0 { … }`
  unfoldable mark_first : Indexer F → Received → Indexer F
  mark_first d r =
      if d.last_block_height == 0
      then record d { last_block_height = r.height; last_block_timestamp = wrap64 r.now }
      else d

module _ {F : Type 0} ⦃float : Float64 F⦄ where
  -- The rate of blocks since the first, once as many came as the rate so far says for an hour.
  unfoldable measure_rate : Indexer F → Received → Indexer F
  measure_rate d r =
      let blocks = sub64 r.height d.last_block_height in
      let duration = wrap64 (wrap64 r.now -ℤ d.last_block_timestamp) in
      if leb (to_uint64 d.blocks_per_hour) blocks
      then record d {
        blocks_per_hour =
            float.to_int64 (float.div (float.of_uint64 blocks) (float.hours duration));
      }
      else d

  -- SetLatestBlockHeight
  unfoldable pub set_latest_block_height : Indexer F → Received → Indexer F
  unfolding mark_first measure_rate
  set_latest_block_height d r =
      let (newest, old) = set_max_value d.current_block_height r.height in
      if leb r.height old
      then record d { current_block_height = newest }
      else measure_rate
          (mark_first
            (record d { current_block_height = newest; current_block_time = wrap64 r.block_time })
            r)
          r

  -- Blocks as they come in.
  unfoldable pub receive_all : Indexer F → List Received → Indexer F
  unfolding set_latest_block_height
  receive_all d [] = d
  receive_all d (r ∷ rs) = receive_all (set_latest_block_height d r) rs
