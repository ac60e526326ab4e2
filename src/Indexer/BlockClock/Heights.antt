-- ===== src/Indexer/BlockClock/Heights.antt =====
-- SetLatestBlockHeight: the height is the greatest received, and the first block stays the mark
-- from which the rate of blocks is measured.
use osmosis_publisher.Prelude.{
  ℕ, ◌≤◌, ◌<◌, ◌≡◌, ◌≢◌, refl, ◌∙◌, ap, ◌+◌, max, List, [], ◌∷◌, arith, nat_eq, to_uint64, word,
  wrap64,
}
use osmosis_publisher.Types.{Float64}
use osmosis_publisher.Pools.{set_max_value}
use osmosis_publisher.Indexer.{Indexer}
use osmosis_publisher.Indexer.BlockClock.{Received, set_latest_block_height, receive_all}

-- The greatest height of those received and the given one.
abbrev pub newest : ℕ → List Received → ℕ
newest h [] = h
newest h (r ∷ rs) = newest (max h r.height) rs

-- What holds of the heights: they are words, and the mark is not above the current height.
record IsClocked {F : Type 0} (d : Indexer F) : Type 0 where
  pub small : d.current_block_height < word
  pub marked : d.last_block_height ≤ d.current_block_height

module _ {F : Type 0} ⦃float : Float64 F⦄ where
  height_set :
      (d : Indexer F) (r : Received)
      → (set_latest_block_height d r).current_block_height ≡ max d.current_block_height r.height
  unfolding set_latest_block_height set_max_value
  height_set d r = ground arith

  -- In whatever order blocks come in, the current height is the greatest of that before and those
  -- received.
  receive_all_height :
      (d : Indexer F) (rs : List Received)
      → (receive_all d rs).current_block_height ≡ newest d.current_block_height rs
  unfolding receive_all
  receive_all_height d [] = refl
  receive_all_height d (r ∷ rs) =
      receive_all_height (set_latest_block_height d r) rs ∙ ap (λ h. newest h rs) (height_set d r)

  -- A block that is not newer changes nothing.
  stale_block :
      (d : Indexer F) (r : Received)
      → r.height ≤ d.current_block_height
      → set_latest_block_height d r ≡ d
  unfolding set_latest_block_height set_max_value
  stale_block d r h = ground arith

  set-IsClocked :
      (d : Indexer F) (r : Received)
      → r.height < word
      → IsClocked d
      → IsClocked (set_latest_block_height d r)
  unfolding set_latest_block_height set_max_value
  set-IsClocked d r h c = ground arith

  mark_kept :
      (d : Indexer F) (r : Received)
      → d.last_block_height ≢ 0
      → ((set_latest_block_height d r).last_block_height ≡ d.last_block_height)
        × ((set_latest_block_height d r).last_block_timestamp ≡ d.last_block_timestamp)
  unfolding set_latest_block_height set_max_value
  mark_kept d r h = ground arith

  -- Once a block of a height other than 0 was received, its height and the time of its receipt
  -- stay the mark that the rate is measured from, whatever comes later.
  mark_fixed :
      (d : Indexer F) (rs : List Received)
      → d.last_block_height ≢ 0
      → ((receive_all d rs).last_block_height ≡ d.last_block_height)
        × ((receive_all d rs).last_block_timestamp ≡ d.last_block_timestamp)
  unfolding receive_all
  mark_fixed d [] h = (refl, refl)
  mark_fixed d (r ∷ rs) h =
      let (a, b) = mark_kept d r h in
      let (a', b') = mark_fixed (set_latest_block_height d r) rs (λ e. h (ground (arith, a, e))) in
      (a' ∙ a, b' ∙ b)

  first_mark :
      (d : Indexer F) (r : Received)
      → d.last_block_height ≡ 0
      → d.current_block_height < r.height
      → ((set_latest_block_height d r).last_block_height ≡ r.height)
        × ((set_latest_block_height d r).last_block_timestamp ≡ wrap64 r.now)
  unfolding set_latest_block_height set_max_value
  first_mark d r h k = (ground (arith, h, k), ground (arith, h, k))

  -- The first block that is received and newer than the current height sets the mark: the time at
  -- which it was received, and not the block's own, whatever comes later.
  pub first_mark_fixed :
      (d : Indexer F) (r : Received) (rs : List Received)
      → d.last_block_height ≡ 0
      → d.current_block_height < r.height
      → (receive_all d (r ∷ rs)).last_block_timestamp ≡ wrap64 r.now
  unfolding receive_all
  first_mark_fixed d r rs h k =
      let (height, time) = first_mark d r h k in
      (mark_fixed (set_latest_block_height d r) rs (λ e. omega (arith, height, e, k))).1 ∙ time

  -- While fewer blocks came since the mark than the rate says for an hour, a block does not
  -- change the rate, for heights that are uint64 and a mark that is set and not above the current
  -- height.
  rate_kept :
      (d : Indexer F) (r : Received)
      → IsClocked d
      → r.height < word
      → d.last_block_height ≢ 0
      → r.height < d.last_block_height + to_uint64 d.blocks_per_hour
      → (set_latest_block_height d r).blocks_per_hour ≡ d.blocks_per_hour
  unfolding set_latest_block_height set_max_value
  rate_kept d r c h nz few = ground arith
