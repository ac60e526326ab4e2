-- ===== src/Volume/Listing.antt =====
-- fetchVolumeValuesPerBlockRange leaves out no volume of the range whose price is recent.
use osmosis_publisher.Prelude.{
  ℕ, zero, suc, ◌+◌, ◌-◌, ◌≤◌, ◌<◌, ◌≡◌, refl, arith, List, [], ◌∷◌, some, false, ltb_ℤ, Text,
  text_eq, Map, Member, Member-append_left, Member-append_right, Bool-cases, ==_cases, ==_refl,
  Option-cases, inl, inr, word,
}
use osmosis_publisher.Types.{Coin, Coins, Pool, Float64, ok}
use osmosis_publisher.Pools
use osmosis_publisher.Prices.{estimate}
use osmosis_publisher.Indexer.{Indexer}
use osmosis_publisher.Indexer.BlockClock.{block_to_timestamp}
use osmosis_publisher.Volume.{PriceAt, day, max_slice, fetch_volume_values_per_block_range}
use osmosis_publisher.Volume.Making.{put_coin, put_coins, put_height, put_rounds, fetch_range-Makes}
use osmosis_publisher.Volume.Fetching.{entry, entries, entries-put_coin}

module _ {F : Type 0} ⦃float : Float64 F⦄ (d : Indexer F) (pool_id : ℕ) where
  kept_by_coin :
      (height : ℕ) (vm : Map Text (List (PriceAt F))) (coin : Coin) (denom : Text) (e : PriceAt F)
      → Member e (entries d pool_id denom vm)
      → Member e (entries d pool_id denom (put_coin d height (block_to_timestamp d height) vm coin))
  kept_by_coin height vm coin denom e m =
      let t = block_to_timestamp d height in
      rw (entries-put_coin d pool_id height t vm coin denom) (elim (==_cases coin.denom denom) [
        | inr (f, _) ↦ rw f m
        | inl (f, same) ↦ elim (Bool-cases (ltb_ℤ day (estimate d.prices t coin.denom).1)) [
          | inl old ↦ rw (f, old) m
          | inr new ↦
              rw (f, new) (Member-append_left e (entries d pool_id coin.denom vm) _ (rw same m))
        ]
      ])

  added_by_coin :
      (height : ℕ) (vm : Map Text (List (PriceAt F))) (coin : Coin)
      → ltb_ℤ day (estimate d.prices (block_to_timestamp d height) coin.denom).1 ≡ false
      → Member
          (entry d pool_id height coin)
          (entries d pool_id coin.denom (put_coin d height (block_to_timestamp d height) vm coin))
  added_by_coin height vm coin new =
      rw
        (
          entries-put_coin d pool_id height (block_to_timestamp d height) vm coin coin.denom,
          ==_refl coin.denom,
          new,
        )
        (Member-append_right (entry d pool_id height coin) (entries d pool_id coin.denom vm) _
          (inl refl))

  kept_by_coins :
      (height : ℕ) (coins : Coins) (vm : Map Text (List (PriceAt F))) (denom : Text) (e : PriceAt F)
      → Member e (entries d pool_id denom vm)
      → Member e
          (entries d pool_id denom (put_coins d height (block_to_timestamp d height) coins vm))
  unfolding put_coins
  kept_by_coins height [] vm denom e m = m
  kept_by_coins height (c ∷ cs) vm denom e m =
      kept_by_coins height cs (put_coin d height (block_to_timestamp d height) vm c) denom e
        (kept_by_coin height vm c denom e m)

  added_by_coins :
      (height : ℕ) (coins : Coins) (vm : Map Text (List (PriceAt F))) (coin : Coin)
      → Member coin coins
      → ltb_ℤ day (estimate d.prices (block_to_timestamp d height) coin.denom).1 ≡ false
      → Member
          (entry d pool_id height coin)
          (entries d pool_id coin.denom (put_coins d height (block_to_timestamp d height) coins vm))
  unfolding put_coins
  added_by_coins height [] vm coin m new = absurd m
  added_by_coins height (c ∷ cs) vm coin (inl e) new =
      kept_by_coins height cs (put_coin d height (block_to_timestamp d height) vm c) coin.denom _
        (rw (← e) (added_by_coin height vm coin new))
  added_by_coins height (c ∷ cs) vm coin (inr m) new =
      added_by_coins height cs (put_coin d height (block_to_timestamp d height) vm c) coin m new

  kept_by_height :
      (height : ℕ) (vm : Map Text (List (PriceAt F))) (denom : Text) (e : PriceAt F)
      → Member e (entries d pool_id denom vm)
      → Member e (entries d pool_id denom (put_height d pool_id height vm))
  unfolding put_height
  kept_by_height height vm denom e m = elim (Option-cases (Pools.get_pool d.pools height pool_id)) [
    | inl f ↦ rw (f, put_height) m
    | inr (pool, f) ↦ rw (f, put_height) (kept_by_coins height pool.volume vm denom e m)
  ]

  kept_by_rounds :
      (n height : ℕ) (vm : Map Text (List (PriceAt F))) (denom : Text) (e : PriceAt F)
      → Member e (entries d pool_id denom vm)
      → Member e (entries d pool_id denom (put_rounds d pool_id n height vm))
  unfolding put_rounds
  kept_by_rounds zero height vm denom e m = m
  kept_by_rounds (suc n) height vm denom e m =
      kept_by_rounds n (height + 1) (put_height d pool_id height vm) denom e
        (kept_by_height height vm denom e m)

  added_by_rounds :
      (n k height : ℕ) (vm : Map Text (List (PriceAt F))) (pool : Pool) (coin : Coin)
      → k < n
      → Pools.get_pool d.pools (height + k) pool_id ≡ some pool
      → Member coin pool.volume
      → ltb_ℤ day (estimate d.prices (block_to_timestamp d (height + k)) coin.denom).1 ≡ false
      → Member
          (entry d pool_id (height + k) coin)
          (entries d pool_id coin.denom (put_rounds d pool_id n height vm))
  unfolding put_rounds
  added_by_rounds zero k height vm pool coin h cached listed new = absurd (omega arith)
  added_by_rounds (suc n) zero height vm pool coin h cached listed new =
      let here : height + 0 ≡ height = omega arith in
      kept_by_rounds n (height + 1) (put_height d pool_id height vm) coin.denom _ (
        rw (here, put_height, rw here at cached)
          (added_by_coins height pool.volume vm coin listed (rw here at new)))
  added_by_rounds (suc n) (suc k) height vm pool coin h cached listed new =
      let on : height + suc k ≡ height + 1 + k = omega arith in
      rw on (
        added_by_rounds n k (height + 1) (put_height d pool_id height vm) pool coin (omega arith)
          (rw on at cached) listed (rw on at new))

  -- For a range that ends below the greatest uint64, and is no wider than a slice may be made, a
  -- map is returned that has each coin in the volume of a pool cached at a height in the range, if
  -- the estimate of its price at the block's time has an error of at most a day, or a negative one.
  pub fetch_complete :
      (lo hi height : ℕ) (pool : Pool) (coin : Coin)
      → lo ≤ height
      → height ≤ hi
      → hi + 1 < word
      → hi - lo ≤ max_slice
      → Pools.get_pool d.pools height pool_id ≡ some pool
      → Member coin pool.volume
      → ltb_ℤ day (estimate d.prices (block_to_timestamp d height) coin.denom).1 ≡ false
      → (vm : Map Text (List (PriceAt F))) × (fetch_volume_values_per_block_range d lo hi pool_id
          ≡ ok vm)
        × Member (entry d pool_id height coin) (entries d pool_id coin.denom vm)
  fetch_complete lo hi height pool coin h k small narrow cached listed new =
      elim (fetch_range-Makes d lo hi pool_id) [
        | inr (e, inl endless) ↦ absurd (omega (arith, endless, small))
        | inr (e, inr wide) ↦ absurd (omega (arith, wide, h, k, small, narrow))
        | inl e ↦
            let at : height ≡ lo + (height - lo) = omega (arith, h) in
            (
              put_rounds d pool_id (hi + 1 - lo) lo [],
              e,
              rw at (
                  added_by_rounds (hi + 1 - lo) (height - lo) lo [] pool coin (omega (arith, h, k))
                    (rw at at cached) listed (rw at at new)),
            )
      ]
