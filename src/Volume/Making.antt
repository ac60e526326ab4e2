-- ===== src/Volume/Making.antt =====
-- fetchVolumeValuesPerBlockRange (internal/indexer/volume.go) returns what its loops leave where every
-- slice can be made, or panics over a range that is too wide or does not end.
use osmosis_publisher.Prelude.{
  ℕ, zero, suc, ◌+◌, ◌-◌, ◌≤◌, ◌<◌, ◌≡◌, refl, arith, List, [], ◌∷◌, some, none, Text, text_eq, Map,
  lookup, option_or, ltb, leb, sub64, word, Bool-cases, Option-cases, ◌⊎◌, inl, inr,
}
use osmosis_publisher.Types.{Time, Coin, Coins, Float64, Result, ok, panic}
use osmosis_publisher.Pools
use osmosis_publisher.Indexer.{Indexer}
use osmosis_publisher.Indexer.BlockClock.{block_to_timestamp}
use osmosis_publisher.Volume.{
  PriceAt, max_slice, add_price, add_coin, add_coins, add_height, fetch_rounds,
  fetch_volume_values_per_block_range,
}

-- A loop returns a map, or panics where the range is too wide.
abbrev pub Makes : {A : Type 0} → ℕ → Result A → A → Type 0
Makes width r vm = (r ≡ ok vm) ⊎ ((r ≡ panic) × (max_slice < width))

module _ {F : Type 0} ⦃float : Float64 F⦄ (d : Indexer F) where
  -- What the loops leave where no slice is too long to be made.
  unfoldable pub put_coin :
      ℕ → Time → Map Text (List (PriceAt F)) → Coin → Map Text (List (PriceAt F))
  put_coin height t vm coin = add_price d height t vm coin (option_or (lookup coin.denom vm) [])

  unfoldable pub put_coins :
      ℕ → Time → Coins → Map Text (List (PriceAt F)) → Map Text (List (PriceAt F))
  unfolding put_coin
  put_coins height t [] vm = vm
  put_coins height t (coin ∷ coins) vm = put_coins height t coins (put_coin height t vm coin)

  unfoldable pub put_height : ℕ → ℕ → Map Text (List (PriceAt F)) → Map Text (List (PriceAt F))
  unfolding put_coins
  put_height pool_id height vm = elim (Pools.get_pool d.pools height pool_id) [
    | none ↦ vm
    | some pool ↦ put_coins height (block_to_timestamp d height) pool.volume vm
  ]

  unfoldable pub put_rounds : ℕ → ℕ → ℕ → Map Text (List (PriceAt F)) → Map Text (List (PriceAt F))
  unfolding put_height
  put_rounds pool_id zero height vm = vm
  put_rounds pool_id (suc n) height vm =
      put_rounds pool_id n (height + 1) (put_height pool_id height vm)

  add_coin-Makes :
      (width height : ℕ) (t : Time) (vm : Map Text (List (PriceAt F))) (coin : Coin)
      → Makes width (add_coin d width height t vm coin) (put_coin height t vm coin)
  unfolding add_coin put_coin
  add_coin-Makes width height t vm coin = elim (Option-cases (lookup coin.denom vm)) [
    | inr (vml, e) ↦ inl (rw (add_coin, e) refl)
    | inl e ↦ elim (Bool-cases (ltb max_slice width)) [
      | inl f ↦ inr (rw (add_coin, e, f) refl, ground (arith, f))
      | inr f ↦ inl (rw (add_coin, e, f) refl)
    ]
  ]

  add_coins-Makes :
      (width height : ℕ) (t : Time) (coins : Coins) (vm : Map Text (List (PriceAt F)))
      → Makes width (add_coins d width height t coins vm) (put_coins height t coins vm)
  unfolding add_coins put_coins
  add_coins-Makes width height t [] vm = inl refl
  add_coins-Makes width height t (coin ∷ coins) vm = elim (add_coin-Makes width height t vm coin) [
    | inr (e, wide) ↦ inr (rw (add_coins, e) refl, wide)
    | inl e ↦ rw (add_coins, e) (add_coins-Makes width height t coins (put_coin height t vm coin))
  ]

  add_height-Makes :
      (pool_id width height : ℕ) (vm : Map Text (List (PriceAt F)))
      → Makes width (add_height d pool_id width height vm) (put_height pool_id height vm)
  unfolding add_height put_height
  add_height-Makes pool_id width height vm =
      elim (Option-cases (Pools.get_pool d.pools height pool_id)) [
        | inl e ↦ inl (rw (add_height, put_height, e) refl)
        | inr (pool, e) ↦
            rw (add_height, put_height, e)
              (add_coins-Makes width height (block_to_timestamp d height) pool.volume vm)
      ]

  fetch_rounds-Makes :
      (pool_id width n height : ℕ) (vm : Map Text (List (PriceAt F)))
      → Makes width (fetch_rounds d pool_id width n height vm) (put_rounds pool_id n height vm)
  unfolding fetch_rounds put_rounds
  fetch_rounds-Makes pool_id width zero height vm = inl refl
  fetch_rounds-Makes pool_id width (suc n) height vm =
      elim (add_height-Makes pool_id width height vm) [
        | inr (e, wide) ↦ inr (rw (fetch_rounds, e) refl, wide)
        | inl e ↦
            rw (fetch_rounds, e)
              (fetch_rounds-Makes pool_id width n (height + 1) (put_height pool_id height vm))
      ]

  -- The whole: it returns what the rounds leave, or panics, or does not end.
  pub fetch_range-Makes :
      (lo hi pool_id : ℕ)
      → (fetch_volume_values_per_block_range d lo hi pool_id
          ≡ ok (put_rounds pool_id (hi + 1 - lo) lo []))
        ⊎ ((fetch_volume_values_per_block_range d lo hi pool_id ≡ panic)
            × ((word ≤ hi + 1) ⊎ (max_slice < sub64 hi lo)))
  unfolding fetch_volume_values_per_block_range
  fetch_range-Makes lo hi pool_id = elim (Bool-cases (leb (word - 1) hi)) [
    | inl e ↦ inr (rw (fetch_volume_values_per_block_range, e) refl, inl (ground (arith, e)))
    | inr e ↦
        rw (fetch_volume_values_per_block_range, e)
          (elim (fetch_rounds-Makes pool_id (sub64 hi lo) (hi + 1 - lo) lo []) [
            | inl r ↦ inl r
            | inr (r, wide) ↦ inr (r, inr wide)
          ])
  ]
