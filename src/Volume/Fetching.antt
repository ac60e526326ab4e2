-- ===== src/Volume/Fetching.antt =====
-- fetchVolumeValuesPerBlockRange answers with the cached volumes of the range, each at the price
-- of its block's time.
use osmosis_publisher.Prelude.{
  ℕ, zero, suc, ◌+◌, ◌-◌, ◌≤◌, ◌<◌, ◌≡◌, refl, arith, List, [], ◌∷◌, ◌++◌, some, false,
  if◌then◌else◌, ltb_ℤ, Text, text_eq, ◌==◌, Map, lookup, lookup-insert, option_or, All, All-append,
  Member, Bool-cases, ==_cases, Option-cases, inl, inr, ◌⊎◌, word, sub64,
}
use osmosis_publisher.Types.{Time, Coin, Coins, Pool, Float64, ok, panic}
use osmosis_publisher.Pools
use osmosis_publisher.Prices.{estimate}
use osmosis_publisher.Indexer.{Indexer}
use osmosis_publisher.Indexer.BlockClock.{block_to_timestamp}
use osmosis_publisher.Volume.{
  PriceAt, day, max_slice, add_price, fetch_volume_values_per_block_range,
}
use osmosis_publisher.Volume.Making.{put_coin, put_coins, put_height, put_rounds, fetch_range-Makes}

all_listed :
    (coins all : Coins)
    → ((c : Coin) → Member c coins → Member c all)
    → All (λ c. Member c all) coins
all_listed [] all h = tt
all_listed (c ∷ cs) all h = (h c (inl refl), all_listed cs all (λ x m. h x (inr m)))

module _ {F : Type 0} ⦃float : Float64 F⦄ (d : Indexer F) (pool_id : ℕ) where
  -- A coin of a cached pool, whose price is not too old.
  pub record IsFetched (lo hi : ℕ) (denom : Text) (e : PriceAt F) : Type 0 where
    pub from_lo : lo ≤ e.height
    pub below_hi : e.height < hi
    pub pool : Pool
    pub cached : Pools.get_pool d.pools e.height pool_id ≡ some pool
    pub coin : Coin
    pub listed : Member coin pool.volume
    pub named : coin.denom ≡ denom
    pub amount : e.volume ≡ coin.amount
    pub priced : e.price ≡ (estimate d.prices (block_to_timestamp d e.height) denom).0
    pub recent : ltb_ℤ day (estimate d.prices (block_to_timestamp d e.height) denom).1 ≡ false

  abbrev pub entries : Text → Map Text (List (PriceAt F)) → List (PriceAt F)
  entries denom vm = option_or (lookup denom vm) []

  pub entries-put_coin :
      (height : ℕ) (t : Time) (vm : Map Text (List (PriceAt F))) (coin : Coin) (denom : Text)
      → entries denom (put_coin d height t vm coin) ≡ (
          if coin.denom == denom
          then (if ltb_ℤ day (estimate d.prices t coin.denom).1
              then entries denom vm
              else entries coin.denom vm
                ++ record {
                  height = height;
                  volume = coin.amount;
                  price = (estimate d.prices t coin.denom).0;
                }
                  ∷ [])
          else entries denom vm)
  unfolding put_coin add_price
  entries-put_coin height t vm coin denom =
      elim (Bool-cases (ltb_ℤ day (estimate d.prices t coin.denom).1)) [
        | inl old ↦ elim (Bool-cases (coin.denom == denom)) [
          | inl e ↦ rw (old, e)
          | inr e ↦ rw (old, e)
        ]
        | inr new ↦ elim (Bool-cases (coin.denom == denom)) [
          | inl e ↦ rw (new, lookup-insert, e)
          | inr e ↦ rw (new, lookup-insert, e)
        ]
      ]

  IsFetched-coin :
      (lo hi height : ℕ) (pool : Pool) (coin : Coin) (vm : Map Text (List (PriceAt F)))
      → lo ≤ height
      → height < hi
      → Pools.get_pool d.pools height pool_id ≡ some pool
      → Member coin pool.volume
      → ((denom : Text) → All (IsFetched lo hi denom) (entries denom vm))
      → (denom : Text)
      → All
          (IsFetched lo hi denom)
          (entries denom (put_coin d height (block_to_timestamp d height) vm coin))
  IsFetched-coin lo hi height pool coin vm h k cached listed inv denom =
      let t = block_to_timestamp d height in
      rw (entries-put_coin height t vm coin denom) (elim (==_cases coin.denom denom) [
        | inr (e, _) ↦ rw e (inv denom)
        | inl (e, same) ↦ elim (Bool-cases (ltb_ℤ day (estimate d.prices t coin.denom).1)) [
          | inl old ↦ rw (e, old) (inv denom)
          | inr new ↦
              rw (e, new)
                (All-append (IsFetched lo hi denom) (entries coin.denom vm) _ (rw same (inv denom))
                  (
                    record {
                      from_lo = h;
                      below_hi = k;
                      pool = pool;
                      cached = cached;
                      coin = coin;
                      listed = listed;
                      named = same;
                      amount = refl;
                      priced = rw same;
                      recent = rw (← same) new;
                    },
                    tt,
                  ))
        ]
      ])

  IsFetched-at :
      (lo hi height : ℕ) (pool : Pool) (coins : Coins) (vm : Map Text (List (PriceAt F)))
      → lo ≤ height
      → height < hi
      → Pools.get_pool d.pools height pool_id ≡ some pool
      → All (λ c. Member c pool.volume) coins
      → ((denom : Text) → All (IsFetched lo hi denom) (entries denom vm))
      → (denom : Text)
      → All
          (IsFetched lo hi denom)
          (entries denom (put_coins d height (block_to_timestamp d height) coins vm))
  unfolding put_coins
  IsFetched-at lo hi height pool [] vm h k cached listed inv denom = inv denom
  IsFetched-at lo hi height pool (coin ∷ coins) vm h k cached listed inv denom =
      IsFetched-at lo hi height pool coins (put_coin d height (block_to_timestamp d height) vm coin)
        h k cached listed.1 (IsFetched-coin lo hi height pool coin vm h k cached listed.0 inv) denom

  IsFetched-height :
      (lo hi height : ℕ) (vm : Map Text (List (PriceAt F)))
      → lo ≤ height
      → height < hi
      → ((denom : Text) → All (IsFetched lo hi denom) (entries denom vm))
      → (denom : Text)
      → All (IsFetched lo hi denom) (entries denom (put_height d pool_id height vm))
  unfolding put_height
  IsFetched-height lo hi height vm h k inv denom =
      elim (Option-cases (Pools.get_pool d.pools height pool_id)) [
        | inl e ↦ rw (e, put_height) (inv denom)
        | inr (pool, e) ↦
            rw (e, put_height)
              (IsFetched-at lo hi height pool pool.volume vm h k e
                (all_listed pool.volume pool.volume (λ c m. m)) inv denom)
      ]

  IsFetched-rounds :
      (lo hi n height : ℕ) (vm : Map Text (List (PriceAt F)))
      → lo ≤ height
      → height + n ≤ hi
      → ((denom : Text) → All (IsFetched lo hi denom) (entries denom vm))
      → (denom : Text)
      → All (IsFetched lo hi denom) (entries denom (put_rounds d pool_id n height vm))
  unfolding put_rounds
  IsFetched-rounds lo hi zero height vm h k inv denom = inv denom
  IsFetched-rounds lo hi (suc n) height vm h k inv denom =
      IsFetched-rounds lo hi n (height + 1) (put_height d pool_id height vm) (omega arith)
        (omega arith) (IsFetched-height lo hi height vm h (omega arith) inv) denom

  -- For a range that is not empty, a map is returned in which each entry for a denomination is of a
  -- height in the range, is the amount of a coin of that denomination in the volume of the pool
  -- cached at that height, and has the price estimated at the block's time, whose error is at
  -- most a day or negative; or the range goes up to the greatest uint64, where the loop does not
  -- end, or is wider than a slice may be made, where it may panic.
  pub fetch_sound :
      (lo hi : ℕ) (denom : Text)
      → lo ≤ hi
      → ((vm : Map Text (List (PriceAt F))) × (fetch_volume_values_per_block_range d lo hi pool_id
            ≡ ok vm)
          × All (IsFetched lo (hi + 1) denom) (entries denom vm))
        ⊎ ((fetch_volume_values_per_block_range d lo hi pool_id ≡ panic)
            × ((word ≤ hi + 1) ⊎ (max_slice < sub64 hi lo)))
  fetch_sound lo hi denom h = elim (fetch_range-Makes d lo hi pool_id) [
    | inr why ↦ inr why
    | inl e ↦ inl (
      put_rounds d pool_id (hi + 1 - lo) lo [],
      e,
      IsFetched-rounds lo (hi + 1) (hi + 1 - lo) lo [] (omega arith) (omega arith)
          (λ c. unfold lookup in tt) denom,
    )
  ]

  -- The entry of a coin at a height.
  abbrev pub entry : ℕ → Coin → PriceAt F
  entry height coin = record {
    height = height;
    volume = coin.amount;
    price = (estimate d.prices (block_to_timestamp d height) coin.denom).0;
  }
