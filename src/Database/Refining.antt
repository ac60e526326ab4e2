-- ===== src/Database/Refining.antt =====
-- Any sequence of the writes of internal/repository/mutation.go, against three maps.
use osmosis_publisher.Prelude.{
  ℕ, ℤ, ltb, ltb_ℤ, Text, List, [], ◌∷◌, map, Option, none, some, Bool, true, false, not,
  if◌then◌else◌, pair_keys, nat_eq, int_eq, text_eq, Map, insert, retain, ◌⊎◌, inl, inr, ◌≡◌, ◌≢◌,
  refl, Bool-cases,
}
use osmosis_publisher.Types.{Time, TokenPrice, Pool, DenomTrace, Error, Result, ok, err, panic}
use osmosis_publisher.Database.{
  IbcDenomRow, TokenPriceRow, PoolRow, Tables, AreTables, ibc_denom_schema, token_price_schema,
  pool_schema,
}
use osmosis_publisher.Database.Reading.{CoinsText, unix_nano}
use osmosis_publisher.Database.Writing.{
  save_ibc_denom, save_token_price, save_pool, prune_token_prices, prune_pools, removed, keep_old,
  with_new_price, with_new_pool, ibc_denom_row, token_price_row, pool_row,
}
use osmosis_publisher.Database.Contents.{insert_new, entry, map-upsert, map-upsert_new, map-filter}

pub data Write (F : Type 0) : Type 0 where
  write_ibc_denom : DenomTrace → Write F
  write_token_price : TokenPrice F → Write F
  write_pool : Pool → Write F
  prune_prices_before : Time → Write F
  prune_pools_below : ℕ → Write F

-- A trace by its name, a value by time, token and base, and what is known of a pool by height
-- and id.
pub record Stored (F : Type 0) : Type 0 where
  pub traces : Map Text (Text × Text)
  pub prices : Map (ℤ × (Text × Text)) F
  pub pools : Map (ℕ × ℕ) (Time × (Text × Text))

abbrev trace_contents : IbcDenomRow → Text × Text
trace_contents row = (row.path, row.base_denom)

abbrev price_contents : {F : Type 0} → TokenPriceRow F → F
price_contents row = row.value

abbrev pool_contents : PoolRow → Time × (Text × Text)
pool_contents row = (row.timestamp, (row.liquidity, row.volume))

abbrev failed_of : {D : Type 0} → Result ℕ × D → Bool × D
failed_of (ok n, d) = (false, d)
failed_of (err e, d) = (true, d)
failed_of (panic, d) = (true, d)

abbrev pub failure : {D : Type 0} → Option Error × D → Bool × D
failure (none, d) = (false, d)
failure (some e, d) = (true, d)

failure-cases :
    {D : Type 0} (x : Option Error × D)
    → ((x.0 ≡ none) × (failure x ≡ (false, x.1))) ⊎ ((x.0 ≢ none) × (failure x ≡ (true, x.1)))
failure-cases (none, d) = inl (refl, refl)
failure-cases (some e, d) = inr (λ p. cc, refl)

failed_of-removed :
    {D : Type 0} (x : (ℕ × Option Error) × D)
    → ((x.0.1 ≡ none) × (failed_of (removed x) ≡ (false, x.1)))
      ⊎ ((x.0.1 ≢ none) × (failed_of (removed x) ≡ (true, x.1)))
failed_of-removed ((n, none), d) = inl (refl, refl)
failed_of-removed ((n, some e), d) = inr (λ p. cc, refl)

module _ {F : Type 0} (coins : CoinsText) (ibc_of : DenomTrace → Text) where
  -- What a write that succeeds does to the maps.
  unfoldable perform : Write F → Stored F → Stored F
  perform (write_ibc_denom t) s = record s {
    traces = insert_new (ibc_of t) (t.path, t.base_denom) s.traces;
  }
  perform (write_token_price p) s = record s {
    prices = insert (unix_nano p.last_updated, (p.name, p.base)) p.value s.prices;
  }
  perform (write_pool p) s = record s {
    pools =
        insert (p.height, p.pool_id) (p.timestamp, (coins.print p.liquidity, coins.print p.volume))
          s.pools;
  }
  perform (prune_prices_before t) s = record s {
    prices = retain (λ k. not (ltb_ℤ k.0 (unix_nano t))) s.prices;
  }
  perform (prune_pools_below h) s = record s { pools = retain (λ k. not (ltb k.0 h)) s.pools }

  unfoldable pub perform_all : List (Write F) → Stored F → Stored F
  unfolding perform
  perform_all [] s = s
  perform_all (w ∷ ws) s = perform_all ws (perform w s)

  module _ {D : Type 0} (tables : Tables F D) where
    -- Whether a write fails, and the database after it.
    unfoldable pub write : Write F → D → Bool × D
    unfolding save_ibc_denom save_token_price save_pool prune_token_prices prune_pools
    write (write_ibc_denom t) d = failure (save_ibc_denom tables ibc_of d t)
    write (write_token_price p) d = failure (save_token_price tables d p)
    write (write_pool p) d = failure (save_pool tables coins d p)
    write (prune_prices_before t) d = failed_of (prune_token_prices tables d t)
    write (prune_pools_below h) d = failed_of (prune_pools tables d h)

    -- The writes of a list that succeed, and the database after all.
    unfoldable pub write_all : List (Write F) → D → List (Write F) × D
    unfolding write
    write_all [] d = ([], d)
    write_all (w ∷ ws) d =
        let (fails, d') = write w d in
        let (done, d'') = write_all ws d' in (if fails then done else w ∷ done, d'')

    module _ (are : AreTables tables) where
      abbrev pub stored : D → Stored F
      stored d = record {
        traces = map (entry ibc_denom_schema trace_contents) (are.ibc_denoms.rows d);
        prices = map (entry token_price_schema price_contents) (are.token_prices.rows d);
        pools = map (entry pool_schema pool_contents) (are.pools.rows d);
      }

      stored-write :
          (w : Write F) (d : D)
          → stored (write w d).1 ≡ (if (write w d).0 then stored d else perform w (stored d))
      unfolding write perform save_ibc_denom save_token_price save_pool prune_token_prices
          prune_pools
      stored-write (write_ibc_denom t) d =
          let row = ibc_denom_row ibc_of t in
          let (prices, pools) = are.ibc_denoms_apart d keep_old row in
          elim (failure-cases (tables.ibc_denoms.create d keep_old row)) [
            | inl (h, e) ↦
                rw
                  (
                    e,
                    are.ibc_denoms.created d keep_old row h,
                    prices,
                    pools,
                    map-upsert_new ibc_denom_schema trace_contents
                        (ibc_denom_schema.stamped (are.ibc_denoms.now d) row)
                        (are.ibc_denoms.rows d),
                  )
                  refl
            | inr (h, e) ↦ rw (e, are.ibc_denoms.not_created d keep_old row h, prices, pools) refl
          ]
      stored-write (write_token_price p) d =
          let row = token_price_row p in
          let (traces, pools) = are.token_prices_apart d with_new_price row in
          elim (failure-cases (tables.token_prices.create d with_new_price row)) [
            | inl (h, e) ↦
                rw
                  (
                    e,
                    are.token_prices.created d with_new_price row h,
                    traces,
                    pools,
                    map-upsert token_price_schema price_contents with_new_price
                        (token_price_schema.stamped (are.token_prices.now d) row)
                        (are.token_prices.rows d) (λ old k. cc),
                  )
                  refl
            | inr (h, e) ↦
                rw (e, are.token_prices.not_created d with_new_price row h, traces, pools) refl
          ]
      stored-write (write_pool p) d =
          let row = pool_row coins p in
          let (traces, prices) = are.pools_apart d with_new_pool row in
          elim (failure-cases (tables.pools.create d with_new_pool row)) [
            | inl (h, e) ↦
                rw
                  (
                    e,
                    are.pools.created d with_new_pool row h,
                    traces,
                    prices,
                    map-upsert pool_schema pool_contents with_new_pool
                        (pool_schema.stamped (are.pools.now d) row) (are.pools.rows d)
                        (λ old k. rw k refl),
                  )
                  refl
            | inr (h, e) ↦ rw (e, are.pools.not_created d with_new_pool row h, traces, prices) refl
          ]
      stored-write (prune_prices_before t) d =
          let old : TokenPriceRow F → Bool = λ row. ltb_ℤ row.last_updated (unix_nano t) in
          let kept : TokenPriceRow F → Bool = λ row. not (old row) in
          let (traces, pools) = are.token_prices_deleted_apart d old in
          elim (failed_of-removed (tables.token_prices.delete d old)) [
            | inl (h, e) ↦
                rw
                  (
                    e,
                    (are.token_prices.deleted d old h).0,
                    traces,
                    pools,
                    map-filter token_price_schema price_contents
                        (λ k. not (ltb_ℤ k.0 (unix_nano t))) kept (are.token_prices.rows d)
                        (λ r. refl),
                  )
                  refl
            | inr (h, e) ↦ rw (e, are.token_prices.not_deleted d old h, traces, pools) refl
          ]
      stored-write (prune_pools_below h) d =
          let low : PoolRow → Bool = λ row. ltb row.height h in
          let kept : PoolRow → Bool = λ row. not (low row) in
          let (traces, prices) = are.pools_deleted_apart d low in
          elim (failed_of-removed (tables.pools.delete d low)) [
            | inl (done, e) ↦
                rw
                  (
                    e,
                    (are.pools.deleted d low done).0,
                    traces,
                    prices,
                    map-filter pool_schema pool_contents (λ k. not (ltb k.0 h)) kept
                        (are.pools.rows d) (λ r. refl),
                  )
                  refl
            | inr (fails, e) ↦ rw (e, are.pools.not_deleted d low fails, traces, prices) refl
          ]

      -- For tables that do what SQL says of each statement (AreTables): after any sequence of
      -- saves and prunings the maps that the tables hold are the ones before, changed by the
      -- effects of the writes that succeed, in their order.
      pub stored-write_all :
          (ws : List (Write F)) (d : D)
          → stored (write_all ws d).1 ≡ perform_all (write_all ws d).0 (stored d)
      unfolding write_all perform_all
      stored-write_all [] d = refl
      stored-write_all (w ∷ ws) d = elim (Bool-cases (write w d).0) [
        | inl e ↦ rw (e, stored-write_all ws (write w d).1, stored-write w d, e) refl
        | inr e ↦ rw (e, stored-write_all ws (write w d).1, stored-write w d, e) refl
      ]
