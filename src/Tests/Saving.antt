-- ===== src/Tests/Saving.antt =====
-- The database at concrete inputs.
use osmosis_publisher.Prelude.{
  ℕ, ℤ, pos, Text, codes, List, [], ◌∷◌, none, some, inl, inr, ◌⊎◌, ◌≡◌, ◌≢◌, ◌≤ℤ◌, refl, sym, ap,
  ◌∙◌, text_beq_iff, Member, arith, if◌then◌else◌, text_beq, pair_keys, nat_eq, text_eq, int_eq,
  to_int64, to_uint64, wrap64,
}
use osmosis_publisher.Tests.{coins, indexer, pool_at, price_of, trace, uosmo, usd, whole}
use osmosis_publisher.Tests.Memory.{
  Memory, memory, memory_tables, table, table-IsTable, answer_of, one_of, newest_from, pick,
}
use osmosis_publisher.Database.{upsert, TokenPriceRow}
use osmosis_publisher.Database.Newest.{nearest_token_price_hidden, latest_token_price_newest}
use osmosis_publisher.Database.Refining.{
  Write, write_ibc_denom, write_token_price, write_pool, prune_pools_below, write_all, perform_all,
  stored, stored-write_all,
}
use osmosis_publisher.Indexer.Syncing.{pre_heat_pools}
use osmosis_publisher.Indexer.Syncing.Restarting.{pre_heat_pools-save_pool}
use osmosis_publisher.Pools.{get_pool}
use osmosis_publisher.Database.Reading.{
  CoinsText, nearest_token_price, latest_token_price, price_of_row, extreme, pools_range,
  pools_of_rows, pool_of_row,
}
use osmosis_publisher.Database.Writing.{repository, save_pool, pool_row}

abbrev empty : Memory
empty = record { ibc_denoms = []; token_prices = []; pools = [] }

-- The coins of the tests are the only ones that are printed.
abbrev coins_text : CoinsText
coins_text = record {
  print = λ cs. codes "7uosmo";
  parse = λ t. if text_beq t (codes "7uosmo") then inl coins else inr (codes "invalid coins" ∷ []);
}

abbrev stored_at : ℤ → Text → TokenPriceRow ℕ
stored_at t name = record {
  created_at = pos 77;
  updated_at = pos 77;
  last_updated = t;
  value = 3;
  name = name;
  base = usd;
}

abbrev priced : Memory
priced = record {
  ibc_denoms = [];
  token_prices = stored_at (pos 30) (codes "uatom") ∷ stored_at (pos 10) uosmo ∷ [];
  pools = [];
}

other_name : codes "uatom" ≢ uosmo
unfolding text_beq
other_name p = cc ((text_beq_iff (codes "uatom") uosmo).1 p)

-- A price of uosmo at 10 is not found from 30, where uatom has one.
nearest_token_price_hidden_example : nearest_token_price memory priced (pos 30) uosmo ≡ none
unfolding memory memory_tables table table-IsTable answer_of one_of nearest_token_price extreme
    text_beq wrap64 to_int64 to_uint64
nearest_token_price_hidden_example =
    nearest_token_price_hidden memory memory_tables.token_prices priced uosmo (pos 30)
      (stored_at (pos 30) (codes "uatom")) refl (inl refl) refl
      (λ r m n. elim m [
        | inl e ↦ absurd (other_name (sym (ap (λ p. p.name) e) ∙ n))
        | inr (inl e) ↦ λ k. cc
        | inr (inr b) ↦ absurd b
      ])

latest_token_price_newest_example :
    ((latest_token_price memory priced uosmo ≡ none)
      × ((r : TokenPriceRow ℕ) → Member r priced.token_prices → r.name ≢ uosmo))
    ⊎ ((row : TokenPriceRow ℕ) × ((latest_token_price memory priced uosmo ≡ some (price_of_row row))
          × (Member row priced.token_prices
              × ((row.name ≡ uosmo)
                  × ((r : TokenPriceRow ℕ)
                      → Member r priced.token_prices
                      → r.name ≡ uosmo
                      → r.last_updated ≤ℤ row.last_updated)))))
unfolding memory memory_tables table table-IsTable answer_of one_of newest_from pick
    latest_token_price text_beq
latest_token_price_newest_example =
    latest_token_price_newest memory memory_tables.token_prices priced uosmo refl

abbrev writes : List (Write ℕ)
writes =
    write_pool (pool_at 9 1)
    ∷ write_token_price (price_of 10 3)
    ∷ write_pool (pool_at 7 1)
    ∷ prune_pools_below 8
    ∷ write_ibc_denom trace
    ∷ []

stored-write_all_example :
    stored coins_text
      (λ t. t.base_denom)
      memory
      memory_tables
      (write_all coins_text (λ t. t.base_denom) memory writes empty).1
    ≡ perform_all coins_text
        (λ t. t.base_denom)
        (write_all coins_text (λ t. t.base_denom) memory writes empty).0
        (stored coins_text (λ t. t.base_denom) memory memory_tables empty)
stored-write_all_example =
    stored-write_all coins_text (λ t. t.base_denom) memory memory_tables writes empty

pre_heat_pools-save_pool_example :
    get_pool
      (pre_heat_pools (repository memory coins_text (λ t. t.base_denom)) 4 (record {
        indexer = indexer;
        outside = (save_pool memory coins_text empty (pool_at 8 2)).1;
      })).indexer.pools
      8
      2
    ≡ some (pool_at 8 2)
unfolding memory memory_tables table table-IsTable answer_of upsert save_pool pool_row pools_range
    pools_of_rows pool_of_row text_beq
pre_heat_pools-save_pool_example =
    pre_heat_pools-save_pool coins_text memory (λ t. t.base_denom) memory_tables.pools empty
      (pool_at 8 2) 4 indexer (pool_at 8 2 ∷ []) tt refl refl refl (omega arith) (omega arith) refl
