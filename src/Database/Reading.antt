-- ===== src/Database/Reading.antt =====
-- The reads of internal/repository/query.go. A failed read is logged, and answered by what the
-- statement has found.
use osmosis_publisher.Prelude.{
  ℕ, ℤ, ◌⊎◌, inl, inr, leb, leb_ℤ, filter, int_eq, int_beq, wrap64, Text, List, [], ◌∷◌, map,
  Option, none, some, Bool, true, false, ◌&&◌, ◌||◌, ◌==◌, text_eq, nat_eq, is_empty, if◌then◌else◌,
}
use osmosis_publisher.Types.{
  Time, TokenPrice, Pool, DenomTrace, Coins, Error, Result, ok, err, panic, zero_time,
}
use osmosis_publisher.Database.{IbcDenomRow, TokenPriceRow, PoolRow, Statement, Found, Tables}

-- t.UnixNano()
abbrev pub unix_nano : Time → ℤ
unix_nano t = wrap64 t

abbrev pub matching : {R : Type 0} → (R → Bool) → Statement R
matching p = record { condition = λ all. p; newest_by = none; limit = none }

-- Limit(1).Find
abbrev first_of : {R : Type 0} → (R → Bool) → Statement R
first_of p = record { condition = λ all. p; newest_by = none; limit = some 1 }

-- The first row, if RowsAffected is not 0.
abbrev found_first : {R : Type 0} → Found R → Option R
found_first found = elim found.rows [ [] ↦ none | r ∷ rest ↦ some r ]

unfoldable trace_of : IbcDenomRow → DenomTrace
trace_of row = record { path = row.path; base_denom = row.base_denom }

-- The last of some numbers in an order; NULL of none.
unfoldable pub extreme : (ℤ → ℤ → Bool) → List ℤ → Option ℤ
extreme up_to [] = none
extreme up_to (x ∷ xs) = elim (extreme up_to xs) [
  | none ↦ some x
  | some y ↦ some (if up_to x y then y else x)
]

-- MAX and MIN
abbrev pub greatest : List ℤ → Option ℤ
greatest = extreme leb_ℤ

abbrev pub least : List ℤ → Option ℤ
least = extreme (λ x y. leb_ℤ y x)

-- A comparison with NULL is not true.
abbrev pub is_time : ℤ → Option ℤ → Bool
is_time t none = false
is_time t (some u) = int_beq t u

module _ {F : Type 0} where
  abbrev pub price_of_row : TokenPriceRow F → TokenPrice F
  price_of_row row = record {
    last_updated = row.last_updated;
    value = row.value;
    name = row.name;
    base = row.base;
  }

  -- The subqueries read the prices of every token.
  abbrev pub nearest_condition : ℤ → Text → List (TokenPriceRow F) → TokenPriceRow F → Bool
  nearest_condition t name all row =
      let times = map (λ r. r.last_updated) all in
      row.name == name
      && (is_time row.last_updated (greatest (filter (λ u. leb_ℤ u t) times))
          || is_time row.last_updated (least (filter (λ u. leb_ℤ t u) times)))

  abbrev pub nearest_statement : ℤ → Text → Statement (TokenPriceRow F)
  nearest_statement t name = record {
    condition = nearest_condition t name;
    newest_by = none;
    limit = some 2;
  }

  abbrev pub latest_statement : Text → Statement (TokenPriceRow F)
  latest_statement name = record {
    condition = λ all row. row.name == name;
    newest_by = some (λ row. row.last_updated);
    limit = some 1;
  }

  abbrev prices_condition : ℤ → ℤ → Text → TokenPriceRow F → Bool
  prices_condition from to name row =
      leb_ℤ from row.last_updated
      && leb_ℤ row.last_updated to
      && (if is_empty name then true else row.name == name)

module _ {F D : Type 0} (tables : Tables F D) where
  unfoldable pub ibc_denom : D → Text → Option DenomTrace
  unfolding trace_of
  ibc_denom d ibc =
      elim (found_first (tables.ibc_denoms.find d (first_of (λ row. row.ibc == ibc)))) [
        | none ↦ none
        | some row ↦ some (trace_of row)
      ]

  unfoldable pub ibc_denom_all : D → List DenomTrace
  unfolding trace_of
  ibc_denom_all d =
      let found = tables.ibc_denoms.find d (matching (λ row. true)) in
      elim found.error [ some e ↦ [] | none ↦ map trace_of found.rows ]

  unfoldable pub token_price : D → Time → Text → Option (TokenPrice F)
  token_price d t name =
      let is_it : TokenPriceRow F → Bool =
        λ row. int_beq row.last_updated (unix_nano t) && row.name == name in
      elim (found_first (tables.token_prices.find d (first_of is_it))) [
        | none ↦ none
        | some row ↦ some (price_of_row row)
      ]

  unfoldable pub nearest_token_price : D → Time → Text → Option (List (TokenPrice F))
  nearest_token_price d t name =
      let found = tables.token_prices.find d (nearest_statement (unix_nano t) name) in
      if is_empty found.rows then none else some (map price_of_row found.rows)

  unfoldable pub latest_token_price : D → Text → Option (TokenPrice F)
  latest_token_price d name =
      elim (found_first (tables.token_prices.find d (latest_statement name))) [
        | none ↦ none
        | some row ↦ some (price_of_row row)
      ]

  unfoldable pub token_prices_range : D → Time → Time → Text → Result (List (TokenPrice F))
  token_prices_range d from to name =
      let asked = matching (prices_condition (unix_nano from) (unix_nano to) name) in
      let found = tables.token_prices.find d asked in
      elim found.error [ some e ↦ err e | none ↦ ok (map price_of_row found.rows) ]

abbrev pub pools_condition : ℕ → ℕ → ℕ → PoolRow → Bool
pools_condition lo hi id row =
    leb lo row.height && leb row.height hi && (if id == 0 then true else row.pool_id == id)

-- sdk.Coins.String and sdk.ParseCoinsNormalized.
pub record CoinsText : Type 0 where
  pub print : Coins → Text
  pub parse : Text → Coins ⊎ Error

module _ (coins : CoinsText) where
  -- The timestamp is not read, and stays the zero time.
  unfoldable pub pool_of_row : PoolRow → Pool ⊎ Error
  pool_of_row row = elim (coins.parse row.liquidity) [
    | inr e ↦ inr e
    | inl liquidity ↦ elim (coins.parse row.volume) [
      | inr e ↦ inr e
      | inl volume ↦ inl record {
        timestamp = zero_time;
        height = row.height;
        pool_id = row.pool_id;
        liquidity = liquidity;
        volume = volume;
      }
    ]
  ]

  -- The loop of PoolsRange: the first row that does not parse ends it.
  unfoldable pub pools_of_rows : List PoolRow → Result (List Pool)
  unfolding pool_of_row
  pools_of_rows [] = ok []
  pools_of_rows (row ∷ rows) = elim (pool_of_row row) [
    | inr e ↦ err e
    | inl pool ↦ elim (pools_of_rows rows) [
      | ok pools ↦ ok (pool ∷ pools)
      | err e ↦ err e
      | panic ↦ panic
    ]
  ]

  module _ {F D : Type 0} (tables : Tables F D) where
    -- gorm's Last orders by the first column of a model without a primary key: CreatedAt.
    unfoldable pub latest_pool : D → ℕ → Option Pool
    unfolding pool_of_row
    latest_pool d id =
        let q : Statement PoolRow = record {
          condition = λ all row. row.pool_id == id;
          newest_by = some (λ row. row.created_at);
          limit = some 1;
        } in
        let found = tables.pools.find d q in
        elim found.error [
          | some e ↦ none
          | none ↦ elim (found_first found) [
            | none ↦ none
            | some row ↦ elim (pool_of_row row) [ inr e ↦ none | inl pool ↦ some pool ]
          ]
        ]

    unfoldable pub pools_range : D → ℕ → ℕ → ℕ → Result (List Pool)
    unfolding pools_of_rows
    pools_range d lo hi id =
        let found = tables.pools.find d (matching (pools_condition lo hi id)) in
        elim found.error [ some e ↦ err e | none ↦ pools_of_rows found.rows ]
