-- ===== src/Database.antt =====
-- The tables of internal/repository (models.go), and what is asked of the database that holds them:
-- the statements as the source writes them, over a state of the database, and SQL's laws for them.
pub mod Reading
pub mod Writing
pub mod Contents
pub mod Keys
pub mod Rows
pub mod Ranges
pub mod Newest
pub mod Refining
use osmosis_publisher.Prelude.{
  ℕ, zero, suc, ◌<◌, ◌≤◌, ℤ, ◌≤ℤ◌, Text, List, [], ◌∷◌, map, filter, length, Member, Option, none,
  some, Bool, true, not, Eq, ◌==◌, pair_keys, nat_eq, text_eq, int_eq, pair_eq, if◌then◌else◌, Map,
  ◌≡◌, ◌≢◌, ◌⊎◌,
}
use osmosis_publisher.Types.{Time, Error, zero_time}

pub record IbcDenomRow : Type 0 where
  pub created_at : Time
  pub updated_at : Time
  pub ibc : Text
  pub path : Text
  pub base_denom : Text

pub record TokenPriceRow (F : Type 0) : Type 0 where
  pub created_at : Time
  pub updated_at : Time
  pub last_updated : ℤ
  pub value : F
  pub name : Text
  pub base : Text

pub record PoolRow : Type 0 where
  pub created_at : Time
  pub updated_at : Time
  pub timestamp : Time
  pub height : ℕ
  pub pool_id : ℕ
  pub liquidity : Text
  pub volume : Text

-- The columns of a table's unique index, and the row as it is created at a time.
pub record Schema (R K : Type 0) : Type 0 where
  pub key : R → K
  pub stamped : Time → R → R

abbrev pub ibc_denom_schema : Schema IbcDenomRow Text
ibc_denom_schema = record {
  key = λ row. row.ibc;
  stamped = λ now row. record row { created_at = now; updated_at = now };
}

abbrev pub token_price_schema : {F : Type 0} → Schema (TokenPriceRow F) (ℤ × (Text × Text))
token_price_schema = record {
  key = λ row. (row.last_updated, (row.name, row.base));
  stamped = λ now row. record row { created_at = now; updated_at = now };
}

abbrev pub pool_schema : Schema PoolRow (ℕ × ℕ)
pool_schema = record {
  key = λ row. (row.height, row.pool_id);
  stamped = λ now row. record row { created_at = now; updated_at = now };
}

-- SELECT: the WHERE, whose subqueries read all rows, ORDER BY a column DESC, and LIMIT.
pub record Statement (R : Type 0) : Type 0 where
  pub condition : List R → R → Bool
  pub newest_by : Option (R → ℤ)
  pub limit : Option ℕ

-- gorm's result: the rows that were read, RowsAffected of them, and Error.
pub record Found (R : Type 0) : Type 0 where
  pub rows : List R
  pub error : Option Error

-- `create` has the clause ON CONFLICT, as the row that is kept of the old one and the new.
pub record Table (D R : Type 0) : Type 0 where
  pub find : D → Statement R → Found R
  pub create : D → (R → R → R) → R → Option Error × D
  pub delete : D → (R → Bool) → (ℕ × Option Error) × D

pub record Tables (F D : Type 0) : Type 0 where
  pub ibc_denoms : Table D IbcDenomRow
  pub token_prices : Table D (TokenPriceRow F)
  pub pools : Table D PoolRow

-- What SQL says of the rows that a statement answers with.
pub record IsAnswer {R : Type 0} (q : Statement R) (rows answer : List R) : Type 0 where
  pub sound : (r : R) → Member r answer → Member r rows × (q.condition rows r ≡ true)
  pub complete :
      (r : R) → q.limit ≡ none → Member r rows → q.condition rows r ≡ true → Member r answer
  pub not_empty :
      (r : R) → q.limit ≢ some 0 → Member r rows → q.condition rows r ≡ true → 0 < length answer
  pub limited : (n : ℕ) → q.limit ≡ some n → length answer ≤ n
  pub newest_first :
      (by : R → ℤ) (r other : R)
      → q.newest_by ≡ some by
      → Member r answer
      → Member other rows
      → q.condition rows other ≡ true
      → Member other answer ⊎ (by other ≤ℤ by r)

module _ {R K : Type 0} ⦃e : Eq K⦄ (schema : Schema R K) where
  -- INSERT with ON CONFLICT of the unique index.
  unfoldable pub upsert : (R → R → R) → R → List R → List R
  upsert merge r [] = r ∷ []
  upsert merge r (x ∷ xs) =
      if schema.key x == schema.key r then merge x r ∷ xs else x ∷ upsert merge r xs

  -- A table whose statements do what SQL says if they report no error, and else change nothing.
  pub record IsTable {D : Type 0} (table : Table D R) : Type 0 where
    pub rows : D → List R
    pub now : D → Time
    pub answered :
        (d : D) (q : Statement R)
        → (table.find d q).error ≡ none
        → IsAnswer q (rows d) (table.find d q).rows
    pub created :
        (d : D) (merge : R → R → R) (r : R)
        → (table.create d merge r).0 ≡ none
        → rows (table.create d merge r).1 ≡ upsert merge (schema.stamped (now d) r) (rows d)
    pub not_created :
        (d : D) (merge : R → R → R) (r : R)
        → (table.create d merge r).0 ≢ none
        → rows (table.create d merge r).1 ≡ rows d
    pub deleted :
        (d : D) (p : R → Bool)
        → (table.delete d p).0.1 ≡ none
        → (rows (table.delete d p).1 ≡ filter (λ r. not (p r)) (rows d))
          × ((table.delete d p).0.0 ≡ length (filter p (rows d)))
    pub not_deleted :
        (d : D) (p : R → Bool) → (table.delete d p).0.1 ≢ none → rows (table.delete d p).1 ≡ rows d

-- The three tables of one database: a statement on one leaves the rows of the others.
pub record AreTables {F D : Type 0} (tables : Tables F D) : Type 0 where
  pub ibc_denoms : IsTable ibc_denom_schema tables.ibc_denoms
  pub token_prices : IsTable token_price_schema tables.token_prices
  pub pools : IsTable pool_schema tables.pools
  pub ibc_denoms_apart :
      (d : D) (merge : IbcDenomRow → IbcDenomRow → IbcDenomRow) (r : IbcDenomRow)
      → (token_prices.rows (tables.ibc_denoms.create d merge r).1 ≡ token_prices.rows d)
        × (pools.rows (tables.ibc_denoms.create d merge r).1 ≡ pools.rows d)
  pub token_prices_apart :
      (d : D) (merge : TokenPriceRow F → TokenPriceRow F → TokenPriceRow F) (r : TokenPriceRow F)
      → (ibc_denoms.rows (tables.token_prices.create d merge r).1 ≡ ibc_denoms.rows d)
        × (pools.rows (tables.token_prices.create d merge r).1 ≡ pools.rows d)
  pub pools_apart :
      (d : D) (merge : PoolRow → PoolRow → PoolRow) (r : PoolRow)
      → (ibc_denoms.rows (tables.pools.create d merge r).1 ≡ ibc_denoms.rows d)
        × (token_prices.rows (tables.pools.create d merge r).1 ≡ token_prices.rows d)
  pub token_prices_deleted_apart :
      (d : D) (p : TokenPriceRow F → Bool)
      → (ibc_denoms.rows (tables.token_prices.delete d p).1 ≡ ibc_denoms.rows d)
        × (pools.rows (tables.token_prices.delete d p).1 ≡ pools.rows d)
  pub pools_deleted_apart :
      (d : D) (p : PoolRow → Bool)
      → (ibc_denoms.rows (tables.pools.delete d p).1 ≡ ibc_denoms.rows d)
        × (token_prices.rows (tables.pools.delete d p).1 ≡ token_prices.rows d)
