-- ===== src/Interfaces.antt =====
-- What the indexer is given: the repository (pkg/repository/repository.go) and the RPC client
-- (the interface `ExpectedRPC` of internal/indexer/indexer.go), over a state of all that is
-- outside the process. A read that the source does not check for failure answers plainly.
use osmosis_publisher.Prelude.{ℕ, ℤ, Text, List, [], ◌∷◌, Option, none, ◌≡◌, ◌≢◌, length}
use osmosis_publisher.Types.{
  Time, TokenPrice, Pool, PoolLiquidity, PoolVolume, DenomTrace, Error, Result, ok, panic,
}

-- What is read of a block.
pub record Block : Type 0 where
  pub height : ℤ
  pub time : Time
  pub hash : Text
  pub chain_id : Text

pub record Repository (F S : Type 0) : Type 0 where
  pub ibc_denom : S → Text → Option DenomTrace
  pub ibc_denom_all : S → List DenomTrace
  pub token_price : S → Time → Text → Option (TokenPrice F)
  pub nearest_token_price : S → Time → Text → Option (List (TokenPrice F))
  pub latest_token_price : S → Text → Option (TokenPrice F)
  pub latest_pool : S → ℕ → Option Pool
  pub pools_range : S → ℕ → ℕ → ℕ → Result (List Pool)
  pub token_prices_range : S → Time → Time → Text → Result (List (TokenPrice F))
  pub save_ibc_denom : S → DenomTrace → Option Error × S
  pub save_token_price : S → TokenPrice F → Option Error × S
  pub save_pool : S → Pool → Option Error × S
  pub prune_token_prices : S → Time → Result ℕ × S
  pub prune_pools : S → ℕ → Result ℕ × S

pub record ExpectedRpc (S : Type 0) : Type 0 where
  pub denom_trace : S → Text → Result DenomTrace × S
  pub denom_traces : S → Result (List DenomTrace) × S
  pub block_at : S → ℤ → Result Block × S
  pub pools_total_liquidity_at : S → ℤ → List ℕ → Result (List PoolLiquidity) × S
  pub pools_volume_at : S → ℤ → List ℕ → Result (List PoolVolume) × S

-- What the indexer relies on: a question returns, and its answer has an entry for each pool that
-- was asked for.
pub record AnswersAll {S : Type 0} (rpc : ExpectedRpc S) : Type 0 where
  pub liquidity_returns :
      (s : S) (height : ℤ) (ids : List ℕ) → (rpc.pools_total_liquidity_at s height ids).0 ≢ panic
  pub all_liquidity :
      (s : S) (height : ℤ) (ids : List ℕ) (ls : List PoolLiquidity)
      → (rpc.pools_total_liquidity_at s height ids).0 ≡ ok ls
      → length ls ≡ length ids
  pub volumes_return :
      (s : S) (height : ℤ) (ids : List ℕ) → (rpc.pools_volume_at s height ids).0 ≢ panic
  pub all_volumes :
      (s : S) (height : ℤ) (ids : List ℕ) (vs : List PoolVolume)
      → (rpc.pools_volume_at s height ids).0 ≡ ok vs
      → length vs ≡ length ids

-- A client that finds every pool, and a repository that saves it.
pub record NeverFails {F S : Type 0} (repo : Repository F S) (rpc : ExpectedRpc S) : Type 0 where
  pub liquidity_found :
      (s : S) (height : ℤ) (id : ℕ)
      → (l : PoolLiquidity) × ((rpc.pools_total_liquidity_at s height (id ∷ [])).0 ≡ ok (l ∷ []))
  pub volume_found :
      (s : S) (height : ℤ) (id : ℕ)
      → (v : PoolVolume) × ((rpc.pools_volume_at s height (id ∷ [])).0 ≡ ok (v ∷ []))
  pub saved : (s : S) (pool : Pool) → (repo.save_pool s pool).0 ≡ none
