-- ===== src/Indexer/PoolStatus/Asking.antt =====
-- getPool (internal/indexer/pool.go): what it asks the node and saves.
use osmosis_publisher.Prelude.{ℕ, List, [], ◌∷◌, ◌≡◌, some, nat_eq, to_int64}
use osmosis_publisher.Types.{Pool, PoolLiquidity, PoolVolume, Error, ok, err}
use osmosis_publisher.Interfaces.{Repository, ExpectedRpc}
use osmosis_publisher.Indexer.PoolStatus.{fetched}

-- The pool that the node's answers at the height make.
pub data IsAsked {S : Type 0} (rpc : ExpectedRpc S) (height id : ℕ) : Pool → Type 0 where
  asked :
      (s s' : S) (l : PoolLiquidity) (ls : List PoolLiquidity) (v : PoolVolume)
      (vs : List PoolVolume)
      → (rpc.pools_total_liquidity_at s (to_int64 height) (id ∷ [])).0 ≡ ok (l ∷ ls)
      → (rpc.pools_volume_at s' (to_int64 height) (id ∷ [])).0 ≡ ok (v ∷ vs)
      → IsAsked rpc height id (fetched height id l v)

-- The error of a question for the pool at the height, or of saving what was answered.
pub data IsFailure {F S : Type 0} (repo : Repository F S) (rpc : ExpectedRpc S) (height id : ℕ)
    (e : Error) : Type 0 where
  liquidity_failed :
      (s : S)
      → (rpc.pools_total_liquidity_at s (to_int64 height) (id ∷ [])).0 ≡ err e
      → IsFailure repo rpc height id e
  volume_failed :
      (s : S)
      → (rpc.pools_volume_at s (to_int64 height) (id ∷ [])).0 ≡ err e
      → IsFailure repo rpc height id e
  save_failed :
      (s : S) (pool : Pool)
      → IsAsked rpc height id pool
      → (repo.save_pool s pool).0 ≡ some e
      → IsFailure repo rpc height id e
