-- ===== src/Pools/Caching.antt =====
-- The cache of pools is a map from a height and a pool id.
use osmosis_publisher.Prelude.{
  ℕ, ◌+◌, ◌≡◌, refl, ◌&&◌, ◌||◌, [], ◌∷◌, arith, none, some, ltb, ◌==◌, nat_eq, lookup, retain,
  is_some, if◌then◌else◌, lookup-insert, lookup-insert_self, lookup-retain, ==_cases, ==_refl, inl,
  inr, Option-cases, length, Bool-cases,
}
use osmosis_publisher.Types.{Pool}
use osmosis_publisher.Pools.{PoolMap, set_pool, has_pool, get_pool, count_below, prune_pools}

-- After a store the cache has the pool at its height and id, and elsewhere what it had.
pub get_pool-set_pool :
    (pools : PoolMap) (pool : Pool) (height id : ℕ)
    → get_pool (set_pool pools pool) height id ≡ (
        if pool.height == height && pool.pool_id == id then some pool else get_pool pools height id)
unfolding set_pool get_pool
get_pool-set_pool pools pool height id = elim (==_cases pool.height height) [
  | inr (e, _) ↦ rw (get_pool, lookup-insert, e)
  | inl (e, same) ↦
      rw (← same, get_pool, lookup-insert_self, ==_refl pool.height, lookup-insert)
        (elim (Option-cases (lookup pool.height pools)) [
          | inl f ↦ rw f (unfold lookup in refl)
          | inr (m, f) ↦ rw f
        ])
]

-- Has answers whether Get finds a pool.
pub has_pool-get_pool :
    (pools : PoolMap) (height id : ℕ)
    → has_pool pools height id ≡ is_some (get_pool pools height id)
unfolding has_pool get_pool
has_pool-get_pool pools height id = ground arith

-- Prune drops the pools below the height, and no others.
pub get_pool-prune_pools :
    (pools : PoolMap) (min_height height id : ℕ)
    → get_pool (prune_pools pools min_height).0 height id
      ≡ (if ltb height min_height then none else get_pool pools height id)
unfolding prune_pools get_pool
get_pool-prune_pools pools min_height height id =
    rw (get_pool, lookup-retain)
      (elim (Bool-cases (ltb height min_height)) [ inl e ↦ rw e | inr e ↦ rw e ])

-- Prune's count is how many entries of the map it drops.
prune_pools_count :
    (pools : PoolMap) (min_height : ℕ)
    → (prune_pools pools min_height).1 + length (prune_pools pools min_height).0 ≡ length pools
unfolding prune_pools count_below retain
prune_pools_count [] min_height = omega arith
prune_pools_count ((h, m) ∷ rest) min_height = ground (arith, prune_pools_count rest min_height)

-- Each pool stands under its own height and id.
abbrev pub IsKeyed : PoolMap → Type 0
IsKeyed pools =
    (height id : ℕ) (p : Pool)
    → get_pool pools height id ≡ some p
    → (p.height ≡ height) × (p.pool_id ≡ id)

pub set_pool-IsKeyed :
    (pools : PoolMap) (pool : Pool) → IsKeyed pools → IsKeyed (set_pool pools pool)
set_pool-IsKeyed pools pool k height id p h =
    ground (arith, get_pool-set_pool pools pool height id, k height id p)

prune_pools-IsKeyed :
    (pools : PoolMap) (min_height : ℕ) → IsKeyed pools → IsKeyed (prune_pools pools min_height).0
prune_pools-IsKeyed pools min_height k height id p h =
    ground (arith, get_pool-prune_pools pools min_height height id, k height id p)

-- A store makes the pool's own place full, and empties none.
pub has_pool-set_pool :
    (pools : PoolMap) (pool : Pool) (height id : ℕ)
    → has_pool (set_pool pools pool) height id
      ≡ (pool.height == height && pool.pool_id == id || has_pool pools height id)
has_pool-set_pool pools pool height id = ground (
  arith,
  has_pool-get_pool (set_pool pools pool) height id,
  has_pool-get_pool pools height id,
  get_pool-set_pool pools pool height id,
)
