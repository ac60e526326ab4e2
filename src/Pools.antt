-- ===== src/Pools.antt =====
-- internal/indexer/pool.go, lines 12-83: the cache of pools by height and pool id, and the counter
-- that only grows. The lock of `PoolMap` makes each operation one step.
pub mod Caching
use osmosis_publisher.Prelude.{
  ℕ, suc, Bool, true, false, not, List, [], ◌∷◌, Option, none, some, ltb, leb, ◌==◌, nat_eq, Map,
  lookup, insert, retain, option_or, is_some, if◌then◌else◌,
}
use osmosis_publisher.Types.{Pool}

abbrev pub PoolMap : Type 0
PoolMap = Map ℕ (Map ℕ Pool)

-- PoolMap.Set
unfoldable pub set_pool : PoolMap → Pool → PoolMap
set_pool pools pool =
    insert pool.height (insert pool.pool_id pool (option_or (lookup pool.height pools) [])) pools

-- PoolMap.Has
unfoldable pub has_pool : PoolMap → ℕ → ℕ → Bool
has_pool pools height id = elim (lookup height pools) [
  | none ↦ false
  | some at_height ↦ is_some (lookup id at_height)
]

-- PoolMap.Get
unfoldable pub get_pool : PoolMap → ℕ → ℕ → Option Pool
get_pool pools height id = elim (lookup height pools) [
  | none ↦ none
  | some at_height ↦ lookup id at_height
]

-- The loop of PoolMap.Prune over the heights.
unfoldable pub count_below : ℕ → PoolMap → ℕ
count_below min_height [] = 0
count_below min_height ((h, _) ∷ rest) =
    if ltb h min_height then suc (count_below min_height rest) else count_below min_height rest

-- PoolMap.Prune: the pools that are left, and how many heights were dropped.
unfoldable pub prune_pools : PoolMap → ℕ → PoolMap × ℕ
unfolding count_below
prune_pools pools min_height =
    (retain (λ h. not (ltb h min_height)) pools, count_below min_height pools)

-- setMaxValue, run alone: the counter's new value, and its old one.
unfoldable pub set_max_value : ℕ → ℕ → ℕ × ℕ
set_max_value old v = if leb v old then (old, old) else (v, old)
