-- ===== src/Indexer/PoolStatus/Origin.antt =====
-- getPool (internal/indexer/pool.go): where what it answers, and what is cached, comes from.
use osmosis_publisher.Prelude.{
  ℕ, ==_cases, subst, ◌≡◌, ◌≢◌, ap, none, some, nat_eq, ◌⊎◌, inl, inr, arith,
}
use osmosis_publisher.Types.{Pool, Error, ok, err, panic}
use osmosis_publisher.Interfaces.{Repository, ExpectedRpc}
use osmosis_publisher.Pools
use osmosis_publisher.Pools.{PoolMap, set_pool, has_pool}
use osmosis_publisher.Pools.Caching.{get_pool-set_pool}
use osmosis_publisher.Indexer.{World}
use osmosis_publisher.Indexer.PoolStatus.{or_current, fetched, get_pool}
use osmosis_publisher.Indexer.PoolStatus.Asking.{IsAsked, IsFailure}
use osmosis_publisher.Indexer.PoolStatus.Fetching.{Fetched, get_pool_cases}

-- What the cache has at a height and an id, or what is made of the node's answers for them.
abbrev pub IsPoolAt : {S : Type 0} → ExpectedRpc S → PoolMap → ℕ → ℕ → Pool → Type 0
IsPoolAt rpc pools height id pool =
    (Pools.get_pool pools height id ≡ some pool) ⊎ IsAsked rpc height id pool

set_pool-IsPoolAt :
    {S : Type 0} (rpc : ExpectedRpc S) (pools : PoolMap) (pool p : Pool) (height id : ℕ)
    → IsAsked rpc pool.height pool.pool_id pool
    → Pools.get_pool (set_pool pools pool) height id ≡ some p
    → IsPoolAt rpc pools height id p
set_pool-IsPoolAt rpc pools pool p height id made h =
    let step = get_pool-set_pool pools pool height id in
    elim (==_cases pool.height height) [
      | inr (f, n) ↦ inl (ground (arith, step, f, h))
      | inl (t, a) ↦ elim (==_cases pool.pool_id id) [
        | inr (f, n) ↦ inl (ground (arith, step, t, f, h))
        | inl (t', b) ↦
            let same : pool ≡ p = ground (arith, step, t, t', h) in
            inr (
              subst (IsAsked rpc height id) same (
                subst (λ i. IsAsked rpc height i pool) b
                  (subst (λ k. IsAsked rpc k pool.pool_id pool) a made)))
      ]
    ]

module _ {F S : Type 0} (repo : Repository F S) (rpc : ExpectedRpc S) (height id : ℕ)
    (w : World F S) where
  -- A pool that is answered is the one of the height and the id, and an error is one of theirs.
  pub get_pool-IsPoolAt :
      (p : Pool)
      → (get_pool repo rpc height id w).0 ≡ ok p
      → IsPoolAt rpc w.indexer.pools (or_current w height) id p
  get_pool-IsPoolAt p h = elim (get_pool_cases repo rpc height id w) [
    | inl (q, e, r) ↦ inl (cc (ap (λ t. t.0) r, e, h))
    | inr (_, Fetched.refused e f k same) ↦ cc
    | inr (_, Fetched.broken short k) ↦ cc
    | inr (_, Fetched.stored l v none a s same k) ↦
        inr (subst (IsAsked rpc (or_current w height) id) (cc) a)
    | inr (_, Fetched.stored l v (some e) a s same k) ↦ cc
  ]

  pub get_pool-IsFailure :
      (e : Error)
      → (get_pool repo rpc height id w).0 ≡ err e
      → IsFailure repo rpc (or_current w height) id e
  get_pool-IsFailure e h = elim (get_pool_cases repo rpc height id w) [
    | inl (q, k, r) ↦ cc (ap (λ t. t.0) r, h)
    | inr (_, Fetched.refused e' f k same) ↦
        subst (IsFailure repo rpc (or_current w height) id) (cc) f
    | inr (_, Fetched.broken short k) ↦ cc
    | inr (_, Fetched.stored l v none a s same k) ↦ cc
    | inr (_, Fetched.stored l v (some e') a (s, q) same k) ↦
        IsFailure.save_failed s (fetched (or_current w height) id l v) a (cc)
  ]

  -- What the cache has afterwards it had, or the node answered it.
  pub get_pool_origin :
      (h i : ℕ) (p : Pool)
      → (get_pool repo rpc height id w).0 ≢ panic
      → Pools.get_pool (get_pool repo rpc height id w).1.indexer.pools h i ≡ some p
      → IsPoolAt rpc w.indexer.pools h i p
  get_pool_origin h i p np k = elim (get_pool_cases repo rpc height id w) [
    | inl (q, e, r) ↦ inl (subst (λ v. Pools.get_pool v.1.indexer.pools h i ≡ some p) r k)
    | inr (_, Fetched.refused e f g same) ↦
        inl (subst (λ d. Pools.get_pool d.pools h i ≡ some p) same k)
    | inr (_, Fetched.broken short g) ↦ absurd (np g)
    | inr (_, Fetched.stored l v saved a s same g) ↦
        set_pool-IsPoolAt rpc w.indexer.pools (fetched (or_current w height) id l v) p h i a
          (subst (λ d. Pools.get_pool d.pools h i ≡ some p) same k)
  ]
