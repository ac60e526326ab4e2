-- ===== src/Indexer/PoolStatus/Fetching.antt =====
-- getPool: the cache, the misses, and the errors.
use osmosis_publisher.Prelude.{
  ℕ, [], ◌∷◌, refl, ◌≡◌, ◌≢◌, refl, sym, ◌∙◌, ap, Option, none, some, true, nat_eq, to_int64, ◌⊎◌,
  inl, inr, arith, ==_refl, Option-cases,
}
use osmosis_publisher.Types.{
  Pool, PoolLiquidity, PoolVolume, Error, Result, Result-cases, ok, err, panic,
}
use osmosis_publisher.Interfaces.{Repository, ExpectedRpc, AnswersAll}
use osmosis_publisher.Pools
use osmosis_publisher.Pools.{PoolMap, set_pool, has_pool}
use osmosis_publisher.Pools.Caching.{
  get_pool-set_pool, has_pool-get_pool, has_pool-set_pool, IsKeyed, set_pool-IsKeyed,
}
use osmosis_publisher.Indexer.{World}
use osmosis_publisher.Indexer.PoolStatus.{or_current, fetched, fetch_pool, get_pool}
use osmosis_publisher.Indexer.PoolStatus.Asking.{IsAsked, IsFailure}

-- The state with a pool cached.
abbrev pub cached : {F S : Type 0} → World F S → Pool → S → World F S
cached w pool s = record {
  indexer = record w.indexer { pools = set_pool w.indexer.pools pool };
  outside = s;
}

-- What a fetch of a pool may do: nothing to the indexer, with an error or a panic; or the pool is
-- cached, and then the answer is the repository's.
pub data Fetched {F S : Type 0} (repo : Repository F S) (rpc : ExpectedRpc S) (w : World F S)
    (height id : ℕ) (r : Result Pool × World F S) : Type 0 where
  refused :
      (e : Error)
      → IsFailure repo rpc height id e
      → r.0 ≡ err e
      → r.1.indexer ≡ w.indexer
      → Fetched repo rpc w height id r
  broken : ¬ AnswersAll rpc → r.0 ≡ panic → Fetched repo rpc w height id r
  stored :
      (l : PoolLiquidity) (v : PoolVolume) (saved : Option Error)
      → IsAsked rpc height id (fetched height id l v)
      → ((s : S) × ((repo.save_pool s (fetched height id l v)).0 ≡ saved))
      → r.1.indexer ≡ record w.indexer { pools = set_pool w.indexer.pools (fetched height id l v) }
      → r.0 ≡ elim saved [ none ↦ ok (fetched height id l v) | some e ↦ err e ]
      → Fetched repo rpc w height id r

set_pool_self :
    (height id : ℕ) (l : PoolLiquidity) (v : PoolVolume) (pools : PoolMap)
    → Pools.get_pool (set_pool pools (fetched height id l v)) height id
      ≡ some (fetched height id l v)
set_pool_self height id l v pools =
    rw (get_pool-set_pool pools (fetched height id l v) height id, ==_refl height, ==_refl id)

short : ◌≡◌ {A = ℕ} 0 1 → ⊥
short h = omega arith

module _ {F S : Type 0} {repo : Repository F S} {rpc : ExpectedRpc S} {w : World F S}
    {height id : ℕ} where
  Fetched-ne-panic :
      (r : Result Pool × World F S) → Fetched repo rpc w height id r → AnswersAll rpc → r.0 ≢ panic
  Fetched-ne-panic r (refused e f h same) all p = cc
  Fetched-ne-panic r (broken short h) all p = short all
  Fetched-ne-panic r (stored l v none a s same h) all p = cc
  Fetched-ne-panic r (stored l v (some e) a s same h) all p = cc

  Fetched-ok :
      (r : Result Pool × World F S) (p : Pool)
      → Fetched repo rpc w height id r
      → r.0 ≡ ok p
      → (Pools.get_pool r.1.indexer.pools height id ≡ some p)
        × (r.1.indexer.current_block_height ≡ w.indexer.current_block_height)
  Fetched-ok r p (refused e f h same) o = cc
  Fetched-ok r p (broken short h) o = cc
  Fetched-ok r p (stored l v none a s same h) o =
      ground (arith, set_pool_self height id l v w.indexer.pools)
  Fetched-ok r p (stored l v (some e) a s same h) o = cc

  Fetched-keeps :
      (r : Result Pool × World F S)
      → Fetched repo rpc w height id r
      → r.0 ≢ panic
      → record r.1.indexer { pools = w.indexer.pools } ≡ w.indexer
  Fetched-keeps r (refused e f h same) np = rw same
  Fetched-keeps r (broken short h) np = absurd (np h)
  Fetched-keeps r (stored l v saved a s same h) np = rw same

  Fetched-IsKeyed :
      (r : Result Pool × World F S)
      → Fetched repo rpc w height id r
      → r.0 ≢ panic
      → IsKeyed w.indexer.pools
      → IsKeyed r.1.indexer.pools
  Fetched-IsKeyed r (refused e f h same) np k = rw same k
  Fetched-IsKeyed r (broken short h) np k = absurd (np h)
  Fetched-IsKeyed r (stored l v saved a s same h) np k =
      rw same (set_pool-IsKeyed w.indexer.pools _ k)

  -- No outcome empties a place of the cache.
  Fetched-has_pool :
      (r : Result Pool × World F S) (h i : ℕ)
      → Fetched repo rpc w height id r
      → r.0 ≢ panic
      → has_pool w.indexer.pools h i ≡ true
      → has_pool r.1.indexer.pools h i ≡ true
  Fetched-has_pool r h i (refused e f k same) np have = rw same have
  Fetched-has_pool r h i (broken short k) np have = absurd (np k)
  Fetched-has_pool r h i (stored l v saved a s same k) np have =
      ground (arith, has_pool-set_pool w.indexer.pools (fetched height id l v) h i)

module _ {F S : Type 0} (repo : Repository F S) (rpc : ExpectedRpc S) where
  fetch_pool-Fetched :
      (height id : ℕ) (w : World F S)
      → Fetched repo rpc w height id (fetch_pool repo rpc height id w)
  unfolding fetch_pool
  fetch_pool-Fetched height id w =
      let rl = rpc.pools_total_liquidity_at w.outside (to_int64 height) (id ∷ []) in
      let rv = rpc.pools_volume_at rl.1 (to_int64 height) (id ∷ []) in
      elim (Result-cases rl.0) [
        | inr (inl (e, h)) ↦
            refused e (IsFailure.liquidity_failed w.outside h) (ground arith) (ground arith)
        | inr (inr h) ↦ broken (λ all. all.liquidity_returns _ _ _ h) (ground arith)
        | inl ([], h) ↦ elim (Result-cases rv.0) [
          | inr (inl (e, k)) ↦
              refused e (IsFailure.volume_failed rl.1 k) (ground arith) (ground arith)
          | inr (inr k) ↦ broken (λ all. all.volumes_return _ _ _ k) (ground arith)
          | inl (vs, k) ↦ broken (λ all. short (all.all_liquidity _ _ _ _ h)) (ground arith)
        ]
        | inl (l ∷ ls, h) ↦ elim (Result-cases rv.0) [
          | inr (inl (e, k)) ↦
              refused e (IsFailure.volume_failed rl.1 k) (ground arith) (ground arith)
          | inr (inr k) ↦ broken (λ all. all.volumes_return _ _ _ k) (ground arith)
          | inl ([], k) ↦ broken (λ all. short (all.all_volumes _ _ _ _ k)) (ground arith)
          | inl (v ∷ vs, k) ↦
              stored l v (repo.save_pool rv.1 (fetched height id l v)).0
                (IsAsked.asked w.outside rl.1 l ls v vs h k) (rv.1, refl) (ground arith)
                (ground arith)
        ]
      ]

  -- A hit of the cache answers at once; a miss is a fetch.
  pub get_pool_cases :
      (height id : ℕ) (w : World F S)
      → ((p : Pool) × (Pools.get_pool w.indexer.pools (or_current w height) id ≡ some p)
          × (get_pool repo rpc height id w ≡ (ok p, w)))
        ⊎ ((Pools.get_pool w.indexer.pools (or_current w height) id ≡ none)
            × Fetched repo rpc w (or_current w height) id (get_pool repo rpc height id w))
  unfolding get_pool
  get_pool_cases height id w =
      elim (Option-cases (Pools.get_pool w.indexer.pools (or_current w height) id)) [
        | inr (p, e) ↦ inl (p, e, rw (e, get_pool))
        | inl e ↦ inr (e, rw (e, get_pool) (fetch_pool-Fetched (or_current w height) id w))
      ]

  -- A pool in the cache is answered with no question to the node, no write to the repository and
  -- no change of the state.
  pub get_pool_hit :
      (height id : ℕ) (w : World F S) (p : Pool)
      → Pools.get_pool w.indexer.pools (or_current w height) id ≡ some p
      → get_pool repo rpc height id w ≡ (ok p, w)
  unfolding get_pool
  get_pool_hit height id w p h = rw (h, get_pool)

  -- After an answer, a second call for the same height and pool has the same answer, with no
  -- question outside and no change of the state.
  pub get_pool_again :
      (height id : ℕ) (w w' : World F S) (p : Pool)
      → get_pool repo rpc height id w ≡ (ok p, w')
      → get_pool repo rpc height id w' ≡ (ok p, w')
  get_pool_again height id w w' p h = elim (get_pool_cases height id w) [
    | inl (q, e, r) ↦ cc (ap (λ t. t.1) (sym r ∙ h))
    | inr (_, f) ↦
        let (found, same) = Fetched-ok _ p f (ap (λ t. t.0) h) in
        get_pool_hit height id w' p (ground (arith, h, found, same))
  ]

  -- If each cached pool stands under its own height and id, a call that does not panic keeps
  -- that, also if it fails.
  get_pool-IsKeyed :
      (height id : ℕ) (w : World F S)
      → IsKeyed w.indexer.pools
      → (get_pool repo rpc height id w).0 ≢ panic
      → IsKeyed (get_pool repo rpc height id w).1.indexer.pools
  get_pool-IsKeyed height id w k np = elim (get_pool_cases height id w) [
    | inl (q, e, r) ↦ rw r k
    | inr (_, f) ↦ Fetched-IsKeyed _ f np k
  ]

  -- If a pool is not cached at a height other than 0, the node answers both questions about it,
  -- and the repository fails to save it, the call fails with that error, but the pool is cached:
  -- the next call for it succeeds, and asks and saves nothing.
  pub get_pool_save_error :
      (height id : ℕ) (w : World F S) (l : PoolLiquidity) (v : PoolVolume) (e : Error)
      (s₁ s₂ s₃ : S)
      → height ≢ 0
      → Pools.get_pool w.indexer.pools height id ≡ none
      → rpc.pools_total_liquidity_at w.outside (to_int64 height) (id ∷ []) ≡ (ok (l ∷ []), s₁)
      → rpc.pools_volume_at s₁ (to_int64 height) (id ∷ []) ≡ (ok (v ∷ []), s₂)
      → repo.save_pool s₂ (fetched height id l v) ≡ (some e, s₃)
      → let w' : World F S = cached w (fetched height id l v) s₃ in
        (get_pool repo rpc height id w ≡ (err e, w'))
        × (get_pool repo rpc height id w' ≡ (ok (fetched height id l v), w'))
  unfolding get_pool
  get_pool_save_error height id w l v e s₁ s₂ s₃ nz miss a b c = (
    ground arith,
    get_pool_hit height id (cached w (fetched height id l v) s₃) _
        (ground (arith, set_pool_self height id l v w.indexer.pools)),
  )

  -- With a client that returns, and answers for each pool that it was asked for, no call panics.
  pub get_pool-ne-panic :
      (height id : ℕ) (w : World F S) → AnswersAll rpc → (get_pool repo rpc height id w).0 ≢ panic
  get_pool-ne-panic height id w all h = elim (get_pool_cases height id w) [
    | inl (q, e, r) ↦ cc
    | inr (_, f) ↦ Fetched-ne-panic _ f all h
  ]

  -- A call that does not panic empties no place of the cache, and one that answers has filled its
  -- own.
  pub get_pool-has_pool :
      (height id h i : ℕ) (w : World F S)
      → (get_pool repo rpc height id w).0 ≢ panic
      → has_pool w.indexer.pools h i ≡ true
      → has_pool (get_pool repo rpc height id w).1.indexer.pools h i ≡ true
  get_pool-has_pool height id h i w np have = elim (get_pool_cases height id w) [
    | inl (q, e, r) ↦ rw r have
    | inr (_, f) ↦ Fetched-has_pool _ h i f np have
  ]

  -- Nor does it change another field of the indexer.
  pub get_pool_keeps :
      (height id : ℕ) (w : World F S)
      → (get_pool repo rpc height id w).0 ≢ panic
      → record (get_pool repo rpc height id w).1.indexer { pools = w.indexer.pools } ≡ w.indexer
  get_pool_keeps height id w np = elim (get_pool_cases height id w) [
    | inl (q, e, r) ↦ rw r refl
    | inr (_, f) ↦ Fetched-keeps _ f np
  ]

  pub get_pool_fills :
      (height id : ℕ) (w : World F S) (p : Pool)
      → (get_pool repo rpc height id w).0 ≡ ok p
      → has_pool (get_pool repo rpc height id w).1.indexer.pools (or_current w height) id ≡ true
  get_pool_fills height id w p h = elim (get_pool_cases height id w) [
    | inl (q, e, r) ↦
        rw r (ground (arith, e, has_pool-get_pool w.indexer.pools (or_current w height) id))
    | inr (_, f) ↦
        let (found, _) = Fetched-ok _ p f h in
        ground (
          arith,
          found,
          has_pool-get_pool (get_pool repo rpc height id w).1.indexer.pools (or_current w height)
              id,
        )
  ]
