-- ===== src/Indexer/PoolStatus/Statuses.antt =====
-- PoolStatusesAt: a status for each id, in order, and all the errors.
use osmosis_publisher.Prelude.{
  ℕ, suc, List, [], ◌∷◌, ◌≡◌, ◌≢◌, refl, ap, subst, none, some, nat_eq, ◌⊎◌, inl, inr, arith,
  length, map, subst,
}
use osmosis_publisher.Types.{Pool, PoolStatus, Error, join_errors, Result-cases, ok, err, panic}
use osmosis_publisher.Interfaces.{Repository, ExpectedRpc, AnswersAll}
use osmosis_publisher.Pools
use osmosis_publisher.Pools.{PoolMap}
use osmosis_publisher.Indexer.{World}
use osmosis_publisher.Indexer.PoolStatus.{
  or_current, get_pool, pool_status_at, status_loop, pool_statuses_at, status_of, zero_status,
  collect,
}
use osmosis_publisher.Indexer.PoolStatus.Asking.{IsFailure}
use osmosis_publisher.Indexer.PoolStatus.Fetching.{get_pool-ne-panic}
use osmosis_publisher.Indexer.PoolStatus.Origin.{
  IsPoolAt, get_pool-IsPoolAt, get_pool-IsFailure, get_pool_origin,
}

-- The statuses and the errors that ids have at a height: for each id the status of its pool there,
-- which was cached or is made of the node's answers, or an error of asking for it or saving it,
-- and the zero status in its place.
pub data Answers {F S : Type 0} (repo : Repository F S) (rpc : ExpectedRpc S) (pools : PoolMap)
    (height : ℕ) : List ℕ → List (PoolStatus F) → List Error → Type 0 where
  done : Answers repo rpc pools height [] [] []
  found :
      (id : ℕ) (pool : Pool) {ids : List ℕ} {sts : List (PoolStatus F)} {errs : List Error}
      → IsPoolAt rpc pools height id pool
      → Answers repo rpc pools height ids sts errs
      → Answers repo rpc pools height (id ∷ ids) (status_of height id pool ∷ sts) errs
  failed :
      (id : ℕ) (e : Error) {ids : List ℕ} {sts : List (PoolStatus F)} {errs : List Error}
      → IsFailure repo rpc height id e
      → Answers repo rpc pools height ids sts errs
      → Answers repo rpc pools height (id ∷ ids) (zero_status ∷ sts) (e ∷ errs)

pub join_errors-cons : (e : Error) (es : List Error) → join_errors (e ∷ es) ≢ none
join_errors-cons e es = ground arith

-- The pools of a later cache that an earlier one had, or that the node answered.
abbrev Comes : {S : Type 0} → ExpectedRpc S → PoolMap → PoolMap → Type 0
Comes rpc pools later =
    (h i : ℕ) (p : Pool) → Pools.get_pool later h i ≡ some p → IsPoolAt rpc pools h i p

module _ {F S : Type 0} {repo : Repository F S} {rpc : ExpectedRpc S} {height : ℕ} where
  length-Answers :
      {pools : PoolMap} {ids : List ℕ} {sts : List (PoolStatus F)} {errs : List Error}
      → Answers repo rpc pools height ids sts errs
      → length sts ≡ length ids
  length-Answers done = refl
  length-Answers (found id pool at a) = ap suc (length-Answers a)
  length-Answers (failed id e f a) = ap suc (length-Answers a)

  pub Answers-ids :
      {pools : PoolMap} {ids : List ℕ} {sts : List (PoolStatus F)} {errs : List Error}
      → Answers repo rpc pools height ids sts errs
      → join_errors errs ≡ none
      → map (λ ps. ps.pool_id) sts ≡ ids
  Answers-ids done h = refl
  Answers-ids (found id pool at a) h = ap (λ l. id ∷ l) (Answers-ids a h)
  Answers-ids (failed id e {errs = errs} f a) h = absurd (join_errors-cons e errs h)

  Answers-Comes :
      {pools later : PoolMap} {ids : List ℕ} {sts : List (PoolStatus F)} {errs : List Error}
      → Comes rpc pools later
      → Answers repo rpc later height ids sts errs
      → Answers repo rpc pools height ids sts errs
  Answers-Comes comes done = done
  Answers-Comes comes (found id pool (inl k) a) =
      found id pool (comes height id pool k) (Answers-Comes comes a)
  Answers-Comes comes (found id pool (inr made) a) =
      found id pool (inr made) (Answers-Comes comes a)
  Answers-Comes comes (failed id e f a) = failed id e f (Answers-Comes comes a)

module _ {F S : Type 0} (repo : Repository F S) (rpc : ExpectedRpc S) (height : ℕ)
    (nz : height ≢ 0) where
  given : (w : World F S) → or_current w height ≡ height
  given w = ground (arith, nz)

  -- A round of the loop answers for the pool at the height, or fails for it, and what it caches
  -- comes from the node; or it panics.
  pool_status_at_cases :
      (id : ℕ) (w : World F S)
      → let r = pool_status_at repo rpc height id w in
        ((pool : Pool) × ((r.0 ≡ ok (status_of height id pool, height))
            × (IsPoolAt rpc w.indexer.pools height id pool
                × Comes rpc w.indexer.pools r.1.indexer.pools)))
        ⊎ (((e : Error) × ((r.0 ≡ err e)
                × (IsFailure repo rpc height id e × Comes rpc w.indexer.pools r.1.indexer.pools)))
            ⊎ (r.0 ≡ panic))
  unfolding pool_status_at
  pool_status_at_cases id w =
      let got = get_pool repo rpc height id w in
      let r = pool_status_at repo rpc height id w in
      elim (Result-cases got.0) [
        | inl (pool, h) ↦
            let same : r.1 ≡ got.1 = ground (arith, h, given w) in
            inl (
              pool,
              (
                ground (arith, h, given w),
                (
                  subst (λ k. IsPoolAt rpc w.indexer.pools k id pool) (given w)
                      (get_pool-IsPoolAt repo rpc height id w pool h),
                  λ k i p q.
                      get_pool_origin repo rpc height id w k i p (λ b. cc)
                        (subst (λ v. Pools.get_pool v.indexer.pools k i ≡ some p) same q),
                ),
              ),
            )
        | inr (inl (e, h)) ↦
            let same : r.1 ≡ got.1 = ground (arith, h, given w) in
            inr (
              inl (
                e,
                (
                  ground (arith, h, given w),
                  (
                    subst (λ k. IsFailure repo rpc k id e) (given w)
                        (get_pool-IsFailure repo rpc height id w e h),
                    λ k i p q.
                        get_pool_origin repo rpc height id w k i p (λ b. cc)
                          (subst (λ v. Pools.get_pool v.indexer.pools k i ≡ some p) same q),
                  ),
                ),
              ))
        | inr (inr h) ↦ inr (inr (ground (arith, h, given w)))
      ]

  pool_status_at-ne-panic :
      (id : ℕ) (w : World F S) → AnswersAll rpc → (pool_status_at repo rpc height id w).0 ≢ panic
  unfolding pool_status_at
  pool_status_at-ne-panic id w all h = ground (arith, get_pool-ne-panic repo rpc height id w all)

  AreAnswers : World F S → List ℕ → List (PoolStatus F) × List Error → Type 0
  AreAnswers w ids q = Answers repo rpc w.indexer.pools height ids q.0 q.1

  status_loop-Answers :
      (ids : List ℕ) (w : World F S) (r : List (PoolStatus F) × List Error)
      → (status_loop repo rpc height ids w).0 ≡ ok r
      → AreAnswers w ids r
  unfolding status_loop AreAnswers
  status_loop-Answers [] w r h = subst (AreAnswers w []) (cc) done
  status_loop-Answers (id ∷ ids) w r h =
      let now = pool_status_at repo rpc height id w in
      let rest = status_loop repo rpc height ids now.1 in
      elim (Result-cases rest.0) [
        | inl (q, k) ↦ elim (pool_status_at_cases id w) [
          | inl (pool, (g, (at, comes))) ↦
              let e : collect (inl (status_of height id pool, height)) q ≡ r =
                ground (arith, h, k, g) in
              subst (AreAnswers w (id ∷ ids)) e
                (found id pool at (Answers-Comes comes (status_loop-Answers ids now.1 q k)))
          | inr (inl (f, (g, (why, comes)))) ↦
              let e : collect (inr f) q ≡ r = ground (arith, h, k, g) in
              subst (AreAnswers w (id ∷ ids)) e
                (failed id f why (Answers-Comes comes (status_loop-Answers ids now.1 q k)))
          | inr (inr g) ↦ absurd (ground (arith, h, k, g))
        ]
        | inr (inl (f, k)) ↦ absurd (ground (arith, h, k, Result-cases now.0))
        | inr (inr k) ↦ absurd (ground (arith, h, k, Result-cases now.0))
      ]

  status_loop-ne-panic :
      (ids : List ℕ) (w : World F S)
      → AnswersAll rpc
      → (r : List (PoolStatus F) × List Error) × ((status_loop repo rpc height ids w).0 ≡ ok r)
  unfolding status_loop
  status_loop-ne-panic [] w all = (([], []), refl)
  status_loop-ne-panic (id ∷ ids) w all =
      let now = pool_status_at repo rpc height id w in
      let (q, k) = status_loop-ne-panic ids now.1 all in
      elim (pool_status_at_cases id w) [
        | inl (pool, (g, _)) ↦ (collect (inl (status_of height id pool, height)) q, ground arith)
        | inr (inl (f, (g, _))) ↦ (collect (inr f) q, ground arith)
        | inr (inr g) ↦ absurd (pool_status_at-ne-panic id w all g)
      ]

module _ {F S : Type 0} (repo : Repository F S) (rpc : ExpectedRpc S) where
  -- PoolStatusesAt has an answer for every list of ids, if the client returns and answers for
  -- each pool it was asked for, and the height is not 0, or is 0 and the current one is not: the
  -- given height, or the current one for 0; at the place of each id the status of its pool at that
  -- height, which was in the cache before or is made of the node's answers to the questions for
  -- that id at that height, or the zero status and the error of one of those questions, or of
  -- saving what they answered; and the errors joined.
  pub pool_statuses_at_total :
      (height : ℕ) (ids : List ℕ) (w : World F S)
      → AnswersAll rpc
      → or_current w height ≢ 0
      → (sts : List (PoolStatus F)) × (errs : List Error) × ((pool_statuses_at repo rpc height ids
            w).0
          ≡ ok (sts, or_current w height, join_errors errs))
        × Answers repo rpc w.indexer.pools (or_current w height) ids sts errs
  unfolding pool_statuses_at AreAnswers
  pool_statuses_at_total height ids w all nz =
      let h = or_current w height in
      let (r, e) = status_loop-ne-panic repo rpc h nz ids w all in
      (r.0, r.1, ground arith, status_loop-Answers repo rpc h nz ids w r e)
