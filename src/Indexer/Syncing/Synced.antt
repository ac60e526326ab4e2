-- ===== src/Indexer/Syncing/Synced.antt =====
-- syncHeight: after a height was synced nothing is missing there.
use osmosis_publisher.Prelude.{
  ℕ, ◌≡◌, ◌≢◌, refl, sym, subst, true, false, List, [], ◌∷◌, arith, none, inl, inr, Option-cases,
  nat_eq,
}
use osmosis_publisher.Types.{Pool, Error, join_errors, PoolStatus, Result-cases, ok, panic}
use osmosis_publisher.Interfaces.{Repository, ExpectedRpc}
use osmosis_publisher.Pools.{has_pool}
use osmosis_publisher.Indexer.{World}
use osmosis_publisher.Indexer.PoolStatus.{
  or_current, get_pool, pool_status_at, status_loop, pool_statuses_at,
}
use osmosis_publisher.Indexer.PoolStatus.Fetching.{get_pool-has_pool, get_pool_fills}
use osmosis_publisher.Indexer.Syncing.{is_missing, sync_height}

join_errors-cons : (e : Error) (es : List Error) → join_errors (e ∷ es) ≢ none
join_errors-cons e es = ground arith

pub or_current_given :
    {F S : Type 0} (w : World F S) (height : ℕ) → height ≢ 0 → or_current w height ≡ height
or_current_given w height nz = ground arith

module _ {F S : Type 0} (repo : Repository F S) (rpc : ExpectedRpc S) (height : ℕ)
    (nz : height ≢ 0) where
  -- What a round of the loop did, if the loop ends.
  pub loop_step :
      (id : ℕ) (ids : List ℕ) (w : World F S) (q : List (PoolStatus F) × List Error)
      → (status_loop repo rpc height (id ∷ ids) w).0 ≡ ok q
      → let now = get_pool repo rpc height id w in
        let rest = status_loop repo rpc height ids now.1 in
        (q' : List (PoolStatus F) × List Error) × (rest.0 ≡ ok q')
        × ((status_loop repo rpc height (id ∷ ids) w).1 ≡ rest.1)
        × (now.0 ≢ panic)
        × (join_errors q.1 ≡ none → (join_errors q'.1 ≡ none) × ((p : Pool) × (now.0 ≡ ok p)))
  unfolding status_loop pool_status_at
  loop_step id ids w q e =
      let now = get_pool repo rpc height id w in
      let rest = status_loop repo rpc height ids now.1 in
      elim (Result-cases rest.0) [
        | inl (q', k) ↦ elim (Result-cases now.0) [
          | inl (p, g) ↦
              (q', k, ground (arith, g, k), λ b. cc, λ none'. (ground (arith, g, k), (p, g)))
          | inr (inl (f, g)) ↦ (
            q',
            k,
            ground (arith, g, k),
            λ b. cc,
            λ none'. absurd (join_errors-cons f q'.1 (ground (arith, g, k))),
          )
          | inr (inr g) ↦ absurd (ground (arith, g))
        ]
        | inr (inl (f, k)) ↦ absurd (ground (arith, k, Result-cases now.0))
        | inr (inr k) ↦ absurd (ground (arith, k, Result-cases now.0))
      ]

  -- A place of the cache that is full stays so.
  loop_keeps :
      (ids : List ℕ) (w : World F S) (h i : ℕ) (q : List (PoolStatus F) × List Error)
      → (status_loop repo rpc height ids w).0 ≡ ok q
      → has_pool w.indexer.pools h i ≡ true
      → has_pool (status_loop repo rpc height ids w).1.indexer.pools h i ≡ true
  unfolding status_loop
  loop_keeps [] w h i q e have = have
  loop_keeps (id ∷ ids) w h i q e have =
      let (q', k, same, np, _) = loop_step id ids w q e in
      rw same (loop_keeps ids _ h i q' k (get_pool-has_pool repo rpc height id h i w np have))

  -- Without an error every id is found afterwards.
  loop_fills :
      (ids : List ℕ) (w : World F S) (q : List (PoolStatus F) × List Error)
      → (status_loop repo rpc height ids w).0 ≡ ok q
      → join_errors q.1 ≡ none
      → is_missing (status_loop repo rpc height ids w).1.indexer.pools ids height ≡ false
  unfolding is_missing
  loop_fills [] w q e fine = refl
  loop_fills (id ∷ ids) w q e fine =
      let (q', k, same, np, without) = loop_step id ids w q e in
      let (fine', (p, o)) = without fine in
      let w' = (get_pool repo rpc height id w).1 in
      let here =
        subst (λ h. has_pool w'.indexer.pools h id ≡ true) (or_current_given w height nz)
          (get_pool_fills repo rpc height id w p o) in
      let kept = loop_keeps ids w' height id q' k here in
      subst (λ v. is_missing v.indexer.pools (id ∷ ids) height ≡ false) (sym same)
        (rw (is_missing, kept) (loop_fills ids w' q' k fine'))

module _ {F S : Type 0} (repo : Repository F S) (rpc : ExpectedRpc S) where
  -- After a sync of a height other than 0 that returns no error, no monitored pool is missing at
  -- that height.
  pub sync_height_fills :
      (height : ℕ) (w : World F S)
      → height ≢ 0
      → (sync_height repo rpc height w).0 ≡ ok tt
      → is_missing
          (sync_height repo rpc height w).1.indexer.pools
          w.indexer.pool_ids_to_monitor
          height
        ≡ false
  unfolding sync_height pool_statuses_at
  sync_height_fills height w nz e =
      let ids = w.indexer.pool_ids_to_monitor in
      let r = status_loop repo rpc height ids w in
      let given = or_current_given w height nz in
      elim (Result-cases r.0) [
        | inl (q, k) ↦ elim (Option-cases (join_errors q.1)) [
          | inl fine ↦
              let same : (sync_height repo rpc height w).1 ≡ r.1 = ground (arith, k, fine, given) in
              rw same (loop_fills repo rpc height nz ids w q k fine)
          | inr (f, bad) ↦ absurd (ground (arith, e, k, bad, given))
        ]
        | inr (inl (f, k)) ↦ absurd (ground (arith, e, k, given))
        | inr (inr k) ↦ absurd (ground (arith, e, k, given))
      ]
