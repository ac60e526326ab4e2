-- ===== src/Indexer/Syncing/Draining.antt =====
-- handleSyncing: with a client and a repository that do not fail, the queue empties and the pools of
-- the window are all cached.
use osmosis_publisher.Prelude.{
  ℕ, zero, suc, ◌-◌, ◌≤◌, ◌<◌, ◌≡◌, ◌≢◌, ◌↔◌, refl, ◌∙◌, ap, subst, true, false, List, [], ◌∷◌,
  arith, none, inl, inr, nat_eq, word, length, Member, is_empty, Bool-cases, to_int64, Option-cases,
}
use osmosis_publisher.Types.{Pool, Error, join_errors, PoolStatus, ok}
use osmosis_publisher.Interfaces.{Repository, ExpectedRpc, NeverFails}
use osmosis_publisher.Pools.{PoolMap, has_pool}
use osmosis_publisher.Indexer.{Indexer, World}
use osmosis_publisher.Indexer.PoolStatus.{
  or_current, fetched, fetch_pool, get_pool, pool_status_at, status_loop, pool_statuses_at, collect,
  status_of,
}
use osmosis_publisher.Indexer.PoolStatus.Fetching.{get_pool-has_pool, get_pool_keeps, get_pool_hit}
use osmosis_publisher.Indexer.Syncing.{is_missing, queue_missing_heights, sync_height, handle_one}
use osmosis_publisher.Indexer.Syncing.Queueing.{queue_missing_heights-Member}
use osmosis_publisher.Indexer.Syncing.Synced.{loop_step, sync_height_fills, or_current_given}
use osmosis_publisher.Pools

-- Only the cache of pools changes, and no place of it becomes empty.
abbrev Kept : {F : Type 0} → Indexer F → Indexer F → Type 0
Kept d d' =
    (record d' { pools = d.pools } ≡ d)
    × ((h i : ℕ) → has_pool d.pools h i ≡ true → has_pool d'.pools h i ≡ true)

Kept-trans : {F : Type 0} (d d' d'' : Indexer F) → Kept d d' → Kept d' d'' → Kept d d''
Kept-trans {F} d d' d'' (same, have) (same', have') =
    let with_old : Indexer F → Indexer F = λ x. record x { pools = d.pools } in
    (ap with_old same' ∙ same, λ h i k. have' h i (have h i k))

is_missing-Kept :
    {F : Type 0} (d d' : Indexer F) (ids : List ℕ) (h : ℕ)
    → Kept d d'
    → is_missing d.pools ids h ≡ false
    → is_missing d'.pools ids h ≡ false
unfolding is_missing
is_missing-Kept d d' [] h kept e = refl
is_missing-Kept d d' (id ∷ ids) h kept e = elim (Bool-cases (has_pool d.pools h id)) [
  | inl k ↦
      rw (is_missing, kept.1 h id k)
        (is_missing-Kept d d' ids h kept (ground (arith, is_missing, e, k)))
  | inr k ↦ absurd (ground (arith, is_missing, e, k))
]

module _ {F S : Type 0} (repo : Repository F S) (rpc : ExpectedRpc S)
    (fine : NeverFails repo rpc) where
  fetch_pool_answers :
      (height id : ℕ) (w : World F S) → (p : Pool) × ((fetch_pool repo rpc height id w).0 ≡ ok p)
  unfolding fetch_pool
  fetch_pool_answers height id w =
      let rl = rpc.pools_total_liquidity_at w.outside (to_int64 height) (id ∷ []) in
      let rv = rpc.pools_volume_at rl.1 (to_int64 height) (id ∷ []) in
      let (l, el) = fine.liquidity_found w.outside (to_int64 height) id in
      let (v, ev) = fine.volume_found rl.1 (to_int64 height) id in
      let done = fine.saved rv.1 (fetched height id l v) in
      (fetched height id l v, ground (arith, el, ev, done))

  get_pool_answers :
      (height id : ℕ) (w : World F S) → (p : Pool) × ((get_pool repo rpc height id w).0 ≡ ok p)
  unfolding get_pool
  get_pool_answers height id w =
      elim (Option-cases (Pools.get_pool w.indexer.pools (or_current w height) id)) [
        | inr (p, e) ↦ (p, ap (λ r. r.0) (get_pool_hit repo rpc height id w p e))
        | inl e ↦
            let (p, k) = fetch_pool_answers (or_current w height) id w in (p, rw (e, get_pool) k)
      ]

  module _ (height : ℕ) (nz : height ≢ 0) where
    loop_answers :
        (ids : List ℕ) (w : World F S)
        → ((q : List (PoolStatus F) × List Error) × ((status_loop repo rpc height ids w).0 ≡ ok q)
            × (join_errors q.1 ≡ none))
          × Kept w.indexer (status_loop repo rpc height ids w).1.indexer
    unfolding status_loop pool_status_at
    loop_answers [] w = ((([], []), refl, refl), (refl, λ h i k. k))
    loop_answers (id ∷ ids) w =
        let (p, g) = get_pool_answers height id w in
        let now = get_pool repo rpc height id w in
        let ((q, k, none'), kept) = loop_answers ids now.1 in
        let e : (status_loop repo rpc height (id ∷ ids) w).0
            ≡ ok (collect (inl (status_of height id p, height)) q) =
          ground (arith, g, k) in
        let (q', k', same, np, _) = loop_step repo rpc height nz id ids w _ e in
        (
          (_, e, none'),
          rw same (
              Kept-trans w.indexer now.1.indexer _
                (
                  get_pool_keeps repo rpc height id w np,
                  λ h i. get_pool-has_pool repo rpc height id h i w np,
                )
                kept),
        )

  sync_height_ok :
      (height : ℕ) (w : World F S)
      → height ≢ 0
      → ((sync_height repo rpc height w).0 ≡ ok tt)
        × Kept w.indexer (sync_height repo rpc height w).1.indexer
  unfolding sync_height pool_statuses_at
  sync_height_ok height w nz =
      let ids = w.indexer.pool_ids_to_monitor in
      let ((q, k, none'), kept) = loop_answers height nz ids w in
      let given = or_current_given w height nz in
      let same : (sync_height repo rpc height w).1 ≡ (status_loop repo rpc height ids w).1 =
        ground (arith, k, none', given) in
      (ground (arith, k, none', given), rw same kept)

-- As many rounds of handleSyncing.
unfoldable pub handle_rounds :
    {F S : Type 0} → Repository F S → ExpectedRpc S → ℕ → World F S → World F S
unfolding handle_one
handle_rounds repo rpc zero w = w
handle_rounds repo rpc (suc n) w = handle_rounds repo rpc n (handle_one repo rpc w)

module _ {F S : Type 0} (repo : Repository F S) (rpc : ExpectedRpc S)
    (fine : NeverFails repo rpc) where
  -- What is cached stays so, and the monitored pools are the same, with the rest of a queue.
  abbrev Drains : Indexer F → List ℕ → Indexer F → Type 0
  Drains d hs d' = Kept (record d { sync_heights = hs }) d'

  handle_one-Drains :
      (h : ℕ) (hs : List ℕ) (w : World F S)
      → w.indexer.sync_heights ≡ h ∷ hs
      → h ≢ 0
      → Drains w.indexer hs (handle_one repo rpc w).indexer
        × (is_missing (handle_one repo rpc w).indexer.pools w.indexer.pool_ids_to_monitor h ≡ false)
  unfolding handle_one
  handle_one-Drains h hs w e nz =
      let taken : World F S = record w { indexer = record w.indexer { sync_heights = hs } } in
      let (done, kept) = sync_height_ok repo rpc fine h taken nz in
      rw (handle_one, e) (kept, sync_height_fills repo rpc h taken nz done)

  handle_rounds-Drains :
      (hs : List ℕ) (w : World F S)
      → w.indexer.sync_heights ≡ hs
      → ((h : ℕ) → Member h hs → h ≢ 0)
      → let w' = handle_rounds repo rpc (length hs) w in
        Drains w.indexer [] w'.indexer
        × ((h : ℕ)
            → Member h hs
            → is_missing w'.indexer.pools w.indexer.pool_ids_to_monitor h ≡ false)
  unfolding handle_rounds
  handle_rounds-Drains [] w e nz = ((rw (← e) refl, λ h i k. k), λ h m. absurd m)
  handle_rounds-Drains (h ∷ hs) w e nz =
      let w₁ = handle_one repo rpc w in
      let (kept, filled) = handle_one-Drains h hs w e (nz h (inl refl)) in
      let queue : w₁.indexer.sync_heights ≡ hs = ap (λ d. d.sync_heights) kept.0 in
      let ids : w₁.indexer.pool_ids_to_monitor ≡ w.indexer.pool_ids_to_monitor =
        ap (λ d. d.pool_ids_to_monitor) kept.0 in
      let (kept', rest) = handle_rounds-Drains hs w₁ queue (λ k m. nz k (inr m)) in
      let w' = handle_rounds repo rpc (length hs) w₁ in
      let empty : Indexer F → Indexer F = λ d. record d { sync_heights = [] } in
      (
        Kept-trans (empty w.indexer) (empty w₁.indexer) w'.indexer (ap empty kept.0, kept.1) kept',
        λ k m. elim m [
          | inl p ↦ rw p (
              is_missing-Kept (empty w₁.indexer) w'.indexer w.indexer.pool_ids_to_monitor h kept'
                filled)
          | inr q ↦ subst (λ l. is_missing w'.indexer.pools l k ≡ false) ids (rest k q)
        ],
      )

  -- With a client that finds every pool and a repository that saves it, on a chain of more than
  -- `blocks` blocks whose height is a uint64, and with nothing left in the queue: after the
  -- missing heights were queued, as many rounds as were queued empty the queue, and then no
  -- monitored pool is missing at any of the last `blocks` heights before the current one.
  pub handle_rounds_fill :
      (w : World F S) (blocks : ℕ)
      → w.indexer.current_block_height < word
      → blocks < w.indexer.current_block_height
      → is_empty w.indexer.sync_heights ≡ true
      → let d = queue_missing_heights w.indexer blocks in
        let w' = handle_rounds repo rpc (length d.sync_heights) (record w { indexer = d }) in
        (w'.indexer.sync_heights ≡ [])
        × ((h : ℕ)
            → w.indexer.current_block_height - blocks ≤ h
            → h < w.indexer.current_block_height
            → is_missing w'.indexer.pools w.indexer.pool_ids_to_monitor h ≡ false)
  unfolding queue_missing_heights
  handle_rounds_fill w blocks small long idle =
      let d = queue_missing_heights w.indexer blocks in
      let w' = handle_rounds repo rpc (length d.sync_heights) (record w { indexer = d }) in
      let queued : (h : ℕ)
          → Member h d.sync_heights ↔ (
              (w.indexer.current_block_height - blocks ≤ h)
              × (h < w.indexer.current_block_height)
              × (is_missing w.indexer.pools w.indexer.pool_ids_to_monitor h ≡ true)) =
        λ h. queue_missing_heights-Member w.indexer blocks h small (omega (arith, long)) idle in
      let same : record d { sync_heights = w.indexer.sync_heights } ≡ w.indexer =
        rw (queue_missing_heights, idle) refl in
      let ids : d.pool_ids_to_monitor ≡ w.indexer.pool_ids_to_monitor =
        ap (λ x. x.pool_ids_to_monitor) same in
      let pools : d.pools ≡ w.indexer.pools = ap (λ x. x.pools) same in
      let (kept, filled) =
        handle_rounds-Drains d.sync_heights (record w { indexer = d }) refl
          (λ h m. let (low, _, _) = (queued h).0 m in omega (arith, low, long)) in
      (
        ap (λ x. x.sync_heights) kept.0,
        λ h low below.
            elim (Bool-cases (is_missing w.indexer.pools w.indexer.pool_ids_to_monitor h)) [
              | inl e ↦
                  subst (λ l. is_missing w'.indexer.pools l h ≡ false) ids
                    (filled h ((queued h).1 (low, below, e)))
              | inr e ↦
                  is_missing-Kept (record d { sync_heights = [] }) w'.indexer
                    w.indexer.pool_ids_to_monitor h kept (rw pools e)
            ],
      )
