-- ===== src/Database/Ranges.antt =====
-- PoolsRange of internal/repository/query.go: what it answers with, and that it has what was saved.
use osmosis_publisher.Prelude.{
  arith, ℕ, ◌≤◌, int_eq, nat_eq, text_eq, List, Member, none, true, pair_keys, inl, inr, ◌⊎◌, ◌↔◌,
  ◌≡◌, refl, sym, ap, ◌∙◌, Option-cases, subst, Distinct, map, pair_eq,
}
use osmosis_publisher.Types.{Pool, ok, zero_time}
use osmosis_publisher.Database.{PoolRow, IsTable, IsAnswer, Tables, pool_schema}
use osmosis_publisher.Database.Reading.{
  CoinsText, matching, pool_of_row, pools_condition, pools_range,
}
use osmosis_publisher.Database.Writing.{save_pool, pool_row, with_new_pool}
use osmosis_publisher.Database.Keys.{Member-upsert, upsert_unique}
use osmosis_publisher.Database.Rows.{
  AreRead, pools_of_rows-AreRead, AreRead-Member, Member-AreRead, condition_within,
  pool_of_row-parsed, pool_of_row_keys, read_once,
}

module _ {F D : Type 0} (coins : CoinsText) (tables : Tables F D) where
  module _ (keeps : IsTable pool_schema tables.pools) where
    -- An answer of PoolsRange is read without an error of the database.
    pools_range_read :
        (d : D) (lo hi id : ℕ) (ps : List Pool)
        → pools_range coins tables d lo hi id ≡ ok ps
        → IsAnswer
            (matching (pools_condition lo hi id))
            (keeps.rows d)
            (tables.pools.find d (matching (pools_condition lo hi id))).rows
          × AreRead coins (tables.pools.find d (matching (pools_condition lo hi id))).rows ps
    unfolding pools_range
    pools_range_read d lo hi id ps h =
        let q = matching (pools_condition lo hi id) in
        elim (Option-cases (tables.pools.find d q).error) [
          | inl e ↦
              (keeps.answered d q e, pools_of_rows-AreRead coins (tables.pools.find d q).rows ps cc)
          | inr (f, e) ↦ absurd cc
        ]

    -- If PoolsRange answers, it has a pool if and only if the pool is what is parsed of a row
    -- that is within the heights, and is of the pool's id if that is not 0.
    pools_range-Member :
        (d : D) (lo hi id : ℕ) (ps : List Pool) (p : Pool)
        → pools_range coins tables d lo hi id ≡ ok ps
        → Member p ps ↔ (
            (row : PoolRow) × (Member row (keeps.rows d)
              × ((pools_condition lo hi id row ≡ true) × (pool_of_row coins row ≡ inl p))))
    pools_range-Member d lo hi id ps p h =
        let q = matching (pools_condition lo hi id) in
        let (answer, read) = pools_range_read d lo hi id ps h in
        let rows = (tables.pools.find d q).rows in
        (
          λ m.
              let (row, (n, k)) = AreRead-Member coins rows ps read p m in
              let (stored, c) = answer.sound row n in (row, (stored, (c, k))),
          λ (row, (stored, (c, k))).
              Member-AreRead coins rows ps read row p (answer.complete row refl stored c) k,
        )

    -- After a save of a pool that reports no error, if sdk reads back the coins that it printed,
    -- an answer of PoolsRange for heights around the pool's, and for all pools or its id, has the
    -- pool, but at the zero time.
    pub pools_range-save_pool :
        (d : D) (pool : Pool) (lo hi id : ℕ) (ps : List Pool)
        → coins.parse (coins.print pool.liquidity) ≡ inl pool.liquidity
        → coins.parse (coins.print pool.volume) ≡ inl pool.volume
        → (save_pool tables coins d pool).0 ≡ none
        → lo ≤ pool.height
        → pool.height ≤ hi
        → (id ≡ 0) ⊎ (id ≡ pool.pool_id)
        → pools_range coins tables (save_pool tables coins d pool).1 lo hi id ≡ ok ps
        → Member (record pool { timestamp = zero_time }) ps
    unfolding save_pool pool_of_row
    pools_range-save_pool d pool lo hi id ps l v saved from to which h =
        let row = pool_row coins pool in
        let d' = (tables.pools.create d with_new_pool row).1 in
        let (_, back) =
          pools_range-Member d' lo hi id ps (record pool { timestamp = zero_time }) h in
        let stamped = pool_schema.stamped (keeps.now d) row in
        let rows = keeps.created d with_new_pool row saved in
        elim (Member-upsert pool_schema with_new_pool stamped (keeps.rows d)) [
          | inl m ↦ back (
            stamped,
            (
              subst (Member stamped) (sym rows) m,
              (
                condition_within lo hi id stamped from to which,
                pool_of_row-parsed coins stamped pool refl refl l v,
              ),
            ),
          )
          | inr (old, (p, m)) ↦
              let kept = with_new_pool old stamped in
              let height : old.height ≡ pool.height = ap (λ k. k.0) p in
              let pool_id : old.pool_id ≡ pool.pool_id = ap (λ k. k.1) p in
              back (
                kept,
                (
                  subst (Member kept) (sym rows) m,
                  (
                    condition_within lo hi id kept (omega arith) (omega arith) (rw pool_id which),
                    pool_of_row-parsed coins kept pool height pool_id l v,
                  ),
                ),
              )
        ]

    -- A pool that is read of a row has the row's height and id, and one that is read of a row of
    -- the saved pool is that pool, but for the time.
    pub pools_range_unique :
        (d : D) (pool : Pool) (lo hi id : ℕ) (ps : List Pool) (p : Pool)
        → Distinct (map pool_schema.key (keeps.rows d))
        → coins.parse (coins.print pool.liquidity) ≡ inl pool.liquidity
        → coins.parse (coins.print pool.volume) ≡ inl pool.volume
        → (save_pool tables coins d pool).0 ≡ none
        → pools_range coins tables (save_pool tables coins d pool).1 lo hi id ≡ ok ps
        → Member p ps
        → p.height ≡ pool.height
        → p.pool_id ≡ pool.pool_id
        → p ≡ record pool { timestamp = zero_time }
    unfolding save_pool
    pools_range_unique d pool lo hi id ps p unique l v saved h m same same' =
        let row = pool_row coins pool in
        let d' = (tables.pools.create d with_new_pool row).1 in
        let stamped = pool_schema.stamped (keeps.now d) row in
        let (r, (listed, (c, read))) = (pools_range-Member d' lo hi id ps p h).0 m in
        let listed' = subst (Member r) (keeps.created d with_new_pool row saved) listed in
        let (at, by) = pool_of_row_keys coins r p read in
        let key : pool_schema.key r ≡ pool_schema.key stamped =
          pair_eq (sym at ∙ same) (sym by ∙ same') in
        elim (upsert_unique pool_schema with_new_pool stamped (keeps.rows d) r unique listed' key) [
          | inl e ↦
              read_once coins r p (record pool { timestamp = zero_time }) read
                (rw e (pool_of_row-parsed coins stamped pool refl refl l v))
          | inr (old, (q, e)) ↦
              read_once coins r p (record pool { timestamp = zero_time }) read
                (rw e (
                  pool_of_row-parsed coins (with_new_pool old stamped) pool (ap (λ k. k.0) q)
                    (ap (λ k. k.1) q) l v))
        ]
