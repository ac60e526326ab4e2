-- ===== src/Database/Rows.antt =====
-- The pools that are read of rows: the loops of PoolsRange in internal/repository/query.go.
use osmosis_publisher.Prelude.{
  arith, ℕ, ◌≤◌, int_eq, nat_eq, text_eq, List, [], ◌∷◌, Member, true, pair_keys, inl, inr, ◌⊎◌,
  ◌≡◌, refl, sym, ◌∙◌, Sum-cases,
}
use osmosis_publisher.Types.{Pool, Error, Result, ok, err, panic, zero_time}
use osmosis_publisher.Database.{PoolRow}
use osmosis_publisher.Database.Reading.{CoinsText, pool_of_row, pools_of_rows, pools_condition}

-- A pool for each row, in their order.
pub AreRead : CoinsText → List PoolRow → List Pool → Type 0
AreRead coins [] [] = Unit
AreRead coins [] (p ∷ ps) = ⊥
AreRead coins (row ∷ rows) [] = ⊥
AreRead coins (row ∷ rows) (p ∷ ps) = (pool_of_row coins row ≡ inl p) × AreRead coins rows ps

-- A round of the loop that succeeds.
pools_of_rows_round :
    (coins : CoinsText) (row : PoolRow) (rows : List PoolRow) (ps : List Pool) (read : Pool ⊎ Error)
    (rest : Result (List Pool))
    → pool_of_row coins row ≡ read
    → pools_of_rows coins rows ≡ rest
    → pools_of_rows coins (row ∷ rows) ≡ ok ps
    → (p : Pool) × ((qs : List Pool) × ((read ≡ inl p) × ((rest ≡ ok qs) × (ps ≡ p ∷ qs))))
unfolding pools_of_rows
pools_of_rows_round coins row rows ps (inl p) (ok qs) d e h = (p, (qs, (refl, (refl, cc))))
pools_of_rows_round coins row rows ps (inl p) (err f) d e h = cc
pools_of_rows_round coins row rows ps (inl p) panic d e h = cc
pools_of_rows_round coins row rows ps (inr f) rest d e h = cc

pub pools_of_rows-AreRead :
    (coins : CoinsText) (rows : List PoolRow) (ps : List Pool)
    → pools_of_rows coins rows ≡ ok ps
    → AreRead coins rows ps
unfolding pools_of_rows AreRead
pools_of_rows-AreRead coins [] [] h = tt
pools_of_rows-AreRead coins [] (p ∷ ps) h = cc
pools_of_rows-AreRead coins (row ∷ rows) ps h =
    let (p, (qs, (d, (e, f)))) =
      pools_of_rows_round coins row rows ps (pool_of_row coins row) (pools_of_rows coins rows) refl
        refl h in
    rw f (d, pools_of_rows-AreRead coins rows qs e)

pub AreRead-Member :
    (coins : CoinsText) (rows : List PoolRow) (ps : List Pool)
    → AreRead coins rows ps
    → (p : Pool) → Member p ps
    → (row : PoolRow) × (Member row rows × (pool_of_row coins row ≡ inl p))
unfolding AreRead
AreRead-Member coins [] [] h p m = absurd m
AreRead-Member coins [] (q ∷ ps) h p m = absurd h
AreRead-Member coins (row ∷ rows) [] h p m = absurd h
AreRead-Member coins (row ∷ rows) (q ∷ ps) (h, hs) p (inl e) = (row, (inl refl, rw e h))
AreRead-Member coins (row ∷ rows) (q ∷ ps) (h, hs) p (inr m) =
    let (r, (n, k)) = AreRead-Member coins rows ps hs p m in (r, (inr n, k))

pub Member-AreRead :
    (coins : CoinsText) (rows : List PoolRow) (ps : List Pool)
    → AreRead coins rows ps
    → (row : PoolRow) (p : Pool) → Member row rows
    → pool_of_row coins row ≡ inl p
    → Member p ps
unfolding AreRead
Member-AreRead coins [] ps h row p m k = absurd m
Member-AreRead coins (r ∷ rows) [] h row p m k = absurd h
Member-AreRead coins (r ∷ rows) (q ∷ ps) (h, hs) row p (inl e) k = inl cc
Member-AreRead coins (r ∷ rows) (q ∷ ps) (h, hs) row p (inr m) k =
    inr (Member-AreRead coins rows ps hs row p m k)

pub condition_within :
    (lo hi id : ℕ) (row : PoolRow)
    → lo ≤ row.height
    → row.height ≤ hi
    → (id ≡ 0) ⊎ (id ≡ row.pool_id)
    → pools_condition lo hi id row ≡ true
condition_within lo hi id row from to which = ground arith

-- A row of a pool's coins is read as the pool, but for the time.
pub pool_of_row-parsed :
    (coins : CoinsText) (row : PoolRow) (pool : Pool)
    → row.height ≡ pool.height
    → row.pool_id ≡ pool.pool_id
    → coins.parse row.liquidity ≡ inl pool.liquidity
    → coins.parse row.volume ≡ inl pool.volume
    → pool_of_row coins row ≡ inl (record pool { timestamp = zero_time })
unfolding pool_of_row
pool_of_row-parsed coins row pool h i l v = rw (pool_of_row, l, v, h, i) refl

pub pool_of_row_keys :
    (coins : CoinsText) (row : PoolRow) (p : Pool)
    → pool_of_row coins row ≡ inl p
    → (p.height ≡ row.height) × (p.pool_id ≡ row.pool_id)
unfolding pool_of_row
pool_of_row_keys coins row p h = elim (Sum-cases (coins.parse row.liquidity)) [
  | inr (e, k) ↦ absurd (ground (arith, h, k))
  | inl (l, k) ↦ elim (Sum-cases (coins.parse row.volume)) [
    | inr (e, g) ↦ absurd (ground (arith, h, k, g))
    | inl (v, g) ↦ (ground (arith, h, k, g), ground (arith, h, k, g))
  ]
]

pub read_once :
    (coins : CoinsText) (row : PoolRow) (p q : Pool)
    → pool_of_row coins row ≡ inl p
    → pool_of_row coins row ≡ inl q
    → p ≡ q
read_once coins row p q h k = cc (sym h ∙ k)
