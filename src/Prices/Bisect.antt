-- ===== src/Prices/Bisect.antt =====
-- The binary search finds the rank of its target in a sorted array.
use osmosis_publisher.Prelude.{
  ℕ, zero, suc, ◌+◌, ◌-◌, ◌/◌, ◌≤◌, ◌<◌, ◌≡◌, refl, Bool, true, false, List, [], ◌∷◌, arith, ltb,
  length, ◌<ℤ◌, All, Bool-cases, inl, inr,
}
use osmosis_publisher.Types.{TokenPrice, Time}
use osmosis_publisher.Prices.Search.{search_loop, is_below, is_hit, binary_search, IsSorted, rank}

-- `r` parts [i, j) into indices that are below and indices that are not.
record Splits (below : ℕ → Bool) (i j r : ℕ) : Type 0 where
  low : i ≤ r
  high : r ≤ j
  before : (k : ℕ) → i ≤ k → k < r → below k ≡ true
  after : (k : ℕ) → r ≤ k → k < j → below k ≡ false

module _ (below : ℕ → Bool) (n : ℕ)
    (falls : (k m : ℕ) → k ≤ m → m < n → below m ≡ true → below k ≡ true) where
  Splits-upper :
      (i j m r : ℕ) → i ≤ m → m < n → below m ≡ true → Splits below (m + 1) j r → Splits below i j r
  Splits-upper i j m r h fits b s = record {
    low = omega arith;
    high = s.high;
    before = λ k p q. ground (arith, s.before k, falls k m);
    after = s.after;
  }

  Splits-lower :
      (i j m r : ℕ) → m ≤ j → j ≤ n → below m ≡ false → Splits below i m r → Splits below i j r
  Splits-lower i j m r h fits b s = record {
    low = s.low;
    high = omega arith;
    before = s.before;
    after = λ k p q. ground (arith, s.after k, falls m k);
  }

  search_loop-Splits :
      (fuel i j : ℕ) → i ≤ j → j ≤ n → j - i < fuel → Splits below i j (search_loop below fuel i j)
  unfolding search_loop
  search_loop-Splits zero i j h fits f = absurd (omega arith)
  search_loop-Splits (suc fuel) i j h fits f =
      let m = (i + j) / 2 in
      elim (Bool-cases (ltb i j)) [
        | inr e ↦ rw e (record {
          low = omega arith;
          high = h;
          before = λ k p q. absurd (omega arith);
          after = λ k p q. ground arith;
        })
        | inl e ↦ elim (Bool-cases (below m)) [
          | inl b ↦
              rw (e, b)
                (Splits-upper i j m _ (ground arith) (ground arith) b
                  (search_loop-Splits fuel (m + 1) j (ground arith) fits (ground arith)))
          | inr b ↦
              rw (e, b)
                (Splits-lower i j m _ (ground arith) fits b
                  (search_loop-Splits fuel i m (ground arith) (ground arith) (ground arith)))
        ]
      ]

Splits-unique : (below : ℕ → Bool) (i j r s : ℕ) → Splits below i j r → Splits below i j s → r ≡ s
Splits-unique below i j r s p q = ground (
  arith,
  p.before s,
  p.after s,
  q.before r,
  q.after r,
  p.after r,
  q.after s,
  p.before r,
  q.before s,
)

module _ {F : Type 0} where
  older_of_below :
      (u t : Time) (ps : List (TokenPrice F)) (k : ℕ)
      → All (λ q. u <ℤ q.last_updated) ps
      → is_below ps t k ≡ true
      → u <ℤ t
  unfolding is_below
  older_of_below u t [] k h b = cc
  older_of_below u t (p ∷ ps) zero h b = ground arith
  older_of_below u t (p ∷ ps) (suc k) h b = older_of_below u t ps k h.1 b

  below_falls :
      (arr : List (TokenPrice F)) (t : Time)
      → IsSorted arr
      → (k m : ℕ) → k ≤ m
      → m < length arr
      → is_below arr t m ≡ true
      → is_below arr t k ≡ true
  unfolding is_below
  below_falls [] t s k m h f b = absurd (omega arith)
  below_falls (p ∷ ps) t s zero zero h f b = b
  below_falls (p ∷ ps) t s zero (suc m) h f b =
      ground (arith, older_of_below p.last_updated t ps m s.0 b)
  below_falls (p ∷ ps) t s (suc k) zero h f b = absurd (omega arith)
  below_falls (p ∷ ps) t s (suc k) (suc m) h f b =
      below_falls ps t s.1 k m (omega arith) (omega arith) b

  rank-le-length : (t : Time) (arr : List (TokenPrice F)) → rank t arr ≤ length arr
  unfolding rank
  rank-le-length t [] = omega arith
  rank-le-length t (p ∷ ps) = ground (arith, rank-le-length t ps)

  rank_before :
      (t : Time) (arr : List (TokenPrice F)) (k : ℕ) → k < rank t arr → is_below arr t k ≡ true
  unfolding rank is_below
  rank_before t [] k h = absurd (omega arith)
  rank_before t (p ∷ ps) zero h = ground arith
  rank_before t (p ∷ ps) (suc k) h = ground (arith, rank_before t ps k)

  rank_after :
      (t : Time) (arr : List (TokenPrice F)) (k : ℕ)
      → IsSorted arr
      → rank t arr ≤ k
      → is_below arr t k ≡ false
  unfolding rank is_below
  rank_after t [] k s h = refl
  rank_after t (p ∷ ps) zero s h = ground arith
  rank_after t (p ∷ ps) (suc k) s h =
      ground (arith, rank_after t ps k s.1, older_of_below p.last_updated t ps k s.0)

  rank-Splits :
      (t : Time) (arr : List (TokenPrice F))
      → IsSorted arr
      → Splits (is_below arr t) 0 (length arr) (rank t arr)
  rank-Splits t arr s = record {
    low = omega arith;
    high = rank-le-length t arr;
    before = λ k p q. rank_before t arr k q;
    after = λ k p q. rank_after t arr k s p;
  }

  -- In a sorted array the search returns how many prices are older than the target, and whether
  -- the price there is of the target's time.
  pub binary_search-rank :
      (arr : List (TokenPrice F)) (t : Time)
      → IsSorted arr
      → binary_search arr t ≡ (rank t arr, is_hit arr t (rank t arr))
  unfolding binary_search
  binary_search-rank arr t s = cc (
      Splits-unique (is_below arr t) 0 (length arr) _ _
        (search_loop-Splits (is_below arr t) (length arr) (below_falls arr t s) (suc (length arr)) 0
          (length arr) (omega arith) (omega arith) (omega arith))
        (rank-Splits t arr s))
