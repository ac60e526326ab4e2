-- ===== src/Prices/Nearby.antt =====
-- PriceMap.Nearest on sorted arrays.
use osmosis_publisher.Prelude.{
  ℕ, suc, ◌≡◌, refl, Bool, true, false, List, [], ◌∷◌, ◌++◌, arith, some, ltb_ℤ, ◌<ℤ◌, ◌≤ℤ◌,
  if◌then◌else◌, inl, inr, nat_eq, int_eq, text_eq, Text, lookup, ap, lt_or_ge, eq_or_lt_or_gt,
}
use osmosis_publisher.Types.{TokenPrice, Time}
use osmosis_publisher.Prices.{PriceMap, nearest_at, nearest_in, nearest}
use osmosis_publisher.Prices.Search.{compare_function, is_hit, IsSorted, rank}
use osmosis_publisher.Prices.Bisect.{binary_search-rank}
use osmosis_publisher.Prices.Storing.{IsValid}

module _ {F : Type 0} where
  -- What Nearest may answer of a sorted array: the price of that very time, the first price if the
  -- time is before all, the last if it is after all, or the two neighbours that enclose it.
  pub data IsNearest (t : Time) (arr : List (TokenPrice F)) (ps : List (TokenPrice F))
      : Type 0 where
    exact :
        (xs : List (TokenPrice F)) (p : TokenPrice F) (ys : List (TokenPrice F))
        → arr ≡ xs ++ p ∷ ys
        → p.last_updated ≡ t
        → ps ≡ p ∷ []
        → IsNearest t arr ps
    first :
        (p : TokenPrice F) (ys : List (TokenPrice F))
        → arr ≡ p ∷ ys
        → t <ℤ p.last_updated
        → ps ≡ p ∷ []
        → IsNearest t arr ps
    last :
        (xs : List (TokenPrice F)) (p : TokenPrice F)
        → arr ≡ xs ++ p ∷ []
        → p.last_updated <ℤ t
        → ps ≡ p ∷ []
        → IsNearest t arr ps
    between :
        (xs : List (TokenPrice F)) (p q : TokenPrice F) (ys : List (TokenPrice F))
        → arr ≡ xs ++ p ∷ q ∷ ys
        → p.last_updated <ℤ t
        → t <ℤ q.last_updated
        → ps ≡ p ∷ q ∷ []
        → IsNearest t arr ps

  -- The same by recursion on the array.
  unfoldable pub around : Time → List (TokenPrice F) → List (TokenPrice F)
  around t [] = []
  around t (p ∷ []) = p ∷ []
  around t (p ∷ q ∷ r) =
      if ltb_ℤ t q.last_updated
      then (if ltb_ℤ p.last_updated t then p ∷ q ∷ [] else p ∷ [])
      else around t (q ∷ r)

  nearest_at-suc :
      (p q : TokenPrice F) (r : List (TokenPrice F)) (i : ℕ) (found : Bool)
      → nearest_at (p ∷ q ∷ r) (suc (suc i), found) ≡ nearest_at (q ∷ r) (suc i, found)
  unfolding nearest_at
  nearest_at-suc p q r i true = ground arith
  nearest_at-suc p q r i false = ground arith

  nearest_at_front :
      (p : TokenPrice F) (ps : List (TokenPrice F)) (found : Bool)
      → nearest_at (p ∷ ps) (0, found) ≡ p ∷ []
  unfolding nearest_at
  nearest_at_front p ps found = refl

  -- The second price is the first that is not older.
  nearest_at_second :
      (t : Time) (p q : TokenPrice F) (r : List (TokenPrice F))
      → p.last_updated <ℤ t
      → t ≤ℤ q.last_updated
      → around t (q ∷ r) ≡ q ∷ []
      → nearest_at (p ∷ q ∷ r) (1, is_hit (p ∷ q ∷ r) t 1) ≡ around t (p ∷ q ∷ r)
  unfolding around nearest_at is_hit compare_function
  nearest_at_second t p q r h k e = ground arith

  rank_older :
      (t : Time) (p : TokenPrice F) (ps : List (TokenPrice F))
      → p.last_updated <ℤ t
      → rank t (p ∷ ps) ≡ suc (rank t ps)
  unfolding rank
  rank_older t p ps h = ground arith

  rank_newer :
      (t : Time) (p : TokenPrice F) (ps : List (TokenPrice F))
      → t ≤ℤ p.last_updated
      → rank t (p ∷ ps) ≡ 0
  unfolding rank
  rank_newer t p ps h = ground arith

  is_hit-cons :
      (q : TokenPrice F) (qs : List (TokenPrice F)) (t : Time) (i : ℕ)
      → is_hit (q ∷ qs) t (suc i) ≡ is_hit qs t i
  unfolding is_hit
  is_hit-cons q qs t i = refl

  pub around_newer :
      (t : Time) (p : TokenPrice F) (ps : List (TokenPrice F))
      → IsSorted (p ∷ ps)
      → t ≤ℤ p.last_updated
      → around t (p ∷ ps) ≡ p ∷ []
  unfolding around
  around_newer t p [] s h = refl
  around_newer t p (q ∷ r) s h = ground arith

  pub around_older :
      (t : Time) (p q : TokenPrice F) (r : List (TokenPrice F))
      → q.last_updated ≤ℤ t
      → around t (p ∷ q ∷ r) ≡ around t (q ∷ r)
  unfolding around
  around_older t p q r h = ground arith

  nearest_at-around :
      (t : Time) (p : TokenPrice F) (ps : List (TokenPrice F))
      → IsSorted (p ∷ ps)
      → nearest_at (p ∷ ps) (rank t (p ∷ ps), is_hit (p ∷ ps) t (rank t (p ∷ ps)))
        ≡ around t (p ∷ ps)
  nearest_at-around t p [] s = unfold nearest_at rank is_hit compare_function around in ground arith
  nearest_at-around t p (q ∷ r) s = elim (lt_or_ge p.last_updated t) [
    | inr new ↦ rw (rank_newer t p (q ∷ r) new, nearest_at_front, around_newer t p (q ∷ r) s new)
    | inl old ↦ elim (lt_or_ge q.last_updated t) [
      | inr stop ↦
          rw (rank_older t p (q ∷ r) old, rank_newer t q r stop)
            (nearest_at_second t p q r old stop (around_newer t q r s.1 stop))
      | inl on ↦
          rw
            (
              rank_older t p (q ∷ r) old,
              rank_older t q r on,
              is_hit-cons,
              nearest_at-suc,
              around_older t p q r (omega arith),
              ← rank_older t q r on,
            )
            (nearest_at-around t q r s.1)
    ]
  ]

  pub nearest_in-around :
      (t : Time) (arr : List (TokenPrice F)) → IsSorted arr → nearest_in arr t ≡ around t arr
  unfolding nearest_in
  nearest_in-around t [] s = unfold around in refl
  nearest_in-around t (p ∷ ps) s = rw (binary_search-rank (p ∷ ps) t s) (nearest_at-around t p ps s)

  IsNearest-cons :
      (t : Time) (p q : TokenPrice F) (r ps : List (TokenPrice F))
      → q.last_updated ≤ℤ t
      → IsNearest t (q ∷ r) ps
      → IsNearest t (p ∷ q ∷ r) ps
  IsNearest-cons t p q r ps h (exact xs x ys e u v) = exact (p ∷ xs) x ys (ap (λ l. p ∷ l) e) u v
  IsNearest-cons t p q r ps h (first x ys e u v) = absurd (ground arith)
  IsNearest-cons t p q r ps h (last xs x e u v) = last (p ∷ xs) x (ap (λ l. p ∷ l) e) u v
  IsNearest-cons t p q r ps h (between xs x y ys e u v w) =
      between (p ∷ xs) x y ys (ap (λ l. p ∷ l) e) u v w

  around-IsNearest :
      (t : Time) (p : TokenPrice F) (ps : List (TokenPrice F))
      → IsNearest t (p ∷ ps) (around t (p ∷ ps))
  unfolding around
  around-IsNearest t p [] = elim (eq_or_lt_or_gt p.last_updated t) [
    | inl e ↦ exact [] p [] refl e refl
    | inr (inl old) ↦ last [] p refl old refl
    | inr (inr new) ↦ first p [] refl new refl
  ]
  around-IsNearest t p (q ∷ r) = elim (lt_or_ge t q.last_updated) [
    | inr on ↦ rw (around_older t p q r on) (IsNearest-cons t p q r _ on (around-IsNearest t q r))
    | inl stop ↦ elim (eq_or_lt_or_gt p.last_updated t) [
      | inl e ↦ exact [] p (q ∷ r) refl e (ground arith)
      | inr (inl old) ↦ between [] p q r refl old stop (ground arith)
      | inr (inr new) ↦ first p (q ∷ r) refl new (ground arith)
    ]
  ]

  -- On a valid map, for a token with prices, Nearest answers with the price of that very time if
  -- there is one, the first or the last price if the time is before or after all, and else the
  -- two neighbours in the array that enclose the time.
  pub nearest-IsNearest :
      (prices : PriceMap F) (name : Text) (t : Time) (arr : List (TokenPrice F))
      → IsValid prices
      → lookup name prices ≡ some arr
      → IsNearest t arr (nearest prices t name)
  unfolding nearest
  nearest-IsNearest prices name t [] v h = absurd ((v name [] h).filled refl)
  nearest-IsNearest prices name t (p ∷ ps) v h =
      rw (h, nearest, nearest_in-around t (p ∷ ps) (v name (p ∷ ps) h).sorted)
        (around-IsNearest t p ps)
