-- ===== src/Prices/Interpolating.antt =====
-- PriceMap.Estimate answers by the prices that Nearest gives.
use osmosis_publisher.Prelude.{
  ◌≡◌, refl, List, [], ◌∷◌, ◌++◌, arith, none, some, ◌<ℤ◌, pos, nat_eq, int_eq, text_eq, Text,
  lookup, saturate64, ◌-ℤ◌, saturate64_pos, ◌*◌, int_laws, saturate64_self,
}
use osmosis_publisher.Types.{TokenPrice, Time, Duration, Float64, nanos_per_hour}
use osmosis_publisher.Prices.{PriceMap, nearest, estimate_from, estimate}
use osmosis_publisher.Prices.Storing.{IsValid}
use osmosis_publisher.Prices.Nearby.{around_newer, nearest_in-around, IsNearest, nearest-IsNearest}

module _ {F : Type 0} ⦃float : Float64 F⦄ where
  abbrev interpolate : TokenPrice F → TokenPrice F → Time → F
  interpolate p q t = float.add p.value (
      float.div
        (float.mul (float.seconds (saturate64 (t -ℤ p.last_updated))) (float.sub q.value p.value))
        (float.seconds (saturate64 (q.last_updated -ℤ p.last_updated))))

  -- An estimate of a sorted array: a stored price, and how far its time is from the given one
  -- (negative if the price is newer), or between two neighbours the line through them, and how
  -- far they are apart.
  pub data IsEstimate (t : Time) (arr : List (TokenPrice F)) (e : F × Duration) : Type 0 where
    exact :
        (xs : List (TokenPrice F)) (p : TokenPrice F) (ys : List (TokenPrice F))
        → arr ≡ xs ++ p ∷ ys
        → p.last_updated ≡ t
        → e ≡ (p.value, pos 0)
        → IsEstimate t arr e
    first :
        (p : TokenPrice F) (ys : List (TokenPrice F))
        → arr ≡ p ∷ ys
        → t <ℤ p.last_updated
        → e ≡ (p.value, saturate64 (t -ℤ p.last_updated))
        → IsEstimate t arr e
    last :
        (xs : List (TokenPrice F)) (p : TokenPrice F)
        → arr ≡ xs ++ p ∷ []
        → p.last_updated <ℤ t
        → e ≡ (p.value, saturate64 (t -ℤ p.last_updated))
        → IsEstimate t arr e
    between :
        (xs : List (TokenPrice F)) (p q : TokenPrice F) (ys : List (TokenPrice F))
        → arr ≡ xs ++ p ∷ q ∷ ys
        → p.last_updated <ℤ t
        → t <ℤ q.last_updated
        → e ≡ (interpolate p q t, saturate64 (q.last_updated -ℤ p.last_updated))
        → IsEstimate t arr e

  estimate_from_pair :
      (p q : TokenPrice F) (t : Time)
      → p.last_updated <ℤ q.last_updated
      → estimate_from (p ∷ q ∷ []) t
        ≡ (interpolate p q t, saturate64 (q.last_updated -ℤ p.last_updated))
  unfolding estimate_from
  estimate_from_pair p q t h =
      ground (arith, saturate64_pos (q.last_updated -ℤ p.last_updated) (omega int_laws))

  IsNearest-IsEstimate :
      (t : Time) (arr ps : List (TokenPrice F))
      → IsNearest t arr ps
      → IsEstimate t arr (estimate_from ps t)
  unfolding estimate_from
  IsNearest-IsEstimate t arr ps (IsNearest.exact xs p ys e u v) =
      rw v (exact xs p ys e u (rw (saturate64_self t p.last_updated u)))
  IsNearest-IsEstimate t arr ps (IsNearest.first p ys e u v) = rw v (first p ys e u refl)
  IsNearest-IsEstimate t arr ps (IsNearest.last xs p e u v) = rw v (last xs p e u refl)
  IsNearest-IsEstimate t arr ps (IsNearest.between xs p q ys e u w v) =
      rw v (between xs p q ys e u w (estimate_from_pair p q t (omega arith)))

  -- On a valid map, for a token with prices, Estimate answers the stored value and no error at
  -- the time of a price, the first or the last price outside their range, with the distance to it
  -- (negative before the first), and between two neighbours the linear interpolation with their
  -- distance, all distances as int64.
  pub estimate-IsEstimate :
      (prices : PriceMap F) (name : Text) (t : Time) (arr : List (TokenPrice F))
      → IsValid prices
      → lookup name prices ≡ some arr
      → IsEstimate t arr (estimate prices t name)
  unfolding estimate
  estimate-IsEstimate prices name t arr v h =
      IsNearest-IsEstimate t arr _ (nearest-IsNearest prices name t arr v h)

  -- A token with no prices has the value 0, and an error of two days.
  estimate_missing :
      (prices : PriceMap F) (name : Text) (t : Time)
      → lookup name prices ≡ none
      → estimate prices t name ≡ (float.nought, pos (48 * nanos_per_hour))
  unfolding estimate nearest
  estimate_missing prices name t h = rw (h, estimate, nearest)

  -- Before the first price the estimate is that price, and its error is negative.
  pub estimate_before :
      (prices : PriceMap F) (name : Text) (t : Time) (p : TokenPrice F) (ps : List (TokenPrice F))
      → IsValid prices
      → lookup name prices ≡ some (p ∷ ps)
      → t <ℤ p.last_updated
      → estimate prices t name ≡ (p.value, saturate64 (t -ℤ p.last_updated))
  unfolding estimate nearest
  estimate_before prices name t p ps v h before =
      let s = (v name (p ∷ ps) h).sorted in
      rw (h, estimate, nearest, nearest_in-around t (p ∷ ps) s, around_newer t p ps s (omega arith))
        (unfold estimate_from in refl)
