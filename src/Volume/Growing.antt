-- ===== src/Volume/Growing.antt =====
-- The value traded since a height grows towards the past.
use osmosis_publisher.Prelude.{
  ℕ, ℤ, pos, ◌-ℤ◌, ◌≤◌, ◌≤ℤ◌, ◌≡◌, arith, List, [], ◌∷◌, true, leb, Bool-cases, inl, inr, leb→le,
  int_laws,
}
use osmosis_publisher.Types.{Float64}
use osmosis_publisher.Volume.{PriceAt}
use osmosis_publisher.Volume.Cumulating.{traded, next_sum}

-- What is used of the order of float64: the order and the arithmetic of non-negative numbers.
record IsOrderedFloat (F : Type 0) ⦃float : Float64 F⦄ : Type 1 where
  pub Le : F → F → Type 0
  pub le_refl : (x : F) → Le float.nought x → Le x x
  pub le_trans : (x y z : F) → Le x y → Le y z → Le x z
  pub nought_refl : Le float.nought float.nought
  pub add_grows : (x y : F) → Le float.nought x → Le float.nought y → Le x (float.add x y)
  pub mean_nonneg :
      (x y : F)
      → Le float.nought x
      → Le float.nought y
      → Le float.nought (float.div (float.add x y) float.two)
  pub scale_nonneg :
      (n : ℤ) (x : F) → pos 0 ≤ℤ n → Le float.nought x → Le float.nought (float.scale n x)

module _ {F : Type 0} ⦃float : Float64 F⦄ (order : IsOrderedFloat F) where
  open order use {Le, le_refl, le_trans, nought_refl, add_grows, mean_nonneg, scale_nonneg}

  -- The total volume of the pool does not grow towards the past, and no price is negative.
  abbrev Falling : ℤ → List (PriceAt F) → Type 0
  Falling prev [] = Unit
  Falling prev (p ∷ ps) = (p.volume ≤ℤ prev) × Le float.nought p.price × Falling p.volume ps

  next_sum_grows :
      (pp s : F) (pv : ℤ) (p : PriceAt F)
      → Le float.nought pp
      → Le float.nought s
      → p.volume ≤ℤ pv
      → Le float.nought p.price
      → Le s (next_sum pp s pv p)
  next_sum_grows pp s pv p hp hs hv hq =
      add_grows s _ hs
        (scale_nonneg (pv -ℤ p.volume) _ (omega int_laws) (mean_nonneg pp p.price hp hq))

  le-traded :
      (h : ℕ) (pp s : F) (pv : ℤ) (ps : List (PriceAt F))
      → Le float.nought pp
      → Le float.nought s
      → Falling pv ps
      → Le s (traded h pp s pv ps)
  unfolding traded
  le-traded h pp s pv [] hp hs f = le_refl s hs
  le-traded h pp s pv (p ∷ ps) hp hs (hv, hq, f) =
      let up = next_sum_grows pp s pv p hp hs hv hq in
      elim (Bool-cases (leb h p.height)) [
        | inr e ↦ rw e (le_refl s hs)
        | inl e ↦ rw e (
            le_trans s (next_sum pp s pv p) _ up (
              le-traded h p.price (next_sum pp s pv p) p.volume ps hq
                (le_trans float.nought s (next_sum pp s pv p) hs up) f))
      ]

  traded_mono :
      (g h : ℕ) (pp s : F) (pv : ℤ) (ps : List (PriceAt F))
      → g ≤ h
      → Le float.nought pp
      → Le float.nought s
      → Falling pv ps
      → Le (traded h pp s pv ps) (traded g pp s pv ps)
  unfolding traded
  traded_mono g h pp s pv [] k hp hs f = le_refl s hs
  traded_mono g h pp s pv (p ∷ ps) k hp hs (hv, hq, f) =
      let up = next_sum_grows pp s pv p hp hs hv hq in
      let nn = le_trans float.nought s (next_sum pp s pv p) hs up in
      elim (Bool-cases (leb h p.height)) [
        | inl e ↦
            let e' : leb g p.height ≡ true = ground (arith, leb→le h p.height e) in
            rw (e, e') (traded_mono g h p.price (next_sum pp s pv p) p.volume ps k hq nn f)
        | inr e ↦ rw e (le-traded g pp s pv (p ∷ ps) hp hs (hv, hq, f))
      ]

  -- The value traded since a height grows towards the past, if the pool's total volume grew and
  -- no price is negative.
  traded_grows :
      (g h : ℕ) (p : PriceAt F) (ps : List (PriceAt F))
      → g ≤ h
      → Falling p.volume (p ∷ ps)
      → Le
          (traded h p.price float.nought p.volume (p ∷ ps))
          (traded g p.price float.nought p.volume (p ∷ ps))
  traded_grows g h p ps k f =
      traded_mono g h p.price float.nought p.volume (p ∷ ps) k f.1 nought_refl f
