-- ===== src/Volume/Cumulating.antt =====
-- calculateRelativeVolumeValueCumulatively: the running sum gives each snapshot the value that was
-- traded since its height.
use osmosis_publisher.Prelude.{
  ℕ, ℤ, ◌-ℤ◌, ◌≤◌, ◌<◌, ◌≡◌, refl, sym, arith, List, [], ◌∷◌, map, false, if◌then◌else◌, leb,
  to_uint64, All, Bool-cases, inl, inr, ◌⊎◌, leb→le,
}
use osmosis_publisher.Types.{PoolStatusVolumeAt, Float64}
use osmosis_publisher.Volume.{
  PriceAt, calculate_price, cumulate, calculate_relative_volume_value_cumulatively,
}

not_leb : (a b : ℕ) → leb a b ≡ false → b < a
not_leb a b h = ground arith

module _ {F : Type 0} where
  -- Strictly falling heights.
  abbrev Descending : List (PriceAt F) → Type 0
  Descending [] = Unit
  Descending (p ∷ ps) = All (λ q. q.height < p.height) ps × Descending ps

  abbrev HasHeight : ℕ → List (PriceAt F) → Type 0
  HasHeight h [] = ⊥
  HasHeight h (p ∷ ps) = (h ≡ p.height) ⊎ HasHeight h ps

  abbrev height_of : PoolStatusVolumeAt F → ℕ
  height_of v = to_uint64 v.block_height

  abbrev DescendingVolumes : List (PoolStatusVolumeAt F) → Type 0
  DescendingVolumes [] = Unit
  DescendingVolumes (v ∷ vs) = All (λ u. height_of u < height_of v) vs × DescendingVolumes vs

  le_of_has :
      (h top : ℕ) (ps : List (PriceAt F)) → All (λ q. q.height < top) ps → HasHeight h ps → h < top
  le_of_has h top [] a m = absurd m
  le_of_has h top (p ∷ ps) a (inl e) = omega arith
  le_of_has h top (p ∷ ps) a (inr m) = le_of_has h top ps a.1 m

  has_top :
      (h : ℕ) (p : PriceAt F) (ps : List (PriceAt F))
      → All (λ q. q.height < p.height) ps
      → p.height ≤ h
      → HasHeight h (p ∷ ps)
      → h ≡ p.height
  has_top h p ps a k (inl e) = e
  has_top h p ps a k (inr m) = absurd (omega (arith, le_of_has h p.height ps a m))

  drop_top :
      (p : PriceAt F) (ps : List (PriceAt F)) (vs : List (PoolStatusVolumeAt F))
      → All (λ u. height_of u < p.height) vs
      → All (λ v. HasHeight (height_of v) (p ∷ ps)) vs
      → All (λ v. HasHeight (height_of v) ps) vs
  drop_top p ps [] u m = tt
  drop_top p ps (v ∷ vs) u (inl e, m) = absurd (omega (arith, u.0))
  drop_top p ps (v ∷ vs) u (inr h, m) = (h, drop_top p ps vs u.1 m)

  weaken :
      (p : PriceAt F) (vs : List (PoolStatusVolumeAt F))
      → All (λ u. height_of u < p.height) vs
      → All (λ u. height_of u ≤ p.height) vs
  weaken p [] a = tt
  weaken p (v ∷ vs) a = (omega (arith, a.0), weaken p vs a.1)

  lower :
      (top h : ℕ) (vs : List (PoolStatusVolumeAt F))
      → h < top
      → All (λ u. height_of u < h) vs
      → All (λ u. height_of u < top) vs
  lower top h [] k a = tt
  lower top h (v ∷ vs) k a = (omega (arith, a.0), lower top h vs k a.1)

module _ {F : Type 0} ⦃float : Float64 F⦄ where
  -- The specification: what was traded down to a height, each difference of volumes at the mean
  -- of the two prices.
  unfoldable pub traded : ℕ → F → F → ℤ → List (PriceAt F) → F
  traded h prev_price price_sum prev_volume [] = price_sum
  traded h prev_price price_sum prev_volume (p ∷ ps) =
      let rest =
        traded h p.price
          (float.add price_sum (
            calculate_price (prev_volume -ℤ p.volume)
              (float.div (float.add prev_price p.price) float.two)))
          p.volume ps in
      if leb h p.height then rest else price_sum

  abbrev pub with_traded :
      F → F → ℤ → List (PriceAt F) → PoolStatusVolumeAt F → PoolStatusVolumeAt F
  with_traded prev_price price_sum prev_volume prices v = record v {
    relative_volume_usd = traded (height_of v) prev_price price_sum prev_volume prices ∷ [];
  }

  traded_below :
      (h : ℕ) (prev_price price_sum : F) (prev_volume : ℤ) (ps : List (PriceAt F))
      → All (λ q. q.height < h) ps
      → traded h prev_price price_sum prev_volume ps ≡ price_sum
  unfolding traded
  traded_below h pp s pv [] a = refl
  traded_below h pp s pv (p ∷ ps) a = ground arith

  abbrev pub next_sum : F → F → ℤ → PriceAt F → F
  next_sum pp s pv p =
      float.add s (calculate_price (pv -ℤ p.volume) (float.div (float.add pp p.price) float.two))

  traded_step :
      (h : ℕ) (pp s : F) (pv : ℤ) (p : PriceAt F) (ps : List (PriceAt F))
      → h ≤ p.height
      → traded h pp s pv (p ∷ ps) ≡ traded h p.price (next_sum pp s pv p) p.volume ps
  unfolding traded
  traded_step h pp s pv p ps k = ground arith

  map_traded :
      (pp s : F) (pv : ℤ) (p : PriceAt F) (ps : List (PriceAt F)) (vs : List (PoolStatusVolumeAt F))
      → All (λ v. height_of v ≤ p.height) vs
      → map (with_traded pp s pv (p ∷ ps)) vs
        ≡ map (with_traded p.price (next_sum pp s pv p) p.volume ps) vs
  map_traded pp s pv p ps [] a = refl
  map_traded pp s pv p ps (v ∷ vs) a =
      cc (traded_step (height_of v) pp s pv p ps a.0, map_traded pp s pv p ps vs a.1)

  cumulate-traded :
      (pp s : F) (pv : ℤ) (ps : List (PriceAt F)) (vs : List (PoolStatusVolumeAt F))
      → Descending ps
      → DescendingVolumes vs
      → All (λ v. HasHeight (height_of v) ps) vs
      → cumulate pp s pv ps vs ≡ map (with_traded pp s pv ps) vs
  unfolding cumulate
  cumulate-traded pp s pv [] [] d e m = refl
  cumulate-traded pp s pv (p ∷ ps) [] d e m = refl
  cumulate-traded pp s pv [] (v ∷ vs) d e m = absurd m.0
  cumulate-traded pp s pv (p ∷ ps) (v ∷ vs) d e m = elim (Bool-cases (leb p.height (height_of v))) [
    | inl t ↦
        let low : p.height ≤ height_of v = leb→le p.height (height_of v) t in
        let top : height_of v ≡ p.height = has_top (height_of v) p ps d.0 low m.0 in
        let under : All (λ u. height_of u < p.height) vs = rw (← top) e.0 in
        rw
          (
            t,
            cumulate-traded p.price (next_sum pp s pv p) p.volume ps vs d.1 e.1
                (drop_top p ps vs under m.1),
          )
          (cc (
            traded_step (height_of v) pp s pv p ps (omega arith),
            traded_below (height_of v) p.price (next_sum pp s pv p) p.volume ps (rw top d.0),
            map_traded pp s pv p ps vs (weaken p vs under),
          ))
    | inr f ↦
        let low : height_of v < p.height = not_leb p.height (height_of v) f in
        let under : All (λ u. height_of u < p.height) (v ∷ vs) =
          (low, lower p.height (height_of v) vs low e.0) in
        rw
          (
            f,
            cumulate-traded p.price (next_sum pp s pv p) p.volume ps (v ∷ vs) d.1 e
                (drop_top p ps (v ∷ vs) under m),
          )
          (sym (map_traded pp s pv p ps (v ∷ vs) (weaken p (v ∷ vs) under)))
  ]

  -- With prices and snapshots of strictly falling heights, and a price at the height of each
  -- snapshot, every snapshot gets what was traded from the newest price down to its own height,
  -- and nothing else of it changes.
  pub cumulatively-traded :
      (p : PriceAt F) (ps : List (PriceAt F)) (vs : List (PoolStatusVolumeAt F))
      → Descending (p ∷ ps)
      → DescendingVolumes vs
      → All (λ v. HasHeight (height_of v) (p ∷ ps)) vs
      → calculate_relative_volume_value_cumulatively (p ∷ ps) vs
        ≡ map (with_traded p.price float.nought p.volume (p ∷ ps)) vs
  unfolding calculate_relative_volume_value_cumulatively
  cumulatively-traded p ps vs d e m =
      cumulate-traded p.price float.nought p.volume (p ∷ ps) vs d e m
