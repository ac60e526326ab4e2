-- ===== src/Prices/Stored.antt =====
-- An estimate at the time of a stored price is that price.
use osmosis_publisher.Prelude.{
  ◌≡◌, List, [], ◌∷◌, arith, some, ◌<ℤ◌, ◌≤ℤ◌, All, Text, lookup, Option-cases, inl, inr, ◌==◌,
  int_eq, text_eq, int_beq_iff, ==_cases, false, pos, saturate64_self, ==_refl, ◌&&◌, ◌∙◌, sym,
}
use osmosis_publisher.Types.{TokenPrice, Time, Float64}
use osmosis_publisher.Prices.{PriceMap, nearest, estimate, estimate_from, set_price}
use osmosis_publisher.Prices.Search.{IsSorted}
use osmosis_publisher.Prices.Nearby.{around, nearest_in-around, around_older}
use osmosis_publisher.Prices.Storing.{
  IsValid, price_at, at_time, price_at-set_price, set_price-IsValid,
}

module _ {F : Type 0} where
  at_time_time :
      (t : Time) (arr : List (TokenPrice F)) (p : TokenPrice F)
      → at_time t arr ≡ some p
      → p.last_updated ≡ t
  unfolding at_time
  at_time_time t [] p h = cc
  at_time_time t (q ∷ qs) p h = elim (==_cases q.last_updated t) [
    | inl (e, same) ↦ ground (arith, same, rw (e) at h)
    | inr (e, _) ↦ at_time_time t qs p (rw e at h)
  ]

  at_time_newer :
      (u t : Time) (arr : List (TokenPrice F)) (p : TokenPrice F)
      → All (λ q. u <ℤ q.last_updated) arr
      → at_time t arr ≡ some p
      → u <ℤ t
  unfolding at_time
  at_time_newer u t [] p a h = cc
  at_time_newer u t (q ∷ qs) p a h = elim (==_cases q.last_updated t) [
    | inl (e, same) ↦ rw (← same) a.0
    | inr (e, _) ↦ at_time_newer u t qs p a.1 (rw e at h)
  ]

  at_time_first :
      (t : Time) (q : TokenPrice F) (qs : List (TokenPrice F)) (p : TokenPrice F)
      → IsSorted (q ∷ qs)
      → at_time t (q ∷ qs) ≡ some p
      → q.last_updated ≤ℤ t
  unfolding at_time
  at_time_first t q qs p s h = elim (==_cases q.last_updated t) [
    | inl (e, same) ↦ rw same (omega arith)
    | inr (e, _) ↦ omega (arith, at_time_newer q.last_updated t qs p s.0 (rw e at h))
  ]

  around-at_time :
      (t : Time) (arr : List (TokenPrice F)) (p : TokenPrice F)
      → IsSorted arr
      → at_time t arr ≡ some p
      → around t arr ≡ p ∷ []
  around-at_time t [] p s h = unfold at_time in cc
  around-at_time t (q ∷ []) p s h = unfold at_time around in ground arith
  around-at_time t (q ∷ r ∷ rs) p s h = elim (==_cases q.last_updated t) [
    | inl (e, same) ↦ unfold at_time around in ground (arith, same, int_beq_iff q.last_updated t)
    | inr (e, _) ↦
        let rest : at_time t (r ∷ rs) ≡ some p = unfold at_time in rw e at h in
        rw (around_older t q r rs (at_time_first t r rs p s.1 rest))
          (around-at_time t (r ∷ rs) p s.1 rest)
  ]

  in_array-around :
      (prices : PriceMap F) (name : Text) (t : Time) (p : TokenPrice F)
      → IsValid prices
      → price_at prices name t ≡ some p
      → nearest prices t name ≡ p ∷ []
  unfolding price_at nearest
  in_array-around prices name t p v h = elim (Option-cases (lookup name prices)) [
    | inl e ↦ absurd (cc (rw e at h))
    | inr (arr, e) ↦
        rw (e, nearest, nearest_in-around t arr (v name arr e).sorted)
          (around-at_time t arr p (v name arr e).sorted (rw e at h))
  ]

  price_at_time :
      (prices : PriceMap F) (name : Text) (t : Time) (p : TokenPrice F)
      → price_at prices name t ≡ some p
      → p.last_updated ≡ t
  unfolding price_at
  price_at_time prices name t p h = elim (Option-cases (lookup name prices)) [
    | inl e ↦ absurd (cc (rw e at h))
    | inr (arr, e) ↦ at_time_time t arr p (rw e at h)
  ]

module _ {F : Type 0} ⦃float : Float64 F⦄ where
  -- The price that the map has of a token and a time is the estimate then, with no error.
  estimate-price_at :
      (prices : PriceMap F) (name : Text) (t : Time) (p : TokenPrice F)
      → IsValid prices
      → price_at prices name t ≡ some p
      → estimate prices t name ≡ (p.value, pos 0)
  unfolding estimate
  estimate-price_at prices name t p v h =
      let e : p.last_updated ≡ t = price_at_time prices name t p h in
      rw (in_array-around prices name t p v h)
        (unfold estimate_from in rw (saturate64_self t p.last_updated e))

  -- On a valid map, a price that was just stored is what Estimate answers at its token and time,
  -- with no error.
  pub estimate-set_price :
      (prices : PriceMap F) (p : TokenPrice F)
      → IsValid prices
      → estimate (set_price prices p).0 p.last_updated p.name ≡ (p.value, pos 0)
  estimate-set_price prices p v =
      estimate-price_at (set_price prices p).0 p.name p.last_updated p
        (set_price-IsValid prices p v)
        (rw (
          price_at-set_price prices p p.name p.last_updated v,
          ==_refl p.name,
          ==_refl p.last_updated,
        ))

  -- A store changes no estimate at the token and time of another stored price.
  estimate-set_price_other :
      (prices : PriceMap F) (p q : TokenPrice F) (name : Text) (t : Time)
      → IsValid prices
      → price_at prices name t ≡ some q
      → ((p.name == name) && (p.last_updated == t)) ≡ false
      → estimate (set_price prices p).0 t name ≡ estimate prices t name
  estimate-set_price_other prices p q name t v h other =
      estimate-price_at (set_price prices p).0 name t q (set_price-IsValid prices p v)
        (price_at-set_price prices p name t v ∙ (rw other h))
      ∙ sym (estimate-price_at prices name t q v h)
