-- ===== src/Prices/Storing.antt =====
-- PriceMap.Set keeps each array sorted, and makes the map a function of token and time.
use osmosis_publisher.Prelude.{
  ℕ, suc, ◌≡◌, refl, Bool, true, false, List, [], ◌∷◌, arith, Option, none, some, length, ltb_ℤ,
  ◌<ℤ◌, ◌≤ℤ◌, All, int_beq, if◌then◌else◌, ◌==◌, Bool-cases, inl, inr, nat_eq, nat_beq, int_eq,
  text_eq, Text, lookup, option_or, lookup-insert, ==_cases, ◌&&◌, ◌≢◌, Option-cases, subst,
  ==_refl, lookup-insert_self,
}
use osmosis_publisher.Types.{TokenPrice, Time}
use osmosis_publisher.Prices.{PriceMap, store_at, store, set_price}
use osmosis_publisher.Prices.Search.{compare_function, is_hit, IsSorted, rank}
use osmosis_publisher.Prices.Bisect.{binary_search-rank}

nat_beq-suc : (m n : ℕ) → nat_beq (suc m) (suc n) ≡ nat_beq m n
nat_beq-suc m n = ground arith

module _ {F : Type 0} where
  -- The specification of a store: before the first price that is newer, over one of its time.
  put : TokenPrice F → List (TokenPrice F) → List (TokenPrice F)
  put p [] = p ∷ []
  put p (q ∷ qs) =
      if ltb_ℤ q.last_updated p.last_updated
      then q ∷ put p qs
      else if int_beq q.last_updated p.last_updated
      then p ∷ qs
      else p ∷ q ∷ qs

  store_at-cons :
      (p q : TokenPrice F) (qs : List (TokenPrice F)) (i : ℕ) (found : Bool)
      → store_at (q ∷ qs) p (suc i, found) ≡ q ∷ store_at qs p (i, found)
  unfolding store_at
  store_at-cons p q qs i true = refl
  store_at-cons p q qs i false = elim (Bool-cases (nat_beq i (length qs))) [
    | inl e ↦ rw (nat_beq-suc, e)
    | inr e ↦ rw (nat_beq-suc, e)
  ]

  is_hit-cons :
      (q : TokenPrice F) (qs : List (TokenPrice F)) (t : Time) (i : ℕ)
      → is_hit (q ∷ qs) t (suc i) ≡ is_hit qs t i
  unfolding is_hit
  is_hit-cons q qs t i = refl

  store_at_front :
      (p q : TokenPrice F) (qs : List (TokenPrice F))
      → ltb_ℤ q.last_updated p.last_updated ≡ false
      → store_at (q ∷ qs) p (0, is_hit (q ∷ qs) p.last_updated 0) ≡ put p (q ∷ qs)
  unfolding store_at put is_hit compare_function
  store_at_front p q qs h = elim (Bool-cases (int_beq q.last_updated p.last_updated)) [
    | inl e ↦ rw (h, e)
    | inr e ↦ rw (h, e) (ground arith)
  ]

  store_at-put :
      (p : TokenPrice F) (arr : List (TokenPrice F))
      → store_at arr p
          (rank p.last_updated arr, is_hit arr p.last_updated (rank p.last_updated arr))
        ≡ put p arr
  unfolding rank
  store_at-put p [] = unfold store_at put is_hit in refl
  store_at-put p (q ∷ qs) = elim (Bool-cases (ltb_ℤ q.last_updated p.last_updated)) [
    | inl e ↦ rw (e, is_hit-cons, store_at-cons, store_at-put p qs) (unfold put in rw e)
    | inr e ↦ rw e (store_at_front p q qs e)
  ]

  -- On a sorted array the search and the three ways to write are that specification.
  store-put :
      (arr : List (TokenPrice F)) (p : TokenPrice F) → IsSorted arr → store arr p ≡ put p arr
  unfolding store
  store-put arr p s = rw (binary_search-rank arr p.last_updated s) (store_at-put p arr)

  All-put :
      (t : Time) (p : TokenPrice F) (arr : List (TokenPrice F))
      → t <ℤ p.last_updated
      → All (λ q. t <ℤ q.last_updated) arr
      → All (λ q. t <ℤ q.last_updated) (put p arr)
  unfolding put
  All-put t p [] h a = (h, tt)
  All-put t p (q ∷ qs) h a = ground (arith, All-put t p qs h a.1)

  All-newer :
      (t u : Time) (arr : List (TokenPrice F))
      → t ≤ℤ u
      → All (λ q. u <ℤ q.last_updated) arr
      → All (λ q. t <ℤ q.last_updated) arr
  All-newer t u [] h a = tt
  All-newer t u (q ∷ qs) h a = (omega arith, All-newer t u qs h a.1)

  put-IsSorted :
      (p : TokenPrice F) (arr : List (TokenPrice F)) → IsSorted arr → IsSorted (put p arr)
  unfolding put
  put-IsSorted p [] s = (tt, tt)
  put-IsSorted p (q ∷ qs) s = ground (
    arith,
    put-IsSorted p qs s.1,
    All-put q.last_updated p qs,
    All-newer p.last_updated q.last_updated qs,
  )

  -- The price that an array has of a time.
  unfoldable pub at_time : Time → List (TokenPrice F) → Option (TokenPrice F)
  at_time t [] = none
  at_time t (q ∷ qs) = if q.last_updated == t then some q else at_time t qs

  at_time-put :
      (t : Time) (p : TokenPrice F) (arr : List (TokenPrice F))
      → at_time t (put p arr) ≡ (if p.last_updated == t then some p else at_time t arr)
  unfolding at_time put
  at_time-put t p [] = refl
  at_time-put t p (q ∷ qs) = ground (arith, at_time-put t p qs)

  put-ne-nil : (p : TokenPrice F) (arr : List (TokenPrice F)) → put p arr ≢ []
  unfolding put
  put-ne-nil p [] = ground arith
  put-ne-nil p (q ∷ qs) = ground arith

  put-All :
      (P : TokenPrice F → Type 0) (p : TokenPrice F) (arr : List (TokenPrice F))
      → P p
      → All P arr
      → All P (put p arr)
  unfolding put
  put-All P p [] h a = (h, tt)
  put-All P p (q ∷ qs) h a = ground (arith, put-All P p qs h a.1)

  -- What holds of the array of a token: it is not empty, it is sorted, and its prices are the
  -- token's.
  pub record IsValidArray (name : Text) (arr : List (TokenPrice F)) : Type 0 where
    pub filled : arr ≢ []
    pub sorted : IsSorted arr
    pub named : All (λ p. p.name ≡ name) arr

  abbrev pub IsValid : PriceMap F → Type 0
  IsValid prices =
      (name : Text) (arr : List (TokenPrice F))
      → lookup name prices ≡ some arr
      → IsValidArray name arr

  unfoldable in_array : Time → Option (List (TokenPrice F)) → Option (TokenPrice F)
  unfolding at_time
  in_array t none = none
  in_array t (some arr) = at_time t arr

  -- The map as a function of a token and a time.
  unfoldable pub price_at : PriceMap F → Text → Time → Option (TokenPrice F)
  unfolding at_time in_array
  price_at prices name t = in_array t (lookup name prices)

  IsSorted-lookup :
      (prices : PriceMap F) (name : Text)
      → IsValid prices
      → IsSorted (option_or (lookup name prices) [])
  IsSorted-lookup prices name v = elim (Option-cases (lookup name prices)) [
    | inl e ↦ rw e tt
    | inr (arr, e) ↦ rw e (v name arr e).sorted
  ]

  All-lookup :
      (prices : PriceMap F) (name : Text)
      → IsValid prices
      → All (λ p. p.name ≡ name) (option_or (lookup name prices) [])
  All-lookup prices name v = elim (Option-cases (lookup name prices)) [
    | inl e ↦ rw e tt
    | inr (arr, e) ↦ rw e (v name arr e).named
  ]

  -- A store keeps the map valid: every array sorted by time with no two prices of one time, under
  -- its token's name, and not empty.
  pub set_price-IsValid :
      (prices : PriceMap F) (p : TokenPrice F) → IsValid prices → IsValid (set_price prices p).0
  unfolding set_price
  set_price-IsValid prices p v name arr h = elim (==_cases p.name name) [
    | inl (e, same) ↦ subst (IsValidArray name) (stored e) (rw (← same) fresh)
    | inr (e, _) ↦ v name arr (kept e)
  ]
    where
      old : List (TokenPrice F)
      old = option_or (lookup p.name prices) []

      fresh : IsValidArray p.name (put p old)
      fresh = record {
        filled = put-ne-nil p old;
        sorted = put-IsSorted p old (IsSorted-lookup prices p.name v);
        named = put-All (λ q. q.name ≡ p.name) p old refl (All-lookup prices p.name v);
      }

      looked : (if p.name == name then some (store old p) else lookup name prices) ≡ some arr
      looked = rw (lookup-insert p.name name (store old p) prices) at h

      stored : (p.name == name) ≡ true → put p old ≡ arr
      stored e = ground (arith, looked, e, store-put old p (IsSorted-lookup prices p.name v))

      kept : (p.name == name) ≡ false → lookup name prices ≡ some arr
      kept e = ground (arith, looked, e)

  -- On a valid map, after a store the map has the new price at its token and time, and elsewhere
  -- what it had: a price of the same token and time is written over.
  pub price_at-set_price :
      (prices : PriceMap F) (p : TokenPrice F) (name : Text) (t : Time)
      → IsValid prices
      → price_at (set_price prices p).0 name t
        ≡ (if p.name == name && p.last_updated == t then some p else price_at prices name t)
  unfolding set_price price_at
  price_at-set_price prices p name t v = elim (==_cases p.name name) [
    | inl (_, same) ↦
        rw (← same, lookup-insert_self, ==_refl p.name)
          (rw (store-put _ p (IsSorted-lookup prices p.name v), at_time-put)
            (elim (Option-cases (lookup p.name prices)) [ inl e ↦ rw e | inr (arr, e) ↦ rw e ]))
    | inr (e, _) ↦ rw (lookup-insert, e)
  ]
