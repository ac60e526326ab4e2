-- ===== src/Database/Keys.antt =====
-- What ON CONFLICT of a unique index leaves: the saves of internal/repository/mutation.go.
use osmosis_publisher.Prelude.{
  arith, int_eq, nat_eq, text_eq, List, [], ◌∷◌, Member, true, pair_keys, ==_cases, inl, inr, ◌⊎◌,
  ◌≡◌, ◌≢◌, refl, sym, ap, ◌∙◌, Eq, ◌==◌, subst, Distinct, contains, map, false,
}
use osmosis_publisher.Database.{Schema, upsert}

module _ {R K : Type 0} ⦃e : Eq K⦄ (schema : Schema R K) where
  -- After an upsert there is the row, or what it was merged into, a row of its key.
  pub Member-upsert :
      (merge : R → R → R) (r : R) (rows : List R)
      → Member r (upsert schema merge r rows)
        ⊎ ((old : R) × ((schema.key old ≡ schema.key r)
              × Member (merge old r) (upsert schema merge r rows)))
  unfolding upsert
  Member-upsert merge r [] = inl (inl refl)
  Member-upsert merge r (x ∷ rows) = elim (==_cases (schema.key x) (schema.key r)) [
    | inl (t, p) ↦ rw t (inr (x, (p, inl refl)))
    | inr (f, n) ↦ rw f (elim (Member-upsert merge r rows) [
      | inl m ↦ inl (inr m)
      | inr (old, (p, m)) ↦ inr (old, (p, inr m))
    ])
  ]

  not_listed :
      (k : K) (rows : List R) (r : R)
      → contains (map schema.key rows) k ≡ false
      → Member r rows
      → schema.key r ≢ k
  not_listed k [] r h m p = absurd m
  not_listed k (x ∷ rows) r h m p = elim (==_cases (schema.key x) k) [
    | inl (t, q) ↦ absurd (ground (arith, h, t))
    | inr (f, n) ↦ elim m [
      | inl e ↦ absurd (n (sym (ap schema.key e) ∙ p))
      | inr m' ↦ not_listed k rows r (ground (arith, h, f)) m' p
    ]
  ]

  upsert_found :
      (merge : R → R → R) (r x : R) (rows : List R)
      → (schema.key x == schema.key r) ≡ true
      → upsert schema merge r (x ∷ rows) ≡ merge x r ∷ rows
  unfolding upsert
  upsert_found merge r x rows t = rw (upsert, t) refl

  upsert_on :
      (merge : R → R → R) (r x : R) (rows : List R)
      → (schema.key x == schema.key r) ≡ false
      → upsert schema merge r (x ∷ rows) ≡ x ∷ upsert schema merge r rows
  unfolding upsert
  upsert_on merge r x rows f = rw (upsert, f) refl

  -- Where keys are unique, a row of the key after an upsert is the row, or what it was merged into.
  pub upsert_unique :
      (merge : R → R → R) (r : R) (rows : List R) (r' : R)
      → Distinct (map schema.key rows)
      → Member r' (upsert schema merge r rows)
      → schema.key r' ≡ schema.key r
      → (r' ≡ r) ⊎ ((old : R) × ((schema.key old ≡ schema.key r) × (r' ≡ merge old r)))
  unfolding upsert
  upsert_unique merge r [] r' d (inl e) p = inl e
  upsert_unique merge r [] r' d (inr m) p = absurd m
  upsert_unique merge r (x ∷ rows) r' (apart, d) m p =
      elim (==_cases (schema.key x) (schema.key r)) [
        | inl (t, q) ↦ elim (subst (Member r') (upsert_found merge r x rows t) m) [
          | inl e ↦ inr (x, (q, e))
          | inr m' ↦ absurd (not_listed (schema.key x) rows r' apart m' (p ∙ sym q))
        ]
        | inr (f, n) ↦ elim (subst (Member r') (upsert_on merge r x rows f) m) [
          | inl e ↦ absurd (n (sym (ap schema.key e) ∙ p))
          | inr m' ↦ upsert_unique merge r rows r' d m' p
        ]
      ]
