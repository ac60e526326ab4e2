-- ===== src/Database/Contents.antt =====
-- What the tables hold, as maps: the abstract view of the repository, on which a write of
-- internal/repository/mutation.go inserts and a pruning retains.
use osmosis_publisher.Prelude.{
  arith, List, [], ◌∷◌, map, filter, some, Bool, Eq, ◌==◌, ==_cases, if◌then◌else◌, Map, lookup,
  insert, retain, inl, inr, ◌≡◌, refl, sym, ap, is_some, Bool-cases,
}
use osmosis_publisher.Database.{Schema, upsert}

module _ {K V : Type 0} ⦃e : Eq K⦄ where
  -- A write that keeps what is there.
  unfoldable pub insert_new : K → V → Map K V → Map K V
  insert_new k v [] = (k, v) ∷ []
  insert_new k v ((j, w) ∷ m) = if j == k then (j, w) ∷ m else (j, w) ∷ insert_new k v m

  lookup-insert_new :
      (k other : K) (v : V) (m : Map K V)
      → lookup other (insert_new k v m) ≡ (
          if k == other
          then (if is_some (lookup k m) then lookup k m else some v)
          else lookup other m)
  unfolding lookup insert_new
  lookup-insert_new k other v [] = ground arith
  lookup-insert_new k other v ((i, w) ∷ rest) = ground (
    arith,
    e.is_same_iff i k,
    e.is_same_iff i other,
    e.is_same_iff k other,
    lookup-insert_new k other v rest,
  )

module _ {R K V : Type 0} ⦃e : Eq K⦄ (schema : Schema R K) (contents : R → V) where
  abbrev pub entry : R → K × V
  entry r = (schema.key r, contents r)

  pub map-filter :
      (keep : K → Bool) (p : R → Bool) (rows : List R)
      → ((r : R) → p r ≡ keep (schema.key r))
      → map entry (filter p rows) ≡ retain keep (map entry rows)
  unfolding retain
  map-filter keep p [] h = refl
  map-filter keep p (r ∷ rows) h = elim (Bool-cases (p r)) [
    | inl t ↦ rw (sym (h r), t) (ap (◌∷◌ (entry r)) (map-filter keep p rows h))
    | inr f ↦ rw (sym (h r), f) (map-filter keep p rows h)
  ]

  pub map-upsert_new :
      (r : R) (rows : List R)
      → map entry (upsert schema (λ old new. old) r rows)
        ≡ insert_new (schema.key r) (contents r) (map entry rows)
  unfolding upsert insert_new
  map-upsert_new r [] = refl
  map-upsert_new r (x ∷ rows) = elim (==_cases (schema.key x) (schema.key r)) [
    | inl (t, p) ↦ rw t refl
    | inr (f, n) ↦ rw f (rw (map-upsert_new r rows) refl)
  ]

  pub map-upsert :
      (merge : R → R → R) (r : R) (rows : List R)
      → ((old : R) → schema.key old ≡ schema.key r → entry (merge old r) ≡ entry r)
      → map entry (upsert schema merge r rows) ≡ insert (schema.key r) (contents r) (map entry rows)
  unfolding upsert insert
  map-upsert merge r [] h = refl
  map-upsert merge r (x ∷ rows) h = elim (==_cases (schema.key x) (schema.key r)) [
    | inl (t, p) ↦ rw t (rw (h x p) refl)
    | inr (f, n) ↦ rw f (rw (map-upsert merge r rows h) refl)
  ]
