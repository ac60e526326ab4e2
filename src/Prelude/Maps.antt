-- ===== src/Prelude/Maps.antt =====
-- Go's maps, as association lists: a key is looked up at its first entry, and written there.
use mathlib.Core.Path.{◌≡◌, refl}
use mathlib.Core.Logic.{inl, inr}
use mathlib.Core.Bool.{Bool}
use mathlib.Core.Option.{Option, none, some}
use mathlib.Core.List.{List, [], ◌∷◌}
use native.Mathlib.Omega.{arith}
use osmosis_publisher.Prelude.Tests.{Eq, ◌==◌, ==_refl, ==_cases, if◌then◌else◌}
use osmosis_publisher.Prelude.Lists.{filter}

abbrev pub Map {ℓ κ} : Type ℓ → Type κ → Type (ℓ ⊔ κ)
Map K V = List (K × V)

module _ {ℓ κ} {K : Type ℓ} {V : Type κ} ⦃e : Eq K⦄ where
  unfoldable pub lookup : K → Map K V → Option V
  lookup k [] = none
  lookup k ((j, v) ∷ m) = if j == k then some v else lookup k m

  unfoldable pub insert : K → V → Map K V → Map K V
  insert k v [] = (k, v) ∷ []
  insert k v ((j, w) ∷ m) = if j == k then (k, v) ∷ m else (j, w) ∷ insert k v m

  -- `for k := range m { if !keep(k) { delete(m, k) } }`
  unfoldable pub retain : (K → Bool) → Map K V → Map K V
  retain keep = filter (λ (k, v). keep k)

  -- A written key is read, any other as before.
  pub lookup-insert :
      (key other : K) (v : V) (m : Map K V)
      → lookup other (insert key v m) ≡ (if key == other then some v else lookup other m)
  unfolding lookup insert
  lookup-insert key other v [] = refl
  lookup-insert key other v ((i, w) ∷ rest) = ground (
    arith,
    e.is_same_iff i key,
    e.is_same_iff i other,
    e.is_same_iff key other,
    lookup-insert key other v rest,
  )

  pub lookup-insert_self : (k : K) (v : V) (m : Map K V) → lookup k (insert k v m) ≡ some v
  lookup-insert_self k v m = rw (lookup-insert, ==_refl k)

  pub lookup-retain :
      (keep : K → Bool) (k : K) (m : Map K V)
      → lookup k (retain keep m) ≡ (if keep k then lookup k m else none)
  unfolding lookup retain
  lookup-retain keep k [] = ground arith
  lookup-retain keep k ((j, v) ∷ m) = elim (==_cases j k) [
    | inl (t, p) ↦ rw t (rw p (ground (arith, lookup-retain keep k m)))
    | inr (f, _) ↦ ground (arith, lookup-retain keep k m)
  ]
