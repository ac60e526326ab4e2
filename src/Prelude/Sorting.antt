-- ===== src/Prelude/Sorting.antt =====
-- slices.SortFunc as the insertion sort that it is on a dozen elements or fewer; on more its order
-- of equal elements is left open by Go, and here is that of the input.
use mathlib.Core.Path.{◌≡◌}
use mathlib.Core.Logic.{inl, inr}
use mathlib.Core.Bool.{Bool, true, false}
use mathlib.Core.List.{List, [], ◌∷◌, Perm}
use mathlib.Core.List.Perm
use osmosis_publisher.Prelude.Tests.{if◌then◌else◌, Bool-cases}
use osmosis_publisher.Prelude.Lists.{All}

module _ {ℓ} {A : Type ℓ} (before : A → A → Bool) where
  unfoldable pub insert_by : A → List A → List A
  insert_by x [] = x ∷ []
  insert_by x (y ∷ ys) = if before y x then y ∷ insert_by x ys else x ∷ y ∷ ys

  unfoldable pub sort_by : List A → List A
  unfolding insert_by
  sort_by [] = []
  sort_by (x ∷ xs) = insert_by x (sort_by xs)

  insert_by-perm : (x : A) (ys : List A) → Perm (insert_by x ys) (x ∷ ys)
  unfolding insert_by
  insert_by-perm x [] = Perm.refl (x ∷ [])
  insert_by-perm x (y ∷ ys) = elim (Bool-cases (before y x)) [
    | inl e ↦ rw e (Perm.trans (Perm.cons y (insert_by-perm x ys)) (Perm.swap x y ys))
    | inr e ↦ rw e (Perm.refl (x ∷ y ∷ ys))
  ]

  -- Sorting only reorders.
  sort_by-perm : (xs : List A) → Perm (sort_by xs) xs
  unfolding sort_by
  sort_by-perm [] = Perm.refl []
  sort_by-perm (x ∷ xs) = Perm.trans (insert_by-perm x (sort_by xs)) (Perm.cons x (sort_by-perm xs))

  All-insert_by {κ} :
      (P : A → Type κ) (x : A) (ys : List A) → P x → All P ys → All P (insert_by x ys)
  unfolding insert_by
  All-insert_by P x [] h a = (h, tt)
  All-insert_by P x (y ∷ ys) h a = elim (Bool-cases (before y x)) [
    | inl e ↦ rw e (a.0, All-insert_by P x ys h a.1)
    | inr e ↦ rw e (h, a)
  ]

  All-sort_by {κ} : (P : A → Type κ) (xs : List A) → All P xs → All P (sort_by xs)
  unfolding sort_by
  All-sort_by P [] a = tt
  All-sort_by P (x ∷ xs) a = All-insert_by P x (sort_by xs) a.0 (All-sort_by P xs a.1)

  -- No element of the list is to stand before one that stands in front of it.
  abbrev Ordered : List A → Type 0
  Ordered [] = Unit
  Ordered (x ∷ xs) = All (λ y. before y x ≡ false) xs × Ordered xs

  module _ (InRange : A → Type 0)
      (asym : (x y : A) → InRange x → InRange y → before x y ≡ true → before y x ≡ false)
      (trans : (x y z : A)
        → InRange x
        → InRange y
        → InRange z
        → before y x ≡ false
        → before z y ≡ false
        → before z x ≡ false) where
    behind :
        (x y : A) (ys : List A)
        → InRange x
        → InRange y
        → before y x ≡ false
        → All InRange ys
        → All (λ z. before z y ≡ false) ys
        → All (λ z. before z x ≡ false) ys
    behind x y [] rx ry e a o = tt
    behind x y (z ∷ zs) rx ry e a o = (trans x y z rx ry a.0 e o.0, behind x y zs rx ry e a.1 o.1)

    Ordered-insert_by :
        (x : A) (ys : List A) → InRange x → All InRange ys → Ordered ys → Ordered (insert_by x ys)
    unfolding insert_by
    Ordered-insert_by x [] r a o = (tt, tt)
    Ordered-insert_by x (y ∷ ys) r a o = elim (Bool-cases (before y x)) [
      | inl e ↦ rw e (
        All-insert_by (λ z. before z y ≡ false) x ys (asym y x a.0 r e) o.0,
        Ordered-insert_by x ys r a.1 o.1,
      )
      | inr e ↦ rw e ((e, behind x y ys r a.0 e a.1 o.0), o)
    ]

    -- A sort whose comparison is an order on the elements in range leaves them in that order.
    sort_by-Ordered : (xs : List A) → All InRange xs → Ordered (sort_by xs)
    unfolding sort_by
    sort_by-Ordered [] a = tt
    sort_by-Ordered (x ∷ xs) a =
        Ordered-insert_by x (sort_by xs) a.0 (All-sort_by InRange xs a.1) (sort_by-Ordered xs a.1)
