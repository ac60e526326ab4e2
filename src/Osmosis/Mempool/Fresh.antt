-- ===== src/Osmosis/Mempool/Fresh.antt =====
-- The hashes of a list that are not among those seen: what a poll of the mempool is to publish.
use osmosis_publisher.Prelude.{
  Text, text_eq, ◌≡◌, refl, ◌∙◌, ap, List, [], ◌∷◌, Bool, true, false, not, ◌&&◌, ◌==◌, nat_eq,
  ==_cases, ==_refl, contains, filter, arith, Bool-cases, inl, inr, Distinct,
}

-- The hashes of a list that are not seen yet, each once, in order.
unfoldable pub fresh : List Text → List Text → List Text
fresh seen [] = []
fresh seen (h ∷ hs) = elim (contains seen h) [
  | true ↦ fresh seen hs
  | false ↦ h ∷ fresh (h ∷ seen) hs
]

contains-fresh :
    (hs seen : List Text) (h : Text)
    → contains (fresh seen hs) h ≡ (contains hs h && not (contains seen h))
unfolding fresh
contains-fresh [] seen h = refl
contains-fresh (x ∷ hs) seen h = elim (==_cases x h) [
  | inl (e, p) ↦ ground (arith, e, p, contains-fresh hs seen h, contains-fresh hs (x ∷ seen) h)
  | inr (e, p) ↦ ground (arith, e, contains-fresh hs seen h, contains-fresh hs (x ∷ seen) h)
]

pub fresh_seen :
    (x : Text) (hs seen : List Text) → contains seen x ≡ true → fresh seen (x ∷ hs) ≡ fresh seen hs
unfolding fresh
fresh_seen x hs seen e = rw (fresh, e) refl

pub fresh_new :
    (x : Text) (hs seen : List Text)
    → contains seen x ≡ false
    → fresh seen (x ∷ hs) ≡ x ∷ fresh (x ∷ seen) hs
unfolding fresh
fresh_new x hs seen e = rw (fresh, e) refl

text_beq_refl' : (x : Text) → (x == x) ≡ true
text_beq_refl' x = ==_refl x

fresh-Distinct : (hs seen : List Text) → Distinct (fresh seen hs)
unfolding fresh
fresh-Distinct [] seen = tt
fresh-Distinct (x ∷ hs) seen = elim (Bool-cases (contains seen x)) [
  | inl e ↦ rw (fresh, e) (fresh-Distinct hs seen)
  | inr e ↦
      rw (fresh, e)
        (
          ground (arith, contains-fresh hs (x ∷ seen) x, text_beq_refl' x),
          fresh-Distinct hs (x ∷ seen),
        )
]

pub contains-filter :
    (p : Text → Bool) (xs : List Text) (h : Text)
    → contains (filter p xs) h ≡ (contains xs h && p h)
contains-filter p [] h = refl
contains-filter p (x ∷ xs) h = elim (==_cases x h) [
  | inl (e, q) ↦ ground (arith, e, q, contains-filter p xs h, ap p q)
  | inr (e, q) ↦ ground (arith, e, contains-filter p xs h)
]

pub fresh_none :
    (hs seen : List Text)
    → ((h : Text) → contains hs h ≡ true → contains seen h ≡ true)
    → fresh seen hs ≡ []
unfolding fresh
fresh_none [] seen k = refl
fresh_none (x ∷ hs) seen k =
    fresh_seen x hs seen (k x (ground (arith, text_beq_refl' x)))
    ∙ fresh_none hs seen (λ h e. k h (ground (arith, e)))
