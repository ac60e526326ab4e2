-- ===== src/Command/Splitting.antt =====
-- SplitAndTrimEmpty (cmd/utils.go) against a description of it by joining, mapping and filtering.
use osmosis_publisher.Prelude.{
  split_from, split, arith, ℕ, nat_beq, Text, List, [], ◌∷◌, ◌++◌, append_assoc, append-nil, map,
  filter, All, false, not, nat_eq, contains, is_empty, has_prefix, inl, inr, ◌≡◌, refl, ==_refl,
  sym, ap, ◌∙◌, Bool-cases,
}
use osmosis_publisher.Command.{trim, trimmed, split_and_trim_empty}

-- Texts joined by a byte.
unfoldable pub join : ℕ → List Text → Text
join sep [] = []
join sep (p ∷ []) = p
join sep (p ∷ q ∷ ps) = p ++ sep ∷ join sep (q ∷ ps)

abbrev pub Lacks : ℕ → Text → Type 0
Lacks sep p = contains p sep ≡ false

has_prefix_byte : (sep c : ℕ) (s : Text) → has_prefix (c ∷ s) (sep ∷ []) ≡ nat_beq c sep
unfolding has_prefix
has_prefix_byte sep c s = ground arith

Lacks-parts : (sep c : ℕ) (p : Text) → Lacks sep (c ∷ p) → (nat_beq c sep ≡ false) × Lacks sep p
Lacks-parts sep c p h = (ground (arith, h), ground (arith, h))

split_from_last :
    (sep : ℕ) (piece p : Text) → Lacks sep p → split_from (sep ∷ []) 0 piece p ≡ (piece ++ p) ∷ []
unfolding split_from
split_from_last sep piece [] h = ap (λ t. t ∷ []) (sym (append-nil piece))
split_from_last sep piece (c ∷ p) h =
    let (other, rest) = Lacks-parts sep c p h in
    rw (split_from, has_prefix_byte sep c p, other)
      (split_from_last sep (piece ++ c ∷ []) p rest
        ∙ ap (λ t. t ∷ []) (append_assoc piece (c ∷ []) p))

split_from_next :
    (sep : ℕ) (piece p rest : Text)
    → Lacks sep p
    → split_from (sep ∷ []) 0 piece (p ++ sep ∷ rest)
      ≡ (piece ++ p) ∷ split_from (sep ∷ []) 0 [] rest
unfolding split_from
split_from_next sep piece [] rest h =
    rw (split_from, has_prefix_byte sep sep rest, ==_refl sep, append-nil piece) refl
split_from_next sep piece (c ∷ p) rest h =
    let (other, lacks) = Lacks-parts sep c p h in
    rw (split_from, has_prefix_byte sep c (p ++ sep ∷ rest), other)
      (split_from_next sep (piece ++ c ∷ []) p rest lacks
        ∙ ap (λ t. t ∷ split_from (sep ∷ []) 0 [] rest) (append_assoc piece (c ∷ []) p))

-- Joined texts are split again.
split-join :
    (sep : ℕ) (p : Text) (ps : List Text)
    → All (Lacks sep) (p ∷ ps)
    → split (join sep (p ∷ ps)) (sep ∷ []) ≡ p ∷ ps
unfolding split join
split-join sep p [] (h, hs) = split_from_last sep [] p h
split-join sep p (q ∷ ps) (h, hs) =
    split_from_next sep [] p (join sep (q ∷ ps)) h ∙ ap (◌∷◌ p) (split-join sep q ps hs)

trimmed_lem :
    (cutset : Text) (ps : List Text)
    → trimmed cutset ps ≡ filter (λ p. not (is_empty p)) (map (trim cutset) ps)
unfolding trimmed
trimmed_lem cutset [] = refl
trimmed_lem cutset (p ∷ ps) = elim (Bool-cases (is_empty (trim cutset p))) [
  | inl t ↦ rw (t, trimmed_lem cutset ps) refl
  | inr f ↦ rw (f, trimmed_lem cutset ps) refl
]

-- Of texts without a separating byte, joined by it, SplitAndTrimEmpty gives the trimmed ones that
-- are not empty, in their order.
pub split_and_trim_empty-join :
    (sep : ℕ) (cutset : Text) (p : Text) (ps : List Text)
    → All (Lacks sep) (p ∷ ps)
    → split_and_trim_empty (join sep (p ∷ ps)) (sep ∷ []) cutset
      ≡ filter (λ t. not (is_empty t)) (map (trim cutset) (p ∷ ps))
unfolding split_and_trim_empty join trim
split_and_trim_empty-join sep cutset [] [] h = refl
split_and_trim_empty-join sep cutset [] (q ∷ ps) h =
    ap (trimmed cutset) (split-join sep [] (q ∷ ps) h) ∙ trimmed_lem cutset ([] ∷ q ∷ ps)
split_and_trim_empty-join sep cutset (c ∷ p) [] h =
    ap (trimmed cutset) (split-join sep (c ∷ p) [] h) ∙ trimmed_lem cutset ((c ∷ p) ∷ [])
split_and_trim_empty-join sep cutset (c ∷ p) (q ∷ ps) h =
    ap (trimmed cutset) (split-join sep (c ∷ p) (q ∷ ps) h) ∙ trimmed_lem cutset ((c ∷ p) ∷ q ∷ ps)
