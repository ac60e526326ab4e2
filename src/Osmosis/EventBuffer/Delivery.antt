-- ===== src/Osmosis/EventBuffer/Delivery.antt =====
-- The buffer between the node and a handler: what is delivered, and what is lost.
use osmosis_publisher.Prelude.{
  ℕ, ◌+◌, ◌≤◌, ◌≡◌, refl, ◌⊎◌, sym, subst, ◌∙◌, ap, List, [], ◌∷◌, ◌++◌, append-nil, append_assoc,
  length, length-append, ltb, arith, Bool-cases, inl, inr,
}
use osmosis_publisher.Osmosis.EventBuffer.{
  Buffer, Step, buffer_event, take_event, get_status, step, steps,
}

-- The events that come in during a run.
abbrev arrived : {E : Type 0} → List (Step E) → List E
arrived [] = []
arrived (Step.arrive ev ∷ os) = ev ∷ arrived os
arrived (Step.take_one ∷ os) = arrived os
arrived (Step.report ∷ os) = arrived os

-- A list with some of its elements left out.
pub data IsPart {E : Type 0} : List E → List E → Type 0 where
  done : IsPart [] []
  kept : (e : E) {xs ys : List E} → IsPart xs ys → IsPart (e ∷ xs) (e ∷ ys)
  lost : (e : E) {xs ys : List E} → IsPart xs ys → IsPart xs (e ∷ ys)

module _ {E : Type 0} where
  List-cases : (xs : List E) → (xs ≡ []) ⊎ ((x : E) × (rest : List E) × (xs ≡ x ∷ rest))
  List-cases [] = inl refl
  List-cases (x ∷ xs) = inr (x, xs, refl)

  IsPart-self : (xs : List E) → IsPart xs xs
  IsPart-self [] = done
  IsPart-self (x ∷ xs) = kept x (IsPart-self xs)

  IsPart-front : (xs : List E) {ys zs : List E} → IsPart ys zs → IsPart (xs ++ ys) (xs ++ zs)
  IsPart-front [] p = p
  IsPart-front (x ∷ xs) p = kept x (IsPart-front xs p)

  IsPart-inserted : (e : E) (xs ys zs : List E) → IsPart zs (xs ++ ys) → IsPart zs (xs ++ e ∷ ys)
  IsPart-inserted e [] ys zs p = lost e p
  IsPart-inserted e (x ∷ xs) ys zs (kept z {xs = ws} p) = kept z (IsPart-inserted e xs ys ws p)
  IsPart-inserted e (x ∷ xs) ys zs (lost z p) = lost z (IsPart-inserted e xs ys zs p)

module _ {E : Type 0} (size : ℕ) where
  step-bound : (o : Step E) (b : Buffer E) → length b.ch ≤ size → length (step size o b).1.ch ≤ size
  unfolding step buffer_event take_event get_status
  step-bound (Step.arrive ev) b h = ground (arith, length-append b.ch (ev ∷ []))
  step-bound Step.take_one b h = ground arith
  step-bound Step.report b h = h

  -- The channel never has more than its size.
  steps-bound :
      (os : List (Step E)) (b : Buffer E)
      → length b.ch ≤ size
      → length (steps size os b).1.ch ≤ size
  unfolding steps
  steps-bound [] b h = h
  steps-bound (o ∷ os) b h = steps-bound os (step size o b).1 (step-bound o b h)

  -- What a step does: its event is kept, or it is skipped and counted.
  step-cases :
      (o : Step E) (b : Buffer E)
      → (((step size o b).0 ++ (step size o b).1.ch ≡ b.ch ++ arrived (o ∷ []))
          × ((step size o b).1.evt_skip_counter ≡ b.evt_skip_counter))
        ⊎ ((ev : E) × (o ≡ Step.arrive ev)
            × ((step size o b).0 ≡ [])
            × ((step size o b).1.ch ≡ b.ch)
            × ((step size o b).1.evt_skip_counter ≡ b.evt_skip_counter + 1))
  unfolding step buffer_event take_event get_status
  step-cases (Step.arrive ev) b = elim (Bool-cases (ltb (length b.ch) size)) [
    | inl e ↦ inl (ground (arith, e), ground (arith, e))
    | inr e ↦ inr (ev, refl, refl, ground (arith, e), ground (arith, e))
  ]
  step-cases Step.take_one b = elim (List-cases b.ch) [
    | inl e ↦ inl (ground (arith, e), ground (arith, e))
    | inr (ev, rest, e) ↦ inl (ground (arith, e, append-nil (ev ∷ rest)), ground (arith, e))
  ]
  step-cases Step.report b = inl (sym (append-nil b.ch), refl)

  arrived-cons :
      (o : Step E) (os : List (Step E)) → arrived (o ∷ os) ≡ arrived (o ∷ []) ++ arrived os
  arrived-cons (Step.arrive ev) os = refl
  arrived-cons Step.take_one os = refl
  arrived-cons Step.report os = refl

  -- Events are delivered in the order in which they came, and each at most once: what was delivered
  -- and what waits are part of what waited before and what came.
  pub steps-IsPart :
      (os : List (Step E)) (b : Buffer E)
      → IsPart ((steps size os b).0 ++ (steps size os b).1.ch) (b.ch ++ arrived os)
  unfolding steps
  steps-IsPart [] b = subst (IsPart b.ch) (sym (append-nil b.ch)) (IsPart-self b.ch)
  steps-IsPart (o ∷ os) b =
      let (now, b') = step size o b in
      let (later, b'') = steps size os b' in
      let rest : IsPart (later ++ b''.ch) (b'.ch ++ arrived os) = steps-IsPart os b' in
      let front : IsPart ((now ++ later) ++ b''.ch) (now ++ (b'.ch ++ arrived os)) =
        subst (λ l. IsPart l (now ++ (b'.ch ++ arrived os))) (sym (append_assoc now later b''.ch))
          (IsPart-front now rest) in
      elim (step-cases o b) [
        | inl (e, _) ↦
            subst (IsPart ((now ++ later) ++ b''.ch))
              (sym (append_assoc now b'.ch (arrived os))
                ∙ ap (λ l. l ++ arrived os) e
                ∙ append_assoc b.ch (arrived (o ∷ [])) (arrived os)
                ∙ ap (λ l. b.ch ++ l) (sym (arrived-cons o os)))
              front
        | inr (ev, o', d, c, _) ↦
            let all = ap (λ l. l ++ (b'.ch ++ arrived os)) d ∙ ap (λ l. l ++ arrived os) c in
            let came : ev ∷ arrived os ≡ arrived (o ∷ os) = sym (ap (λ q. arrived (q ∷ os)) o') in
            subst (λ l. IsPart ((now ++ later) ++ b''.ch) (b.ch ++ l)) came
              (IsPart-inserted ev b.ch (arrived os) _
                (subst (IsPart ((now ++ later) ++ b''.ch)) all front))
      ]

  -- However the steps of the buffer and its reader alternate, the events delivered, waiting and
  -- counted as skipped are together as many as those that waited or were skipped before, and
  -- those that came.
  steps-count :
      (os : List (Step E)) (b : Buffer E)
      → length (steps size os b).0
          + length (steps size os b).1.ch
          + (steps size os b).1.evt_skip_counter
        ≡ length b.ch + b.evt_skip_counter + length (arrived os)
  unfolding steps
  steps-count [] b = omega arith
  steps-count (o ∷ os) b =
      let (now, b') = step size o b in
      let (later, b'') = steps size os b' in
      let rest = steps-count os b' in
      let joined = length-append now later in
      let more = ap length (arrived-cons o os) ∙ length-append (arrived (o ∷ [])) (arrived os) in
      elim (step-cases o b) [
        | inl (e, k) ↦
            let same =
              sym (length-append now b'.ch) ∙ ap length e ∙ length-append b.ch (arrived (o ∷ [])) in
            omega (arith, rest, joined, more, same, k)
        | inr (ev, o', d, c, k) ↦
            let none_now = ap length d in
            let waiting = ap length c in
            let came : length (arrived (o ∷ [])) ≡ 1 = ap (λ q. length (arrived (q ∷ []))) o' in
            omega (arith, rest, joined, more, none_now, waiting, came, k)
      ]
