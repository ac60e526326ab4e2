-- ===== src/Osmosis/Publisher/Sentinel.antt =====
-- The sentinel of MakeSentinel (internal/osmosis/publisher.go), which fails when too long passed since
-- the last event, and the loop that handleBlocks and handleTransactions run with one. A sentinel's
-- timer expires at its deadline.
use osmosis_publisher.Prelude.{
  ℤ, ◌+ℤ◌, leb_ℤ, ◌≤ℤ◌, ◌<ℤ◌, codes, List, [], ◌∷◌, Option, none, some, true, false, Option-cases,
  ◌≡◌, refl, ◌∙◌, ap, arith, inl, inr, if◌then◌else◌,
}
use osmosis_publisher.Types.{Time, Error, Result, ok, err, panic}
use osmosis_publisher.Osmosis.Publisher.{Act, ◌>>◌, pure, followed}

pub record Sentinel : Type 0 where
  pub timeout : ℤ
  pub deadline : Time
  pub last_event : Time

unfoldable pub make_sentinel : ℤ → Time → Sentinel
make_sentinel timeout now = record {
  timeout = timeout;
  deadline = now +ℤ timeout;
  last_event = now;
}

abbrev pub timed_out : Error
timed_out = codes "event subscription timed out while resetting" ∷ []

-- The function that MakeSentinel returns, at a time of now: Stop is false of an expired timer.
unfoldable pub reset_sentinel : Time → Sentinel → Option Error × Sentinel
reset_sentinel now s =
    if leb_ℤ s.deadline now
    then (some timed_out, s)
    else (none, record s { deadline = now +ℤ s.timeout; last_event = now })

module _ {X E : Type 0} where
  -- A loop over events, each with the time when it is taken, until the channel is closed.
  unfoldable pub watched : (E → Act X (Unit {0})) → List (Time × E) → Sentinel → Act X (Unit {0})
  watched step [] sentinel = pure tt
  watched step ((now, e) ∷ es) sentinel =
      let reset = reset_sentinel now sentinel in
      let rest = watched step es reset.1 in
      elim reset.0 [ some late ↦ λ s. (err late, s) | none ↦ step e >> rest ]

-- Each event comes before `timeout` has passed since the one before, the first since `last`.
abbrev pub IsInTime : {E : Type 0} → ℤ → Time → List (Time × E) → Type 0
IsInTime timeout last [] = Unit
IsInTime timeout last ((t, e) ∷ es) = (t <ℤ last +ℤ timeout) × IsInTime timeout t es

abbrev pub last_time : {E : Type 0} → Time → List (Time × E) → Time
last_time last [] = last
last_time last ((t, e) ∷ es) = last_time t es

early_reset :
    (timeout : ℤ) (last t : Time)
    → t <ℤ last +ℤ timeout
    → reset_sentinel t (make_sentinel timeout last) ≡ (none, make_sentinel timeout t)
unfolding reset_sentinel make_sentinel
early_reset timeout last t h =
    let e : leb_ℤ (last +ℤ timeout) t ≡ false = ground (arith, h) in rw (reset_sentinel, e) refl

late_reset :
    (timeout : ℤ) (last t : Time)
    → last +ℤ timeout ≤ℤ t
    → reset_sentinel t (make_sentinel timeout last) ≡ (some timed_out, make_sentinel timeout last)
unfolding reset_sentinel make_sentinel
late_reset timeout last t h =
    let e : leb_ℤ (last +ℤ timeout) t ≡ true = ground (arith, h) in rw (reset_sentinel, e) refl

module _ {X : Type 0} where
  -- What is done after an answer, on equal successes, is equal.
  pub followed_eq :
      (r : Result (Unit {0}) × X) (m k k' : Act X (Unit {0}))
      → ((s : X) → k s ≡ (m >> k') s)
      → followed r (λ a. k) ≡ followed (followed r (λ a. m)) (λ a. k')
  followed_eq (ok a, s) m k k' h = h s
  followed_eq (err e, s) m k k' h = refl
  followed_eq (panic, s) m k k' h = refl

  pub followed_same :
      (r : Result (Unit {0}) × X) (k k' : Act X (Unit {0}))
      → ((s : X) → k s ≡ k' s)
      → followed r (λ a. k) ≡ followed r (λ a. k')
  followed_same (ok a, s) k k' h = h s
  followed_same (err e, s) k k' h = refl
  followed_same (panic, s) k k' h = refl

  pub followed-pure : (r : Result (Unit {0}) × X) → followed r (λ a. pure tt) ≡ r
  followed-pure (ok a, s) = refl
  followed-pure (err e, s) = refl
  followed-pure (panic, s) = refl

  module _ {E : Type 0} (step : E → Act X (Unit {0})) (timeout : ℤ) (last t : Time) (e : E)
      (es : List (Time × E)) (s : X) where
    abbrev goes_on : Option Error × Sentinel → Result (Unit {0}) × X
    goes_on (some late, sentinel) = (err late, s)
    goes_on (none, sentinel) = followed (step e s) (λ a. watched step es sentinel)

    watched-goes_on :
        (sentinel : Sentinel)
        → watched step ((t, e) ∷ es) sentinel s ≡ goes_on (reset_sentinel t sentinel)
    unfolding watched
    watched-goes_on sentinel = elim (Option-cases (reset_sentinel t sentinel).0) [
      | inl k ↦ rw (watched, k) refl
      | inr (late, k) ↦ rw (watched, k) refl
    ]

    pub watched_early :
        t <ℤ last +ℤ timeout
        → watched step ((t, e) ∷ es) (make_sentinel timeout last) s
          ≡ followed (step e s) (λ a. watched step es (make_sentinel timeout t))
    watched_early h =
        watched-goes_on (make_sentinel timeout last) ∙ ap goes_on (early_reset timeout last t h)

    pub watched_late :
        last +ℤ timeout ≤ℤ t
        → watched step ((t, e) ∷ es) (make_sentinel timeout last) s ≡ (err timed_out, s)
    watched_late h =
        watched-goes_on (make_sentinel timeout last) ∙ ap goes_on (late_reset timeout last t h)
