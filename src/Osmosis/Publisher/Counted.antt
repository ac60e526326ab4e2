-- ===== src/Osmosis/Publisher/Counted.antt =====
-- What the steps of the publisher leave true: a triple for steps that may fail or panic, its rules,
-- and the invariant that the numbers of the messages and the reports satisfy.
use osmosis_publisher.Prelude.{
  arith, ℕ, suc, ◌+◌, ◌%◌, ◌<◌, ◌≤◌, add64, to_int64, word, Text, List, [], ◌∷◌, map, length, All,
  ◌≡◌, ap, ◌∙◌,
}
use osmosis_publisher.Types.{Result, ok, err, panic}
use osmosis_publisher.Osmosis.Publisher.{
  Outgoing, Site, Act, ◌>>=◌, sprint, new_nonce, publish, followed,
}

module _ {X A : Type 0} where
  -- What holds of the answer and the state after a step: `Q` if it succeeds, and else `R`.
  abbrev pub After : (A → X → Type 0) → (X → Type 0) → Result A × X → Type 0
  After Q R (ok a, s) = Q a s
  After Q R (err e, s) = R s
  After Q R (panic, s) = R s

  abbrev pub Holds : (X → Type 0) → Act X A → (A → X → Type 0) → (X → Type 0) → Type 0
  Holds P m Q R = (s : X) → P s → After Q R (m s)

module _ {X A C : Type 0} where
  After-followed :
      (Q : A → X → Type 0) (Q' : C → X → Type 0) (R : X → Type 0) (r : Result A × X)
      (k : A → Act X C)
      → After Q R r
      → ((a : A) → Holds (Q a) (k a) Q' R)
      → After Q' R (followed r k)
  After-followed Q Q' R (ok a, s) k h next = next a s h
  After-followed Q Q' R (err e, s) k h next = h
  After-followed Q Q' R (panic, s) k h next = h

  pub Holds-bind :
      (P : X → Type 0) (Q : A → X → Type 0) (Q' : C → X → Type 0) (R : X → Type 0) (m : Act X A)
      (k : A → Act X C)
      → Holds P m Q R
      → ((a : A) → Holds (Q a) (k a) Q' R)
      → Holds P (m >>= k) Q' R
  Holds-bind P Q Q' R m k h next s p = After-followed Q Q' R (m s) k (h s p) next

-- The nonce of a number of nonces taken.
unfoldable pub nonce_at : ℕ → Text
unfolding sprint
nonce_at n = sprint (to_int64 (n % word))

-- Numbers that fall, below a bound.
abbrev pub Falls : ℕ → List ℕ → Type 0
Falls b [] = Unit
Falls b (k ∷ ks) = (k < b) × Falls k ks

Falls-weaken : (b b' : ℕ) (ks : List ℕ) → b ≤ b' → Falls b ks → Falls b' ks
Falls-weaken b b' [] h f = tt
Falls-weaken b b' (k ∷ ks) h (lt, f) = (omega arith, f)

abbrev pub sum : List ℕ → ℕ
sum [] = 0
sum (n ∷ ns) = n + sum ns

module _ {F B J P : Type 0} where
  abbrev nonce_of : Outgoing F B J P → Text
  nonce_of (Outgoing.block_message nonce b) = nonce
  nonce_of (Outgoing.tx_message tx) = tx.nonce
  nonce_of (Outgoing.mempool_message nonce txs) = nonce
  nonce_of (Outgoing.volume_message nonce height hash avg ps traces) = nonce
  nonce_of (Outgoing.pools_message nonce height hash avg events pools ps traces) = nonce

  abbrev pub nonces : List (Outgoing F B J P × List Text) → List Text
  nonces = map (λ m. nonce_of m.0)

module _ {F S B J P : Type 0} where
  -- The messages are counted, none as published, and the blocks and transactions are those of the
  -- reports and those to report next.
  abbrev IsCounted : Site F S B J P → Type 0
  IsCounted s =
      (s.publisher.messages_total ≡ length s.sent)
      × ((s.publisher.published_messages ≡ 0)
          × (All (λ r. r.published ≡ 0) s.reports
              × (((sum (map (λ r. r.blocks) s.reports) + s.publisher.block_counter) % word
                    ≡ s.publisher.blocks_total % word)
                  × ((sum (map (λ r. r.txs) s.reports) + s.publisher.tx_counter) % word
                      ≡ s.publisher.transactions_total % word))))

  -- The nonces of the messages are those of numbers that fall from the latest that was taken.
  abbrev pub Used : ℕ → Site F S B J P → Type 0
  Used b s =
      (n : ℕ) × ((ks : List ℕ) × ((s.publisher.counter ≡ n % word)
          × ((n ≤ b) × (Falls (suc n) ks × ((nonces s.sent ≡ map nonce_at ks) × IsCounted s)))))

  -- As before, and the latest nonce is `t`, and not yet used.
  abbrev pub Ready : ℕ → Text → Site F S B J P → Type 0
  Ready b t s =
      (n : ℕ) × ((ks : List ℕ) × ((s.publisher.counter ≡ n % word)
          × ((n ≤ b)
              × (Falls n ks
                  × ((nonces s.sent ≡ map nonce_at ks) × (IsCounted s × (t ≡ nonce_at n)))))))

  -- A step that takes no nonce and publishes nothing.
  abbrev Leaves : {A : Type 0} → Act (Site F S B J P) A → Type 0
  Leaves m =
      (s : Site F S B J P)
      → ((m s).1.publisher.counter ≡ s.publisher.counter)
        × (((m s).1.sent ≡ s.sent) × (IsCounted s → IsCounted (m s).1))

  Used-Ready : (b : ℕ) (t : Text) (s : Site F S B J P) → Ready b t s → Used b s
  Used-Ready b t s (n, (ks, (c, (h, (f, (e, (i, q))))))) =
      (n, (ks, (c, (h, (Falls-weaken n (suc n) ks (omega arith) f, (e, i))))))

  pub Used-weaken : (b b' : ℕ) (s : Site F S B J P) → b ≤ b' → Used b s → Used b' s
  Used-weaken b b' s h (n, (ks, (c, (k, r)))) = (n, (ks, (c, (omega arith, r))))

  module _ {A : Type 0} where
    pub After-weaken :
        (b b' : ℕ)
        → b ≤ b'
        → (Q : A → Site F S B J P → Type 0) (r : Result A × Site F S B J P) → After Q (Used b) r
        → After Q (Used b') r
    After-weaken b b' le Q (ok a, s) h = h
    After-weaken b b' le Q (err e, s) h = Used-weaken b b' s le h
    After-weaken b b' le Q (panic, s) h = Used-weaken b b' s le h

    -- A state that satisfies a property of successes and failures alike.
    After-always :
        (Q : A → Site F S B J P → Type 0) (R : Site F S B J P → Type 0)
        (r : Result A × Site F S B J P)
        → ((a : A) → Q a r.1)
        → R r.1
        → After Q R r
    After-always Q R (ok a, s) q p = q a
    After-always Q R (err e, s) q p = p
    After-always Q R (panic, s) q p = p

    pub Leaves-Used :
        (m : Act (Site F S B J P) A) (b b' : ℕ)
        → b ≤ b'
        → Leaves m
        → Holds (Used b) m (λ a. Used b) (Used b')
    Leaves-Used m b b' le leaves s (n, (ks, (c, (h, (f, (e, i)))))) =
        let (same, (kept, counts)) = leaves s in
        let after : Used b (m s).1 =
          (n, (ks, (same ∙ c, (h, (f, (ap nonces kept ∙ e, counts i)))))) in
        After-always (λ a. Used b) (Used b') (m s) (λ a. after) (Used-weaken b b' (m s).1 le after)

    pub Leaves-Ready :
        (m : Act (Site F S B J P) A) (b b' : ℕ) (t : Text)
        → b ≤ b'
        → Leaves m
        → Holds (Ready b t) m (λ a. Ready b t) (Used b')
    Leaves-Ready m b b' t le leaves s (n, (ks, (c, (h, (f, (e, (i, q))))))) =
        let (same, (kept, counts)) = leaves s in
        let after : Ready b t (m s).1 =
          (n, (ks, (same ∙ c, (h, (f, (ap nonces kept ∙ e, (counts i, q))))))) in
        After-always (λ a. Ready b t) (Used b') (m s) (λ a. after)
          (Used-weaken b b' (m s).1 le (Used-Ready b t (m s).1 after))

  new_nonce-Ready : (b b' : ℕ) → Holds (Used b) new_nonce (Ready (suc b)) (Used b')
  unfolding new_nonce nonce_at
  new_nonce-Ready b b' s (n, (ks, (c, (h, (f, (e, i)))))) =
      let next : add64 s.publisher.counter 1 ≡ suc n % word = omega (arith, c) in
      (suc n, (ks, (next, (omega arith, (f, (e, (i, ap (λ k. sprint (to_int64 k)) next)))))))

  pub publish-Used :
      (b b' : ℕ) (t : Text) (m : Outgoing F B J P) (suffixes : List Text)
      → nonce_of m ≡ t
      → Holds (Ready b t) (publish m suffixes) (λ a. Used b) (Used b')
  unfolding publish
  publish-Used b b' t m suffixes same s (n, (ks, (c, (h, (f, (e, ((count, i), q))))))) =
      (n, (n ∷ ks, (c, (h, ((omega arith, f), (cc, (omega (arith, count), i)))))))

  module _ {A C : Type 0} (m : Act (Site F S B J P) A) (k : A → Act (Site F S B J P) C) (b b' : ℕ)
      (le : b ≤ b') (Q : C → Site F S B J P → Type 0) where
    -- A step that leaves the numbers alone may come first, before a nonce is taken or after.
    pub then-Used :
        Leaves m
        → ((a : A) → Holds (Used b) (k a) Q (Used b'))
        → Holds (Used b) (m >>= k) Q (Used b')
    then-Used leaves =
        Holds-bind (Used b) (λ a. Used b) Q (Used b') m k (Leaves-Used m b b' le leaves)

    pub then-Ready :
        (t : Text)
        → Leaves m
        → ((a : A) → Holds (Ready b t) (k a) Q (Used b'))
        → Holds (Ready b t) (m >>= k) Q (Used b')
    then-Ready t leaves =
        Holds-bind (Ready b t) (λ a. Ready b t) Q (Used b') m k (Leaves-Ready m b b' t le leaves)

  pub then_nonce :
      {C : Type 0} (k : Text → Act (Site F S B J P) C) (b b' : ℕ) (Q : C → Site F S B J P → Type 0)
      → ((t : Text) → Holds (Ready (suc b) t) (k t) Q (Used b'))
      → Holds (Used b) (new_nonce >>= k) Q (Used b')
  then_nonce k b b' Q =
      Holds-bind (Used b) (Ready (suc b)) Q (Used b') new_nonce k (new_nonce-Ready b b')
