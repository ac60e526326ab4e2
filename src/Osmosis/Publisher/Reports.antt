-- ===== src/Osmosis/Publisher/Reports.antt =====
-- What the publisher's messages and reports have in common over any sequence of events
-- (internal/osmosis/publisher.go, NewNonce and getStatus).
use osmosis_publisher.Prelude.{
  arith, ℕ, suc, ◌+◌, ◌*◌, ◌%◌, ◌<◌, ◌≤◌, ◌^◌, lt→ltb, subst, to_int64, word, half_word, List, [],
  ◌∷◌, map, length, All, Distinct, contains, ==_cases, text_eq, decimal, value, value-digits, false,
  inl, inr, ◌≡◌, refl, sym, ap, ◌∙◌,
}
use osmosis_publisher.Types.{Float64, Result, ok, err, panic}
use osmosis_publisher.Osmosis.PoolsOfInterest.{extract_unique_pool_ids}
use osmosis_publisher.Osmosis.Publisher.{Site, sprint, get_status}
use osmosis_publisher.Osmosis.Publisher.Handlers.{Wiring, handle_other_event}
use osmosis_publisher.Osmosis.Publisher.PoolEvents.{handle_pool_event}
use osmosis_publisher.Osmosis.Publisher.Events.{Event, handle, handle_all}
use osmosis_publisher.Osmosis.Publisher.Counted.{
  After, After-weaken, Holds, Holds-bind, nonce_at, nonces, Falls, sum, Used, Used-weaken,
  Leaves-Used,
}
use osmosis_publisher.Osmosis.Publisher.Nonces.{
  handle_new_block-Used, handle_transaction-Used, handle_mempool_tick-Used, handle_price_feed-Used,
}
use osmosis_publisher.Osmosis.Publisher.PoolNonces.{find_pools-Used}

nonce_at_small : (n : ℕ) → n < half_word → nonce_at n ≡ decimal n
unfolding nonce_at sprint to_int64
nonce_at_small n h =
    let same : n % word ≡ n = omega (arith, h) in rw (same, lt→ltb n half_word h) refl

value-decimal : (n : ℕ) → value (decimal n) 0 ≡ n
unfolding decimal
value-decimal n = value-digits (suc n) n (omega arith)

nonce_at_inj : (j k : ℕ) → j < half_word → k < half_word → nonce_at j ≡ nonce_at k → j ≡ k
nonce_at_inj j k hj hk e =
    let same = sym (nonce_at_small j hj) ∙ e ∙ nonce_at_small k hk in
    sym (value-decimal j) ∙ ap (λ t. value t 0) same ∙ value-decimal k

not_among :
    (k : ℕ) (ks : List ℕ) (b : ℕ)
    → k < half_word
    → Falls b ks
    → b ≤ k
    → contains (map nonce_at ks) (nonce_at k) ≡ false
not_among k [] b h f le = refl
not_among k (j ∷ ks) b h (lt, f) le = elim (==_cases (nonce_at j) (nonce_at k)) [
  | inl (t, e) ↦
      let same = nonce_at_inj j k (omega (arith, lt, le, h)) h e in
      absurd (omega (arith, same, lt, le))
  | inr (t, n) ↦ rw t (not_among k ks j h f (omega (arith, lt, le)))
]

Falls-Distinct : (b : ℕ) (ks : List ℕ) → b ≤ half_word → Falls b ks → Distinct (map nonce_at ks)
Falls-Distinct b [] h f = tt
Falls-Distinct b (k ∷ ks) h (lt, f) = (
  not_among k ks k (omega (arith, lt, h)) f (omega arith),
  Falls-Distinct k ks (omega (arith, lt, h)) f,
)

module _ {F S D B J P : Type 0} ⦃float : Float64 F⦄ (wiring : Wiring F S D B J P) where
  -- A handler takes at most two nonces.
  After-two :
      (b c : ℕ)
      → b ≤ c
      → (r : Result (Unit {0}) × Site F S B J P) → After (λ a. Used b) (Used b) r
      → After (λ a. Used c) (Used c) r
  After-two b c le (ok a, s) h = Used-weaken b c s le h
  After-two b c le (err e, s) h = Used-weaken b c s le h
  After-two b c le (panic, s) h = Used-weaken b c s le h

  handle-Used :
      (e : Event) (b : ℕ) → Holds (Used b) (handle wiring e) (λ a. Used (2 + b)) (Used (2 + b))
  unfolding handle handle_other_event handle_pool_event get_status
  handle-Used (Event.new_block block now) b = λ s u.
      After-two (suc (suc b)) (2 + b) (omega arith) (handle wiring (Event.new_block block now) s)
        (handle_new_block-Used wiring block now b s u)
  handle-Used (Event.transaction raw code) b = λ s u.
      After-two (suc b) (2 + b) (omega arith) (handle wiring (Event.transaction raw code) s)
        (handle_transaction-Used wiring raw code b s u)
  handle-Used Event.other_event b = λ s u.
      After-two b (2 + b) (omega arith) (handle wiring Event.other_event s) (
        Leaves-Used (handle_other_event wiring) b b (omega arith) (λ s. (refl, (refl, λ i. i))) s u)
  handle-Used Event.mempool_tick b = λ s u.
      After-two (suc b) (2 + b) (omega arith) (handle wiring Event.mempool_tick s)
        (handle_mempool_tick-Used wiring b s u)
  handle-Used (Event.price_message subject body) b = λ s u.
      After-two b (2 + b) (omega arith) (handle wiring (Event.price_message subject body) s)
        (handle_price_feed-Used wiring subject body b s u)
  handle-Used (Event.pool_event events) b = λ s u.
      After-two (suc b) (2 + b) (omega arith) (handle wiring (Event.pool_event events) s)
        (find_pools-Used wiring events (extract_unique_pool_ids events) b s u)
  handle-Used Event.status b = λ s u.
      After-two b (2 + b) (omega arith) (handle wiring Event.status s) (
        Leaves-Used get_status b b (omega arith)
          (λ s. (
            refl,
            (
              refl,
              λ (m, (p, (r, (n, t)))). (m, (refl, ((p, r), (omega (arith, n), omega (arith, t))))),
            ),
          ))
          s u)

  After-state :
      (b : ℕ) (r : Result (Unit {0}) × Site F S B J P) → After (λ a. Used b) (Used b) r → Used b r.1
  After-state b (ok a, s) h = h
  After-state b (err e, s) h = h
  After-state b (panic, s) h = h

  handle_all-Used :
      (es : List Event) (b : ℕ)
      → Holds
          (Used b)
          (handle_all wiring es)
          (λ a. Used (2 * length es + b))
          (Used (2 * length es + b))
  unfolding handle_all
  handle_all-Used [] b = λ s u. Used-weaken b (0 + b) s (omega arith) u
  handle_all-Used (e ∷ es) b = λ s u.
      let c = 2 * suc (length es) + b in
      Holds-bind (Used b) (λ a. Used (2 + b)) (λ a. Used c) (Used c) (handle wiring e)
        (λ _. handle_all wiring es)
        (λ s u.
          After-weaken (2 + b) c (omega arith) (λ a. Used (2 + b)) (handle wiring e s)
            (handle-Used e b s u))
        (λ _ s u.
          After-two (2 * length es + (2 + b)) c (omega arith) (handle_all wiring es s)
            (handle_all-Used es (2 + b) s u))
        s u

  -- A site where nothing was published or reported yet.
  abbrev IsFresh : Site F S B J P → Type 0
  IsFresh s =
      (s.sent ≡ [])
      × ((s.reports ≡ [])
          × ((s.publisher.counter ≡ 0)
              × ((s.publisher.messages_total ≡ 0)
                  × ((s.publisher.published_messages ≡ 0)
                      × ((s.publisher.block_counter ≡ 0)
                          × ((s.publisher.blocks_total ≡ 0)
                              × ((s.publisher.tx_counter ≡ 0)
                                  × (s.publisher.transactions_total ≡ 0))))))))

  fresh-Used : (s : Site F S B J P) → IsFresh s → Used 0 s
  fresh-Used s (sent, (reports, (c, (m, (p, (b, (bt, (t, tt')))))))) = (
    0,
    (
      [],
      (
        c,
        (
          omega arith,
          (
            tt,
            (
              ap nonces sent,
              (
                rw (m, sent) refl,
                (p, (rw reports tt, (rw (reports, b, bt) refl, rw (reports, t, tt') refl))),
              ),
            ),
          ),
        ),
      ),
    ),
  )

  Used-after :
      (es : List Event) (s : Site F S B J P)
      → IsFresh s
      → Used (2 * length es + 0) (handle_all wiring es s).1
  Used-after es s fresh =
      After-state (2 * length es + 0) (handle_all wiring es s)
        (handle_all-Used es 0 s (fresh-Used s fresh))

  -- From a publisher that has published nothing, over any sequence of fewer than 2 ^ 61 events, also
  -- if one of them panics, no two messages that were published have the same nonce.
  pub nonces-Distinct :
      (es : List Event) (s : Site F S B J P)
      → IsFresh s
      → length es < 2 ^ 61
      → Distinct (nonces (handle_all wiring es s).1.sent)
  nonces-Distinct es s fresh few =
      let (n, (ks, (c, (le, (falls, (e, i)))))) = Used-after es s fresh in
      subst Distinct (sym e) (Falls-Distinct (suc n) ks (omega (arith, le, few)) falls)

  -- From a publisher that has published nothing, over any sequence of events, every report says
  -- that no message was published, and so would the next, while the total counts each message.
  pub reported_published :
      (es : List Event) (s : Site F S B J P)
      → IsFresh s
      → let s' = (handle_all wiring es s).1 in
        All (λ r. r.published ≡ 0) s'.reports
        × ((s'.publisher.published_messages ≡ 0) × (s'.publisher.messages_total ≡ length s'.sent))
  reported_published es s fresh =
      let (n, (ks, (c, (le, (falls, (e, (m, (p, (r, i))))))))) = Used-after es s fresh in
      (r, (p, m))

  -- From a publisher that has counted nothing, over any sequence of events, the blocks that were
  -- reported and those to be reported next add up to the total of blocks, as uint64, and likewise
  -- the transactions.
  pub reported_total :
      (es : List Event) (s : Site F S B J P)
      → IsFresh s
      → let s' = (handle_all wiring es s).1 in
        ((sum (map (λ r. r.blocks) s'.reports) + s'.publisher.block_counter) % word
          ≡ s'.publisher.blocks_total % word)
        × ((sum (map (λ r. r.txs) s'.reports) + s'.publisher.tx_counter) % word
            ≡ s'.publisher.transactions_total % word)
  reported_total es s fresh =
      let (n, (ks, (c, (le, (falls, (e, (m, (p, (r, i))))))))) = Used-after es s fresh in i
