-- ===== src/Osmosis/Publisher/Nonces.antt =====
-- The handlers of blocks, transactions, the mempool and prices keep the invariant of the publisher's numbers (internal/osmosis/publisher.go).
use osmosis_publisher.Prelude.{
  arith, ℕ, suc, ℤ, Text, codes, List, [], ◌∷◌, length, Option, none, some, ◌⊎◌, inl, inr, ◌≡◌,
  refl, Sum-cases, Option-cases,
}
use osmosis_publisher.Types.{Time, Float64, Error, Result, ok, err, panic, Result-cases}
use osmosis_publisher.Interfaces.{Block}
use osmosis_publisher.Osmosis.Messages.{
  Transaction, IbcDenomTrace, Message, translate_transaction, get_denoms_from_transactions, with_tx,
  with_metadata,
}
use osmosis_publisher.Osmosis.PoolsOfInterest.{get_pools_of_interest_statuses}
use osmosis_publisher.Osmosis.Denoms.{add_statuses, get_denoms}
use osmosis_publisher.Osmosis.Publisher.{
  Outgoing, Site, Act, ◌>>=◌, ◌>>◌, inside, new_nonce, publish,
}
use osmosis_publisher.Osmosis.Publisher.Handlers.{
  Wiring, translated, send_block, send_volume, send_transaction, send_polled, count_block,
  translate_block, receive_block, count_transaction, count_mempool, count_price, index_price,
  handle_block, avg_block_seconds, handle_monitored_pools, handle_new_block, handle_transaction,
  poll_mempool, handle_mempool_tick, handle_price_feed,
}
use osmosis_publisher.Osmosis.Publisher.Counted.{
  After, After-weaken, Holds, Holds-bind, Used, Ready, Used-weaken, Leaves-Used, Leaves-Ready,
  publish-Used, then-Used, then-Ready, then_nonce,
}

-- A translated transaction has the nonce that it was given.
with_tx_nonce :
    {S D J : Type 0} (encode_hex : Text → Text) (decode : Text → Option D)
    (messages : D → List Message) (proto : D → Option (Option J))
    (find : S → IbcDenomTrace → (Option Error × IbcDenomTrace) × S)
    (found : Option Error × IbcDenomTrace) (o : Option (Option J)) (t : Transaction J)
    → (with_tx encode_hex decode messages proto find o
        (with_metadata encode_hex decode messages proto find found t)).nonce
      ≡ t.nonce
with_tx_nonce e d m p f (none, traces) none t = refl
with_tx_nonce e d m p f (none, traces) (some j) t = refl
with_tx_nonce e d m p f (some x, traces) none t = refl
with_tx_nonce e d m p f (some x, traces) (some j) t = refl

module _ {F S D B J P : Type 0} ⦃float : Float64 F⦄ (wiring : Wiring F S D B J P) where
  translated_nonce :
      (raw : Text) (code : ℕ) (t : Text) (s : Site F S B J P)
      → After (λ tx s'. tx.nonce ≡ t) (λ s'. Unit {0}) (translated wiring raw code t s)
  unfolding translate_transaction
  translated_nonce raw code t s = elim (Option-cases (wiring.decode raw)) [
    | inl e ↦ rw (translate_transaction, e) refl
    | inr (d, e) ↦
        let r =
          get_denoms_from_transactions wiring.encode_hex wiring.decode wiring.messages wiring.proto
            wiring.find_denoms s.world d in
        elim (Result-cases r.0) [
          | inl (found, k) ↦
              rw (translate_transaction, e, k)
                (with_tx_nonce wiring.encode_hex wiring.decode wiring.messages wiring.proto
                  wiring.find_denoms found (wiring.proto d) _)
          | inr (inl (x, k)) ↦ rw (translate_transaction, e, k) tt
          | inr (inr k) ↦ rw (translate_transaction, e, k) tt
        ]
  ]

  -- Both of what holds after a step.
  After-both :
      {A : Type 0} (Q Q' : A → Site F S B J P → Type 0) (R : Site F S B J P → Type 0)
      (r : Result A × Site F S B J P)
      → After Q R r
      → After Q' (λ s. Unit {0}) r
      → After (λ a s. Q a s × Q' a s) R r
  After-both Q Q' R (ok a, s) h k = (h, k)
  After-both Q Q' R (err e, s) h k = h
  After-both Q Q' R (panic, s) h k = h

  handle_block-Used :
      (block : Block) (b : ℕ)
      → Holds (Used b) (handle_block wiring block) (λ a. Used (suc b)) (Used (suc b))
  unfolding handle_block count_block translate_block
  handle_block-Used block b =
      then-Used (count_block wiring block) (λ _. translate_block wiring block >>= send_block wiring)
        b (suc b) (omega arith) (λ a. Used (suc b))
        (λ s. (refl, (refl, λ (m, (p, (r, (n, t)))). (m, (p, (r, (omega (arith, n), t)))))))
        (λ _.
          then-Used (translate_block wiring block) (send_block wiring) b (suc b) (omega arith)
            (λ a. Used (suc b)) (λ s. (refl, (refl, λ i. i)))
            (λ out.
              then_nonce (λ t. publish (Outgoing.block_message t out) (codes "block" ∷ [])) b
                (suc b) (λ a. Used (suc b))
                (λ t.
                  publish-Used (suc b) (suc b) t (Outgoing.block_message t out) (codes "block" ∷ [])
                    refl)))

  send_volume-Used :
      (height : ℤ) (hash : Text) (b : ℕ) (t : Text)
      → Holds (Ready b t) (send_volume wiring height hash t) (λ a. Used b) (Used b)
  unfolding avg_block_seconds
  send_volume-Used height hash b t =
      then-Ready (avg_block_seconds wiring) _ b b (omega arith) (λ a. Used b) t
        (λ s. (refl, (refl, λ i. i)))
        (λ avg.
          then-Ready
            (inside (get_pools_of_interest_statuses wiring.repo wiring.rpc height wiring.pool_ids))
            _ b b (omega arith) (λ a. Used b) t (λ s. (refl, (refl, λ i. i)))
            (λ found.
              then-Ready (inside (get_denoms wiring.repo wiring.rpc (add_statuses [] found.0)))
                (λ traces.
                  publish (Outgoing.volume_message t height hash avg found.0 traces)
                    (codes "volume" ∷ codes "pool" ∷ []))
                b b (omega arith) (λ a. Used b) t (λ s. (refl, (refl, λ i. i)))
                (λ traces.
                  publish-Used b b t (Outgoing.volume_message t height hash avg found.0 traces)
                    (codes "volume" ∷ codes "pool" ∷ []) refl)))

  handle_monitored_pools-Used :
      (height : ℤ) (hash : Text) (b : ℕ)
      → Holds
          (Used b)
          (handle_monitored_pools wiring height hash)
          (λ a. Used (suc b))
          (Used (suc b))
  unfolding handle_monitored_pools
  handle_monitored_pools-Used height hash b =
      then_nonce (send_volume wiring height hash) b (suc b) (λ a. Used (suc b))
        (λ t. send_volume-Used height hash (suc b) t)

  pub handle_new_block-Used :
      (block : Block) (now : Time) (b : ℕ)
      → Holds
          (Used b)
          (handle_new_block wiring block now)
          (λ a. Used (suc (suc b)))
          (Used (suc (suc b)))
  unfolding handle_new_block receive_block
  handle_new_block-Used block now b =
      then-Used (receive_block wiring block now)
        (λ _. handle_block wiring block >> handle_monitored_pools wiring block.height block.hash) b
        (suc (suc b)) (omega arith) (λ a. Used (suc (suc b))) (λ s. (refl, (refl, λ i. i)))
        (λ _.
          Holds-bind (Used b) (λ a. Used (suc b)) (λ a. Used (suc (suc b))) (Used (suc (suc b)))
            (handle_block wiring block) (λ _. handle_monitored_pools wiring block.height block.hash)
            (λ s u.
              After-weaken (suc b) (suc (suc b)) (omega arith) (λ a. Used (suc b))
                (handle_block wiring block s) (handle_block-Used block b s u))
            (λ _. handle_monitored_pools-Used block.height block.hash (suc b)))

  pub handle_transaction-Used :
      (raw : Text) (code b : ℕ)
      → Holds (Used b) (handle_transaction wiring raw code) (λ a. Used (suc b)) (Used (suc b))
  unfolding handle_transaction count_transaction
  handle_transaction-Used raw code b =
      then-Used (count_transaction wiring) (λ _. new_nonce >>= send_transaction wiring raw code) b
        (suc b) (omega arith) (λ a. Used (suc b))
        (λ s. (refl, (refl, λ (m, (p, (r, (n, t)))). (m, (p, (r, (n, omega (arith, t))))))))
        (λ _.
          then_nonce (send_transaction wiring raw code) b (suc b) (λ a. Used (suc b))
            (λ t.
              Holds-bind (Ready (suc b) t) (λ tx s. Ready (suc b) t s × (tx.nonce ≡ t))
                (λ a. Used (suc b)) (Used (suc b)) (translated wiring raw code t)
                (λ tx. publish (Outgoing.tx_message tx) (codes "tx" ∷ []))
                (λ s u.
                  After-both (λ tx. Ready (suc b) t) (λ tx s'. tx.nonce ≡ t) (Used (suc b))
                    (translated wiring raw code t s)
                    (Leaves-Ready (translated wiring raw code t) (suc b) (suc b) t (omega arith)
                      (λ s'. (refl, (refl, λ i. i))) s u)
                    (translated_nonce raw code t s))
                (λ tx s (u, same).
                  publish-Used (suc b) (suc b) t (Outgoing.tx_message tx) (codes "tx" ∷ []) same s
                    u)))

  send_polled-Used :
      (polled : List (Transaction J) ⊎ Error) (b : ℕ)
      → Holds (Used b) (send_polled wiring polled) (λ a. Used (suc b)) (Used (suc b))
  unfolding count_mempool
  send_polled-Used (inr e) b = λ s u. Used-weaken b (suc b) s (omega arith) u
  send_polled-Used (inl []) b = λ s u. Used-weaken b (suc b) s (omega arith) u
  send_polled-Used (inl (tx ∷ txs)) b =
      let send : Text → Act (Site F S B J P) (Unit {0}) =
        λ t. publish (Outgoing.mempool_message t (tx ∷ txs)) (codes "mempool" ∷ []) in
      then-Used (count_mempool wiring (length (tx ∷ txs))) (λ _. new_nonce >>= send) b (suc b)
        (omega arith) (λ a. Used (suc b)) (λ s. (refl, (refl, λ i. i)))
        (λ _.
          then_nonce send b (suc b) (λ a. Used (suc b))
            (λ t.
              publish-Used (suc b) (suc b) t (Outgoing.mempool_message t (tx ∷ txs))
                (codes "mempool" ∷ []) refl))

  pub handle_mempool_tick-Used :
      (b : ℕ) → Holds (Used b) (handle_mempool_tick wiring) (λ a. Used (suc b)) (Used (suc b))
  unfolding handle_mempool_tick poll_mempool
  handle_mempool_tick-Used b =
      then-Used (poll_mempool wiring) (send_polled wiring) b (suc b) (omega arith)
        (λ a. Used (suc b)) (λ s. (refl, (refl, λ i. i))) (λ polled. send_polled-Used polled b)

  pub handle_price_feed-Used :
      (subject body : Text) (b : ℕ)
      → Holds (Used b) (handle_price_feed wiring subject body) (λ a. Used b) (Used b)
  unfolding handle_price_feed count_price index_price
  handle_price_feed-Used subject body b s u = elim (Sum-cases (wiring.unmarshal_quote body)) [
    | inr (e, k) ↦ rw (handle_price_feed, k) u
    | inl ((value, last_updated), k) ↦
        rw (handle_price_feed, k)
          (then-Used (count_price wiring) (λ _. index_price wiring subject value last_updated) b b
            (omega arith) (λ a. Used b) (λ s. (refl, (refl, λ i. i)))
            (λ _.
              Leaves-Used (index_price wiring subject value last_updated) b b (omega arith)
                (λ s. (refl, (refl, λ i. i))))
            s u)
  ]
