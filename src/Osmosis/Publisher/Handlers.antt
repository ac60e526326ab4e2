-- ===== src/Osmosis/Publisher/Handlers.antt =====
-- The handlers of the publisher: internal/osmosis/subscriptions.block.go, subscriptions.tx.go,
-- subscriptions.price.go, handleMonitoredPools, and the tick of the mempool in publisher.go's Start.
use osmosis_publisher.Prelude.{
  ℕ, ◌+◌, ◌-◌, ℤ, pos, ◌*ℤ◌, add64, to_uint64, Text, codes, split, List, [], ◌∷◌, length, get_or,
  Option, some, ◌⊎◌, inl, inr,
}
use osmosis_publisher.Types.{Time, Float64, Error, Result, ok, err, panic, nanos_per_second}
use osmosis_publisher.Interfaces.{Block, Repository, ExpectedRpc}
use osmosis_publisher.Indexer.{World}
use osmosis_publisher.Indexer.BlockClock.{set_latest_block_height, average_block_time}
use osmosis_publisher.Indexer.Syncing.{set_latest_price}
use osmosis_publisher.Osmosis.Messages.{Message, IbcDenomTrace, Transaction, translate_transaction}
use osmosis_publisher.Osmosis.Mempool.{Unconfirmed, mempool}
use osmosis_publisher.Osmosis.PoolsOfInterest.{get_pools_of_interest_statuses}
use osmosis_publisher.Osmosis.Denoms.{add_statuses, get_denoms}
use osmosis_publisher.Osmosis.Publisher.{
  Outgoing, Site, Act, ◌>>=◌, ◌>>◌, pure, inside, update, new_nonce, publish,
}

-- What the publisher is wired to: the repository and the client, the client's field getDenoms, the
-- node's mempool and pools, the ids of the pools to monitor, and what reads and prints the data.
pub record Wiring (F S D B J P : Type 0) : Type 0 where
  pub repo : Repository F S
  pub rpc : ExpectedRpc S
  pub find_denoms : World F S → IbcDenomTrace → (Option Error × IbcDenomTrace) × World F S
  pub unconfirmed_txs : S → Result Unconfirmed × S
  pub pools_at : S → ℤ → List ℕ → Result (List P) × S
  pub pool_ids : List ℕ
  pub hash : Text → Text
  pub encode_hex : Text → Text
  pub decode : Text → Option D
  pub messages : D → List Message
  pub proto : D → Option (Option J)
  pub to_proto : Block → B ⊎ Error
  pub unmarshal_quote : Text → (F × ℤ) ⊎ Error

module _ {F S D B J P : Type 0} ⦃float : Float64 F⦄ (wiring : Wiring F S D B J P) where
  unfoldable pub count_block : Block → Act (Site F S B J P) (Unit {0})
  count_block block = update (λ p. record p {
    block_counter = add64 p.block_counter 1;
    block_height = block.height;
    blocks_total = p.blocks_total + 1;
  })

  -- translateBlock, which panics where the block has no protobuf.
  unfoldable pub translate_block : Block → Act (Site F S B J P) B
  translate_block block s = (elim (wiring.to_proto block) [ inl b ↦ ok b | inr e ↦ panic ], s)

  abbrev pub send_block : B → Act (Site F S B J P) (Unit {0})
  send_block out =
      new_nonce >>= λ nonce. publish (Outgoing.block_message nonce out) (codes "block" ∷ [])

  -- handleBlock
  unfoldable pub handle_block : Block → Act (Site F S B J P) (Unit {0})
  unfolding count_block translate_block new_nonce publish
  handle_block block = count_block block >> (translate_block block >>= send_block)

  -- p.indexer.AverageBlockTime().Seconds()
  unfoldable pub avg_block_seconds : Act (Site F S B J P) F
  avg_block_seconds s = (ok (float.seconds (average_block_time s.world.indexer)), s)

  -- What follows the nonce in handleMonitoredPools: errors of the statuses are logged.
  abbrev pub send_volume : ℤ → Text → Text → Act (Site F S B J P) (Unit {0})
  send_volume height hash nonce = do
    avg ← avg_block_seconds
    found ← inside (get_pools_of_interest_statuses wiring.repo wiring.rpc height wiring.pool_ids)
    traces ← inside (get_denoms wiring.repo wiring.rpc (add_statuses [] found.0))
    publish (Outgoing.volume_message nonce height hash avg found.0 traces)
        (codes "volume" ∷ codes "pool" ∷ [])

  -- handleMonitoredPools
  unfoldable pub handle_monitored_pools : ℤ → Text → Act (Site F S B J P) (Unit {0})
  unfolding new_nonce publish avg_block_seconds
  handle_monitored_pools height hash = new_nonce >>= send_volume height hash

  unfoldable pub receive_block : Block → Time → Act (Site F S B J P) (Unit {0})
  receive_block block now s = (
    ok tt,
    record s {
      world = record s.world {
        indexer =
            set_latest_block_height s.world.indexer
              (record { height = to_uint64 block.height; block_time = block.time; now = now });
      };
    },
  )

  -- handleBlocks on a new block, at a time of now.
  unfoldable pub handle_new_block : Block → Time → Act (Site F S B J P) (Unit {0})
  unfolding receive_block handle_block handle_monitored_pools
  handle_new_block block now =
      receive_block block now
      >> (handle_block block >> handle_monitored_pools block.height block.hash)

  unfoldable pub count_transaction : Act (Site F S B J P) (Unit {0})
  count_transaction = update (λ p. record p {
    tx_counter = add64 p.tx_counter 1;
    transactions_total = p.transactions_total + 1;
  })

  abbrev pub translated : Text → ℕ → Text → Act (Site F S B J P) (Transaction J)
  translated raw code nonce = inside (λ w.
      translate_transaction wiring.encode_hex wiring.decode wiring.messages wiring.proto
        wiring.find_denoms w raw (wiring.hash raw) nonce (some code))

  abbrev pub send_transaction : Text → ℕ → Text → Act (Site F S B J P) (Unit {0})
  send_transaction raw code nonce =
      translated raw code nonce >>= λ tx. publish (Outgoing.tx_message tx) (codes "tx" ∷ [])

  -- handleTransaction: the raw transaction and the code of its result.
  unfoldable pub handle_transaction : Text → ℕ → Act (Site F S B J P) (Unit {0})
  unfolding count_transaction new_nonce publish
  handle_transaction raw code = count_transaction >> (new_nonce >>= send_transaction raw code)

  -- An event of another type than the one that was subscribed to.
  unfoldable pub handle_other_event : Act (Site F S B J P) (Unit {0})
  handle_other_event = update (λ p. record p { evt_other_counter = add64 p.evt_other_counter 1 })

  -- rpc.Mempool, with the set of the client.
  unfoldable pub poll_mempool : Act (Site F S B J P) (List (Transaction J) ⊎ Error)
  poll_mempool s =
      let answer = wiring.unconfirmed_txs s.world.outside in
      let w = record s.world { outside = answer.1 } in
      let (txs, set, w') =
        mempool wiring.hash wiring.encode_hex wiring.decode wiring.messages wiring.proto
          wiring.find_denoms s.publisher.mempool_set w answer.0 in
      (
        elim txs [ ok found ↦ ok (inl found) | err e ↦ ok (inr e) | panic ↦ panic ],
        record s { publisher = record s.publisher { mempool_set = set }; world = w' },
      )

  unfoldable pub count_mempool : ℕ → Act (Site F S B J P) (Unit {0})
  count_mempool n = update (λ p. record p {
    mempool_messages = add64 p.mempool_messages n;
    mempool_total = p.mempool_total + n;
  })

  abbrev send_mempool : List (Transaction J) → Act (Site F S B J P) (Unit {0})
  send_mempool txs =
      count_mempool (length txs)
      >> (new_nonce >>= λ nonce.
          publish (Outgoing.mempool_message nonce txs) (codes "mempool" ∷ []))

  abbrev pub send_polled : List (Transaction J) ⊎ Error → Act (Site F S B J P) (Unit {0})
  send_polled (inr e) = pure tt
  send_polled (inl []) = pure tt
  send_polled (inl (tx ∷ txs)) = send_mempool (tx ∷ txs)

  -- A tick of the mempool: a failure is logged, and no transactions are not published.
  unfoldable pub handle_mempool_tick : Act (Site F S B J P) (Unit {0})
  unfolding poll_mempool count_mempool new_nonce publish
  handle_mempool_tick = poll_mempool >>= send_polled

  unfoldable pub count_price : Act (Site F S B J P) (Unit {0})
  count_price = update (λ p. record p { prices_total = p.prices_total + 1 })

  -- The token is the last part of the subject.
  unfoldable pub index_price : Text → F → ℤ → Act (Site F S B J P) (Unit {0})
  index_price subject value last_updated s =
      let parts = split subject (codes ".") in
      (
        ok tt,
        record s {
          world =
              set_latest_price wiring.repo (get_or parts (length parts - 1) []) (codes "USD") value
                (last_updated *ℤ pos nanos_per_second) s.world;
        },
      )

  -- handlePriceFeed
  unfoldable pub handle_price_feed : Text → Text → Act (Site F S B J P) (Unit {0})
  unfolding count_price index_price
  handle_price_feed subject body = elim (wiring.unmarshal_quote body) [
    | inr e ↦ pure tt
    | inl (value, last_updated) ↦ count_price >> index_price subject value last_updated
  ]
