-- ===== src/Osmosis/Publisher/PoolEvents.antt =====
-- handlePoolSubscriptions (internal/osmosis/subscriptions.pools.go): the handler of an event that
-- names pools.
use osmosis_publisher.Prelude.{
  ℕ, ℤ, pos, add64, to_int64, to_uint64, Text, codes, List, [], ◌∷◌, length, Option, none, some,
}
use osmosis_publisher.Types.{Float64, PoolStatus, Error, ok, err, panic}
use osmosis_publisher.Interfaces.{Block}
use osmosis_publisher.Osmosis.Messages.{IbcDenomTrace}
use osmosis_publisher.Osmosis.PoolsOfInterest.{
  get_pools_of_interest_statuses, extract_unique_pool_ids,
}
use osmosis_publisher.Osmosis.Denoms.{add_statuses}
use osmosis_publisher.Osmosis.Publisher.{
  Outgoing, Site, Act, ◌>>=◌, ◌>>◌, pure, inside, update, new_nonce, publish,
}
use osmosis_publisher.Osmosis.Publisher.Handlers.{Wiring, avg_block_seconds}

module _ {F S D B J P : Type 0} ⦃float : Float64 F⦄ (wiring : Wiring F S D B J P) where
  -- The block of a height, or none where it is not found, which is logged.
  unfoldable pub block_of : ℤ → Act (Site F S B J P) (Option Block)
  block_of height s =
      let answer = wiring.rpc.block_at s.world.outside height in
      (
        elim answer.0 [ ok b ↦ ok (some b) | err e ↦ ok none | panic ↦ panic ],
        record s { world = record s.world { outside = answer.1 } },
      )

  -- rpc.PoolsAt, where a failure is logged; no pool that it answers with is nil.
  unfoldable pub pools_found : List ℕ → Act (Site F S B J P) (List P)
  pools_found ids s =
      let answer = wiring.pools_at s.world.outside (pos 0) ids in
      (
        elim answer.0 [ ok ps ↦ ok ps | err e ↦ ok [] | panic ↦ panic ],
        record s { world = record s.world { outside = answer.1 } },
      )

  unfoldable pub count_pools : ℕ → Act (Site F S B J P) (Unit {0})
  count_pools n = update (λ p. record p { pool_counter = add64 p.pool_counter n })

  -- rpc.getDenoms, whose error is logged.
  abbrev pub denoms_found : List (PoolStatus F) → Act (Site F S B J P) IbcDenomTrace
  denoms_found statuses = inside (λ w.
      let looked = wiring.find_denoms w (add_statuses [] statuses) in (ok looked.0.1, looked.1))

  -- The message of the pools that an event names: its height is the block's, or, where that is
  -- not found, the one that the statuses are of.
  abbrev pub pools_out :
      List (Text × List Text)
      → List P
      → List (PoolStatus F)
      → ℕ
      → Option Block
      → IbcDenomTrace
      → Text
      → F
      → Outgoing F B J P
  pools_out events pools statuses height block traces nonce avg =
      Outgoing.pools_message nonce
        (to_int64 (elim block [ none ↦ height | some b ↦ to_uint64 b.height ]))
        (elim block [ none ↦ [] | some b ↦ b.hash ]) avg events pools statuses traces

  abbrev pub send_pools :
      List (Text × List Text) → List P → List (PoolStatus F) → ℕ → Act (Site F S B J P) (Unit {0})
  send_pools events pools statuses height = do
    count_pools (length pools)
    block ← block_of (to_int64 height)
    traces ← denoms_found statuses
    nonce ← new_nonce
    avg ← avg_block_seconds wiring
    publish (pools_out events pools statuses height block traces nonce avg)
        (codes "state" ∷ codes "pools" ∷ [])

  abbrev pub send_found :
      List (Text × List Text)
      → List P
      → List (PoolStatus F) × ℕ × Option Error
      → Act (Site F S B J P) (Unit {0})
  send_found events [] found = pure tt
  send_found events (pool ∷ pools) found = send_pools events (pool ∷ pools) found.0 found.1

  abbrev pub find_pools : List (Text × List Text) → List ℕ → Act (Site F S B J P) (Unit {0})
  find_pools events [] = pure tt
  find_pools events (id ∷ ids) = do
    pools ← pools_found (id ∷ ids)
    found ← inside (get_pools_of_interest_statuses wiring.repo wiring.rpc (pos 0) (id ∷ ids))
    send_found events pools found

  -- handlePoolSubscriptions on an event: nothing is published where it names no pool, or none of
  -- its pools is found.
  unfoldable pub handle_pool_event : List (Text × List Text) → Act (Site F S B J P) (Unit {0})
  unfolding count_pools new_nonce publish avg_block_seconds block_of pools_found
  handle_pool_event events = find_pools events (extract_unique_pool_ids events)
