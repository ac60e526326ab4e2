-- ===== src/Osmosis/Publisher/Events.antt =====
-- The events that the handlers of internal/osmosis are run for, and sequences of them.
use osmosis_publisher.Prelude.{ℕ, Text, List, [], ◌∷◌}
use osmosis_publisher.Types.{Time, Float64}
use osmosis_publisher.Interfaces.{Block}
use osmosis_publisher.Osmosis.Publisher.{Site, Act, ◌>>◌, pure, get_status}
use osmosis_publisher.Osmosis.Publisher.Handlers.{
  Wiring, handle_new_block, handle_transaction, handle_other_event, handle_mempool_tick,
  handle_price_feed,
}
use osmosis_publisher.Osmosis.Publisher.PoolEvents.{handle_pool_event}

-- What a handler is run for.
pub data Event : Type 0 where
  new_block : Block → Time → Event
  transaction : Text → ℕ → Event
  other_event : Event
  mempool_tick : Event
  price_message : Text → Text → Event
  pool_event : List (Text × List Text) → Event
  status : Event

module _ {F S D B J P : Type 0} ⦃float : Float64 F⦄ (wiring : Wiring F S D B J P) where
  unfoldable pub handle : Event → Act (Site F S B J P) (Unit {0})
  unfolding handle_new_block handle_transaction handle_other_event handle_mempool_tick
      handle_price_feed handle_pool_event get_status
  handle (Event.new_block block now) = handle_new_block wiring block now
  handle (Event.transaction raw code) = handle_transaction wiring raw code
  handle Event.other_event = handle_other_event wiring
  handle Event.mempool_tick = handle_mempool_tick wiring
  handle (Event.price_message subject body) = handle_price_feed wiring subject body
  handle (Event.pool_event events) = handle_pool_event wiring events
  handle Event.status = get_status

  -- The events in the order in which they are handled.
  unfoldable pub handle_all : List Event → Act (Site F S B J P) (Unit {0})
  unfolding handle
  handle_all [] = pure tt
  handle_all (e ∷ es) = handle e >> handle_all es
