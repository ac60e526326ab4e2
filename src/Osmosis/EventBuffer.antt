-- ===== src/Osmosis/EventBuffer.antt =====
-- internal/osmosis/rpc.go, lines 404-460: `bufferChannel`, which takes each event of the node at
-- once into a bounded channel and skips it when that is full, and the counters of `getStatus`. The
-- goroutine of `bufferChannel` and the handler that reads the channel take turns: a run is a list
-- of their steps, in any order.
pub mod Delivery
use osmosis_publisher.Prelude.{
  ℕ, suc, ◌+◌, List, [], ◌∷◌, ◌++◌, length, Bool, ltb, if◌then◌else◌, Option, none, some,
}
use osmosis_publisher.Pools.{set_max_value}

pub record Buffer (E : Type 0) : Type 0 where
  pub ch : List E
  pub evt_counter : ℕ
  pub evt_skip_counter : ℕ
  pub queue_max_size : ℕ
  pub max_queue_size : ℕ

-- A step: an event comes in, or the handler takes one, or the status is read.
pub data Step (E : Type 0) : Type 0 where
  arrive : E → Step E
  take_one : Step E
  report : Step E

-- What the status says of the buffer's counters.
pub record Status : Type 0 where
  pub events_total : ℕ
  pub events_skipped : ℕ
  pub events_queue : ℕ
  pub events_max_queue : ℕ

module _ {E : Type 0} where
  -- One round of bufferChannel's loop.
  unfoldable pub buffer_event : ℕ → E → Buffer E → Buffer E
  buffer_event size ev b =
      let counted = record b {
        evt_counter = b.evt_counter + 1;
        queue_max_size = (set_max_value b.queue_max_size (length b.ch)).0;
      } in
      if ltb (length b.ch) size
      then record counted { ch = b.ch ++ ev ∷ [] }
      else record counted { evt_skip_counter = b.evt_skip_counter + 1 }

  -- A read of the channel; one that is empty blocks the reader.
  unfoldable pub take_event : Buffer E → List E × Buffer E
  take_event b = elim (b.ch) [ [] ↦ ([], b) | ev ∷ rest ↦ (ev ∷ [], record b { ch = rest }) ]

  -- getStatus
  unfoldable pub get_status : Buffer E → Status × Buffer E
  get_status b =
      let queue_size = b.queue_max_size in
      let most = if ltb b.max_queue_size queue_size then queue_size else b.max_queue_size in
      (
        record {
          events_total = b.evt_counter;
          events_skipped = b.evt_skip_counter;
          events_queue = queue_size;
          events_max_queue = most;
        },
        record b { queue_max_size = 0; evt_counter = 0; max_queue_size = most },
      )

  -- What a step delivers to the handler, and the buffer after it.
  unfoldable pub step : ℕ → Step E → Buffer E → List E × Buffer E
  unfolding buffer_event take_event get_status
  step size (Step.arrive ev) b = ([], buffer_event size ev b)
  step size Step.take_one b = take_event b
  step size Step.report b = ([], (get_status b).1)

  unfoldable pub steps : ℕ → List (Step E) → Buffer E → List E × Buffer E
  unfolding step
  steps size [] b = ([], b)
  steps size (o ∷ os) b =
      let (now, b') = step size o b in let (later, b'') = steps size os b' in (now ++ later, b'')
