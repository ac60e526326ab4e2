-- ===== src/Tests/Running.antt =====
-- The publisher at concrete inputs.
use osmosis_publisher.Prelude.{
  ℕ, ◌%◌, ◌+◌, word, arith, Text, codes, List, [], ◌∷◌, map, length, All, Distinct, text_eq, none,
  some, Option, ◌+ℤ◌, ◌≤ℤ◌, ◌++◌, inl, pos, negsuc, ◌-ℤ◌, wrap64, to_int64, to_uint64, ◌≡◌, refl,
}
use osmosis_publisher.Types.{ok, err, Time}
use osmosis_publisher.Interfaces.{Block}
use osmosis_publisher.Osmosis.Queries.{Node, block_at, pools_total_liquidity_at}
use osmosis_publisher.Osmosis.Queries.States.{
  PoolNode, pools_at, packed_pools, translate_pools, latest_block_height,
}
use osmosis_publisher.Osmosis.Queries.Diagnostics.{
  diagnostics_obtain_liquidity, obtain_range, obtain, from_height, to_height,
}
use osmosis_publisher.Tests.{outside, service, coins, whole, repo, node, Outside, world}
use osmosis_publisher.Osmosis.Publisher.{Site, ◌>>◌}
use osmosis_publisher.Osmosis.Publisher.Sentinel.{IsInTime, last_time, timed_out}
use osmosis_publisher.Osmosis.Publisher.Watched.{
  minute, event_of_block, handle_blocks, handle_blocks-handle_all,
}
use osmosis_publisher.Osmosis.Publisher.Handlers.{Wiring}
use osmosis_publisher.Osmosis.Publisher.Events.{Event, handle_all}
use osmosis_publisher.Osmosis.Publisher.Counted.{nonces, sum}
use osmosis_publisher.Osmosis.Publisher.Reports.{
  nonces-Distinct, reported_published, reported_total,
}

abbrev pool_service : PoolNode (Unit {0}) Text Text
pool_service = record {
  all_pools = λ n height. (inl [], n);
  pool = λ n height id. (inl (codes "pool"), n);
  unpack = λ packed. inl packed;
}

abbrev wiring : Wiring ℕ Outside Text Text Text Text
wiring = record {
  repo = repo;
  rpc = node;
  find_denoms = λ w traces. ((none, traces), w);
  unconfirmed_txs = λ s. (ok (record { count = 1; txs = codes "tx1" ∷ [] }), s);
  pools_at = λ s height ids. pools_at pool_service s height (some ids);
  pool_ids = 1 ∷ [];
  hash = λ t. t;
  encode_hex = λ t. t;
  decode = λ t. none;
  messages = λ d. [];
  proto = λ d. none;
  to_proto = λ b. inl b.hash;
  unmarshal_quote = λ t. inl (5, pos 3);
}

abbrev site : Site ℕ Outside Text Text Text
site = record {
  publisher = record {
    counter = 0;
    mempool_messages = 0;
    published_messages = 0;
    block_counter = 0;
    tx_counter = 0;
    pool_counter = 0;
    err_counter = 0;
    evt_other_counter = 0;
    blocks_total = 0;
    transactions_total = 0;
    mempool_total = 0;
    messages_total = 0;
    prices_total = 0;
    block_height = pos 0;
    mempool_set = [];
  };
  world = world;
  sent = [];
  reports = [];
}

abbrev block : Block
block = record { height = pos 11; time = pos 0; hash = codes "b11"; chain_id = codes "osmosis-1" }

abbrev events : List Event
events =
    Event.new_block block (pos 7)
    ∷ Event.transaction (codes "raw") 0
    ∷ Event.status
    ∷ Event.mempool_tick
    ∷ Event.pool_event ((codes "pool_id", codes "1" ∷ []) ∷ [])
    ∷ []

nonces-Distinct_example : Distinct (nonces (handle_all wiring events site).1.sent)
nonces-Distinct_example =
    nonces-Distinct wiring events site
      (refl, (refl, (refl, (refl, (refl, (refl, (refl, (refl, refl)))))))) (omega arith)

reported_published_example :
    All (λ r. r.published ≡ 0) (handle_all wiring events site).1.reports
    × (((handle_all wiring events site).1.publisher.published_messages ≡ 0)
        × ((handle_all wiring events site).1.publisher.messages_total
            ≡ length (handle_all wiring events site).1.sent))
reported_published_example =
    reported_published wiring events site
      (refl, (refl, (refl, (refl, (refl, (refl, (refl, (refl, refl))))))))

reported_total_example :
    ((sum (map (λ r. r.blocks) (handle_all wiring events site).1.reports)
          + (handle_all wiring events site).1.publisher.block_counter)
        % word
      ≡ (handle_all wiring events site).1.publisher.blocks_total % word)
    × ((sum (map (λ r. r.txs) (handle_all wiring events site).1.reports)
            + (handle_all wiring events site).1.publisher.tx_counter)
          % word
        ≡ (handle_all wiring events site).1.publisher.transactions_total % word)
reported_total_example =
    reported_total wiring events site
      (refl, (refl, (refl, (refl, (refl, (refl, (refl, (refl, refl))))))))

-- Two blocks, 50 seconds after each other, and a third more than a minute later.
abbrev taken : List (Time × Option (Block × Time))
taken = (pos 1_000_000_000, some (block, pos 1)) ∷ (pos 51_000_000_000, some (block, pos 2)) ∷ []

in_time : IsInTime minute (pos 0) taken
unfolding ◌+ℤ◌
in_time = (omega arith, (omega arith, tt))

too_late : last_time (pos 0) taken +ℤ minute ≤ℤ pos 120_000_000_000
unfolding ◌+ℤ◌
too_late = omega arith

handle_blocks-handle_all_example :
    let handled = handle_all wiring (map (λ x. event_of_block x.1) taken) in
    (handle_blocks wiring (pos 0) taken site ≡ handled site)
    × (handle_blocks wiring (pos 0) (taken ++ (pos 120_000_000_000, none) ∷ []) site
        ≡ (handled >> (λ s'. (err timed_out, s'))) site)
handle_blocks-handle_all_example =
    handle_blocks-handle_all wiring (pos 0) (pos 120_000_000_000) taken [] none site in_time
      too_late

pools_asked :
    pools_at pool_service outside (pos 0) (some (1 ∷ 2 ∷ []))
    ≡ (ok (codes "pool" ∷ codes "pool" ∷ []), outside)
unfolding pools_at packed_pools translate_pools
pools_asked = refl

-- The node with a latest block, of height 11.
abbrev living : Node (Unit {0})
living = record service { block = λ n height. (inl block, n) }

last_two :
    diagnostics_obtain_liquidity living 1 (negsuc 1) (pos 0) outside
    ≡ (ok (coins ∷ coins ∷ []), outside)
unfolding diagnostics_obtain_liquidity obtain_range obtain latest_block_height block_at from_height
    to_height pools_total_liquidity_at ◌+ℤ◌ ◌-ℤ◌ wrap64 to_int64 to_uint64
last_two = refl
