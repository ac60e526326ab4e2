-- ===== src/Osmosis/Publisher/PoolNonces.antt =====
-- The handler of the events of pools keeps the invariant of the publisher's numbers
-- (internal/osmosis/subscriptions.pools.go).
use osmosis_publisher.Prelude.{
  arith, ℕ, suc, ◌≤◌, pos, to_int64, Text, codes, List, [], ◌∷◌, length, Option, refl,
}
use osmosis_publisher.Types.{PoolStatus, Float64, Error}
use osmosis_publisher.Osmosis.PoolsOfInterest.{get_pools_of_interest_statuses}
use osmosis_publisher.Osmosis.Publisher.{inside}
use osmosis_publisher.Osmosis.Publisher.Handlers.{Wiring, avg_block_seconds}
use osmosis_publisher.Osmosis.Publisher.Counted.{
  Holds, Used, Used-weaken, publish-Used, then-Used, then-Ready, then_nonce,
}
use osmosis_publisher.Osmosis.Publisher.PoolEvents.{
  send_pools, pools_out, send_found, find_pools, denoms_found, count_pools, block_of, pools_found,
}

module _ {F S D B J P : Type 0} ⦃float : Float64 F⦄ (wiring : Wiring F S D B J P) where
  send_pools-Used :
      (events : List (Text × List Text)) (pools : List P) (statuses : List (PoolStatus F))
      (height b : ℕ)
      → Holds
          (Used b)
          (send_pools wiring events pools statuses height)
          (λ a. Used (suc b))
          (Used (suc b))
  unfolding count_pools block_of avg_block_seconds
  send_pools-Used events pools statuses height b =
      let le : b ≤ suc b = omega arith in
      then-Used (count_pools wiring (length pools)) _ b (suc b) le (λ a. Used (suc b))
        (λ s. (refl, (refl, λ i. i)))
        (λ _.
          then-Used (block_of wiring (to_int64 height)) _ b (suc b) le (λ a. Used (suc b))
            (λ s. (refl, (refl, λ i. i)))
            (λ block.
              then-Used (denoms_found wiring statuses) _ b (suc b) le (λ a. Used (suc b))
                (λ s. (refl, (refl, λ i. i)))
                (λ traces.
                  then_nonce _ b (suc b) (λ a. Used (suc b))
                    (λ t.
                      then-Ready (avg_block_seconds wiring) _ (suc b) (suc b) (omega arith)
                        (λ a. Used (suc b)) t (λ s. (refl, (refl, λ i. i)))
                        (λ avg.
                          publish-Used (suc b) (suc b) t
                            (pools_out wiring events pools statuses height block traces t avg)
                            (codes "state" ∷ codes "pools" ∷ []) refl)))))

  send_found-Used :
      (events : List (Text × List Text)) (pools : List P)
      (found : List (PoolStatus F) × ℕ × Option Error) (b : ℕ)
      → Holds (Used b) (send_found wiring events pools found) (λ a. Used (suc b)) (Used (suc b))
  send_found-Used events [] found b = λ s u. Used-weaken b (suc b) s (omega arith) u
  send_found-Used events (pool ∷ pools) found b =
      send_pools-Used events (pool ∷ pools) found.0 found.1 b

  pub find_pools-Used :
      (events : List (Text × List Text)) (ids : List ℕ) (b : ℕ)
      → Holds (Used b) (find_pools wiring events ids) (λ a. Used (suc b)) (Used (suc b))
  unfolding pools_found
  find_pools-Used events [] b = λ s u. Used-weaken b (suc b) s (omega arith) u
  find_pools-Used events (id ∷ ids) b =
      let le : b ≤ suc b = omega arith in
      then-Used (pools_found wiring (id ∷ ids)) _ b (suc b) le (λ a. Used (suc b))
        (λ s. (refl, (refl, λ i. i)))
        (λ pools.
          then-Used
            (inside (get_pools_of_interest_statuses wiring.repo wiring.rpc (pos 0) (id ∷ ids)))
            (send_found wiring events pools) b (suc b) le (λ a. Used (suc b))
            (λ s. (refl, (refl, λ i. i))) (λ found. send_found-Used events pools found b))
