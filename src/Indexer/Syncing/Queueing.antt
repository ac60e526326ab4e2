-- ===== src/Indexer/Syncing/Queueing.antt =====
-- queueMissingHeights: which heights are queued.
use osmosis_publisher.Prelude.{
  ℕ, zero, suc, ◌+◌, ◌-◌, ◌≤◌, ◌<◌, ◌≡◌, refl, sym, ap, true, List, [], ◌∷◌, arith, ◌↔◌, inl, inr,
  Member, is_empty, sub64, word, Bool-cases,
}
use osmosis_publisher.Pools.{PoolMap}
use osmosis_publisher.Indexer.{Indexer}
use osmosis_publisher.Indexer.Syncing.{is_missing, missing_from, queue_missing_heights}

-- Each height stands before the greater ones, and once.
abbrev Rising : ℕ → List ℕ → Type 0
Rising low [] = Unit
Rising low (h ∷ hs) = (low ≤ h) × Rising (suc h) hs

Rising-weaken : (low : ℕ) (hs : List ℕ) → Rising (suc low) hs → Rising low hs
Rising-weaken low [] r = tt
Rising-weaken low (h ∷ hs) r = (omega (arith, r.0), r.1)

is_empty_nil : (xs : List ℕ) → is_empty xs ≡ true → xs ≡ []
is_empty_nil [] h = refl
is_empty_nil (x ∷ xs) h = absurd (ground arith)

Rising-low : (low : ℕ) (hs : List ℕ) → Rising low hs → Rising 0 hs
Rising-low low [] r = tt
Rising-low low (h ∷ hs) r = (omega arith, r.1)

module _ (pools : PoolMap) (ids : List ℕ) where
  missing_from-Member :
      (start n h : ℕ)
      → Member h (missing_from pools ids start n)
        ↔ ((start ≤ h) × (h < start + n) × (is_missing pools ids h ≡ true))
  unfolding missing_from
  missing_from-Member start zero h = (λ m. absurd m, λ (a, b, _). absurd (omega arith))
  missing_from-Member start (suc n) h =
      let (sound, complete) = missing_from-Member (suc start) n h in
      elim (Bool-cases (is_missing pools ids start)) [
        | inl e ↦
            rw (missing_from, e)
              (
                λ m. elim m [
                  | inl p ↦ (omega arith, omega arith, rw p e)
                  | inr q ↦ let (a, b, c) = sound q in (omega arith, omega arith, c)
                ],
                λ (a, b, c). grind (arith, complete),
              )
        | inr e ↦
            rw (missing_from, e)
              (
                λ m. let (a, b, c) = sound m in (omega arith, omega arith, c),
                λ (a, b, c). grind (arith, complete),
              )
      ]

  missing_from-Rising : (start n : ℕ) → Rising start (missing_from pools ids start n)
  unfolding missing_from
  missing_from-Rising start zero = tt
  missing_from-Rising start (suc n) = elim (Bool-cases (is_missing pools ids start)) [
    | inl e ↦ rw (missing_from, e) (omega arith, missing_from-Rising (suc start) n)
    | inr e ↦ rw (missing_from, e) (Rising-weaken start _ (missing_from-Rising (suc start) n))
  ]

module _ {F : Type 0} (d : Indexer F) (blocks : ℕ) where
  -- On a chain of at least `blocks` blocks whose height is a uint64, and with nothing left in the
  -- queue, a height is queued if and only if it is one of the last `blocks` before the current
  -- one and a monitored pool is not cached at it.
  pub queue_missing_heights-Member :
      (h : ℕ)
      → d.current_block_height < word
      → blocks ≤ d.current_block_height
      → is_empty d.sync_heights ≡ true
      → Member h (queue_missing_heights d blocks).sync_heights ↔ (
          (d.current_block_height - blocks ≤ h)
          × (h < d.current_block_height)
          × (is_missing d.pools d.pool_ids_to_monitor h ≡ true))
  unfolding queue_missing_heights
  queue_missing_heights-Member h small enough idle =
      let low : sub64 d.current_block_height blocks ≡ d.current_block_height - blocks =
        omega arith in
      let (a, b) =
        missing_from-Member d.pools d.pool_ids_to_monitor (d.current_block_height - blocks)
          (d.current_block_height - (d.current_block_height - blocks)) h in
      rw (queue_missing_heights, idle, low)
        (λ m. let (x, y, z) = a m in (x, omega arith, z), λ (x, y, z). b (x, omega arith, z))

  -- The heights are queued in rising order, each once, though several pools may be missing.
  queue_missing_heights-Rising :
      is_empty d.sync_heights ≡ true → Rising 0 (queue_missing_heights d blocks).sync_heights
  unfolding queue_missing_heights
  queue_missing_heights-Rising idle =
      let start = sub64 d.current_block_height blocks in
      rw (queue_missing_heights, idle)
        (Rising-low start _ (
          missing_from-Rising d.pools d.pool_ids_to_monitor start (d.current_block_height - start)))

  -- If `blocks` is a uint64 above the current height, the queue of missing heights is not
  -- changed, whatever is missing: the first height wraps.
  pub queue_missing_heights_short :
      blocks < word → d.current_block_height < blocks → queue_missing_heights d blocks ≡ d
  unfolding queue_missing_heights missing_from
  queue_missing_heights_short small short =
      let none_left : d.current_block_height - sub64 d.current_block_height blocks ≡ 0 =
        omega arith in
      elim (Bool-cases (is_empty d.sync_heights)) [
        | inr e ↦ rw (queue_missing_heights, e) refl
        | inl e ↦
            rw (queue_missing_heights, e, none_left)
              (ap (λ q. record d { sync_heights = q }) (sym (is_empty_nil d.sync_heights e)))
      ]
