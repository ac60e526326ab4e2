-- ===== src/Osmosis/Queries/Diagnostics.antt =====
-- internal/osmosis/publisher.go: DiagnosticsObtainLiquidity and DiagnosticsObtainVolume, which ask
-- for a pool at each height of a range and panic on an error.
use osmosis_publisher.Prelude.{
  ℕ, ℤ, zero, suc, pos, negsuc, ◌+ℤ◌, ◌-ℤ◌, leb_ℤ, ltb_ℤ, wrap64, if◌then◌else◌, List, [], ◌∷◌,
  Option, none, some, length, ◌≡◌, sym, ap, ◌∙◌, arith, inl, inr,
}
use osmosis_publisher.Types.{
  Coins, PoolLiquidity, PoolVolume, Result, Result-cases, ok, err, panic, ok_inj,
}
use osmosis_publisher.Osmosis.Queries.{Node, Client, pools_total_liquidity_at, pools_volume_at}
use osmosis_publisher.Osmosis.Queries.States.{latest_block_height}

-- A start below 0, or an end of at most 0, counts back from the latest height.
unfoldable pub from_height : ℤ → ℤ → ℤ
from_height latest min = if ltb_ℤ min (pos 0) then wrap64 (min +ℤ latest) else min

unfoldable pub to_height : ℤ → ℤ → ℤ
to_height latest max = if leb_ℤ max (pos 0) then wrap64 (max +ℤ latest) else max

-- pl[0].Liquidity and pl[0].Volume
abbrev pub first_liquidity : List PoolLiquidity → Option Coins
first_liquidity [] = none
first_liquidity (l ∷ ls) = some l.liquidity

abbrev pub first_volume : List PoolVolume → Option Coins
first_volume [] = none
first_volume (v ∷ vs) = some v.volume

module _ {N : Type 0} where
  -- The loop over the heights, `n` from the `i`-th on.
  unfoldable pub obtain :
      (Client N → ℤ → Result (Option Coins) × Client N)
      → ℤ
      → ℕ
      → ℕ
      → Client N
      → Result (List Coins) × Client N
  obtain ask min i zero c = (ok [], c)
  obtain ask min i (suc n) c =
      let asked = ask c (wrap64 (min +ℤ pos i)) in
      let rest = obtain ask min (suc i) n asked.1 in
      elim asked.0 [
        | err e ↦ (panic, asked.1)
        | panic ↦ (panic, asked.1)
        | ok found ↦ elim found [
          | none ↦ (panic, asked.1)
          | some coins ↦ elim rest.0 [
            | ok more ↦ (ok (coins ∷ more), rest.1)
            | err e ↦ (err e, rest.1)
            | panic ↦ (panic, rest.1)
          ]
        ]
      ]

  -- An answer for each height of the range, or a panic where there is none.
  length-obtain :
      (ask : Client N → ℤ → Result (Option Coins) × Client N) (min : ℤ) (n i : ℕ) (c : Client N)
      (found : List Coins)
      → (obtain ask min i n c).0 ≡ ok found
      → length found ≡ n
  unfolding obtain
  length-obtain ask min zero i c found h = ap length (sym (ok_inj [] found h))
  length-obtain ask min (suc n) i c found h =
      let asked = ask c (wrap64 (min +ℤ pos i)) in
      let rest = obtain ask min (suc i) n asked.1 in
      elim (Result-cases asked.0) [
        | inr (inl (e, k)) ↦ absurd (ground (arith, h, k))
        | inr (inr k) ↦ absurd (ground (arith, h, k))
        | inl (none, k) ↦ absurd (ground (arith, h, k))
        | inl (some coins, k) ↦ elim (Result-cases rest.0) [
          | inr (inl (e, g)) ↦ absurd (ground (arith, h, k, g))
          | inr (inr g) ↦ absurd (ground (arith, h, k, g))
          | inl (more, g) ↦
              let same : coins ∷ more ≡ found = ground (arith, h, k, g) in
              ap length (sym same) ∙ ap suc (length-obtain ask min n (suc i) asked.1 more g)
        ]
      ]

  -- make([]T, n) panics at an n below 0.
  abbrev pub of_count :
      (Client N → ℤ → Result (Option Coins) × Client N)
      → ℤ
      → ℤ
      → Client N
      → Result (List Coins) × Client N
  of_count ask min (pos n) c = obtain ask min 0 n c
  of_count ask min (negsuc n) c = (panic, c)

  module _ (service : Node N) where
    -- What both do with their question, on the height of the latest block.
    unfoldable pub obtain_range :
        (Client N → ℤ → Result (Option Coins) × Client N)
        → ℤ
        → ℤ
        → Client N
        → Result (List Coins) × Client N
    unfolding latest_block_height from_height to_height
    obtain_range ask min max c =
        let latest = latest_block_height service c in
        elim latest.0 [
          | err e ↦ (panic, latest.1)
          | panic ↦ (panic, latest.1)
          | ok height ↦
              let lo = from_height height min in
              let hi = to_height height max in
              if leb_ℤ hi lo
              then (panic, latest.1)
              else of_count ask lo (wrap64 (hi -ℤ lo)) latest.1
        ]

    -- DiagnosticsObtainLiquidity
    unfoldable pub diagnostics_obtain_liquidity :
        ℕ → ℤ → ℤ → Client N → Result (List Coins) × Client N
    unfolding obtain_range pools_total_liquidity_at
    diagnostics_obtain_liquidity pool_id = obtain_range (λ c height.
        let asked = pools_total_liquidity_at service c height (pool_id ∷ []) in
        (elim asked.0 [ ok ls ↦ ok (first_liquidity ls) | err e ↦ err e | panic ↦ panic ], asked.1))

    -- DiagnosticsObtainVolume
    unfoldable pub diagnostics_obtain_volume : ℕ → ℤ → ℤ → Client N → Result (List Coins) × Client N
    unfolding obtain_range pools_volume_at
    diagnostics_obtain_volume pool_id = obtain_range (λ c height.
        let asked = pools_volume_at service c height (pool_id ∷ []) in
        (elim asked.0 [ ok vs ↦ ok (first_volume vs) | err e ↦ err e | panic ↦ panic ], asked.1))
