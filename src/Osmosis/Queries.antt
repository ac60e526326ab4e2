-- ===== src/Osmosis/Queries.antt =====
-- internal/osmosis/rpc.go, lines 71-82 and 180-398: the questions to the full node, with which the
-- client is the `ExpectedRPC` of the indexer. The node's query services are an argument: each
-- returns an answer or an error, and its answers have the fields that the client reads.
pub mod Answered
pub mod States
pub mod Diagnostics
use osmosis_publisher.Prelude.{
  decimal, digits, ℕ, zero, suc, ◌+◌, ◌/◌, ◌%◌, ℤ, pos, negsuc, Text, codes, List, [], ◌∷◌, ◌++◌,
  Option, none, some, ◌⊎◌, inl, inr, Bool, ltb, if◌then◌else◌,
}
use osmosis_publisher.Types.{
  Coins, PoolLiquidity, PoolVolume, DenomTrace, Error, Result, ok, err, panic,
}
use osmosis_publisher.Interfaces.{Block, ExpectedRpc}

-- The query services, over the node's state. A height is the text of the request's header, where
-- it has one.
pub record Node (N : Type 0) : Type 0 where
  pub total_pool_liquidity : N → Option Text → ℕ → (Coins ⊎ Error) × N
  pub total_volume_for_pool : N → Option Text → ℕ → (Coins ⊎ Error) × N
  pub denom_trace : N → Text → (DenomTrace ⊎ Error) × N
  pub denom_traces : N → Option Text → ((List DenomTrace × Option Text) ⊎ Error) × N
  pub block : N → Option Text → (Block ⊎ Error) × N

-- The client's state: its count of errors, and the node.
pub record Client (N : Type 0) : Type 0 where
  pub err_counter : ℕ
  pub node : N

-- ContextWithHeight: the header's text; heights that are not positive add none.
unfoldable pub context_with_height : ℤ → Option Text
unfolding decimal
context_with_height (pos zero) = none
context_with_height (pos (suc n)) = some (decimal (suc n))
context_with_height (negsuc n) = none

-- fmt.Errorf("failed retrieving … %d: %w", id, err)
abbrev wrapped : Text → ℕ → Error → Error
wrapped what id e = (what ++ decimal id) ∷ e

module _ {N : Type 0} where
  abbrev pub with_node : Client N → N → Client N
  with_node c n = record c { node = n }

  abbrev pub failed : Client N → N → Client N
  failed c n = record { err_counter = c.err_counter + 1; node = n }

  -- The answer of one question that is counted if it fails.
  abbrev pub counted : {A : Type 0} → Client N → (A ⊎ Error) × N → Result A × Client N
  counted c (inl a, n) = (ok a, with_node c n)
  counted c (inr e, n) = (err e, failed c n)

module _ {N : Type 0} (service : Node N) where
  -- The loop of PoolsTotalLiquidityAt.
  unfoldable pub pools_total_liquidity_at :
      Client N → ℤ → List ℕ → Result (List PoolLiquidity) × Client N
  unfolding context_with_height
  pools_total_liquidity_at c height [] = (ok [], c)
  pools_total_liquidity_at c height (id ∷ ids) =
      let asked = service.total_pool_liquidity c.node (context_with_height height) id in
      let rest = pools_total_liquidity_at (with_node c asked.1) height ids in
      elim asked.0 [
        | inr e ↦ (err (wrapped (codes "failed retrieving pool liquidity ") id e), failed c asked.1)
        | inl coins ↦ elim rest.0 [
          | ok ls ↦ (ok (record { pool_id = id; liquidity = coins } ∷ ls), rest.1)
          | err e ↦ (err e, rest.1)
          | panic ↦ (panic, rest.1)
        ]
      ]

  -- The loop of PoolsVolumeAt.
  unfoldable pub pools_volume_at : Client N → ℤ → List ℕ → Result (List PoolVolume) × Client N
  unfolding context_with_height
  pools_volume_at c height [] = (ok [], c)
  pools_volume_at c height (id ∷ ids) =
      let asked = service.total_volume_for_pool c.node (context_with_height height) id in
      let rest = pools_volume_at (with_node c asked.1) height ids in
      elim asked.0 [
        | inr e ↦ (err (wrapped (codes "failed retrieving pool volume ") id e), failed c asked.1)
        | inl coins ↦ elim rest.0 [
          | ok vs ↦ (ok (record { pool_id = id; volume = coins } ∷ vs), rest.1)
          | err e ↦ (err e, rest.1)
          | panic ↦ (panic, rest.1)
        ]
      ]

  -- rpc.DenomTrace, whose errors are not counted here.
  unfoldable pub ask_denom_trace : Client N → Text → Result DenomTrace × Client N
  ask_denom_trace c ibc =
      let asked = service.denom_trace c.node ibc in
      (elim asked.0 [ inl t ↦ ok t | inr e ↦ err e ], with_node c asked.1)

  -- The loop of DenomTraces from a page's key on: none stands for a loop that goes on past the
  -- fuel.
  unfoldable pub denom_pages :
      ℕ → Client N → Option Text → List DenomTrace → Option (Result (List DenomTrace)) × Client N
  denom_pages zero c key traces = (none, c)
  denom_pages (suc fuel) c key traces =
      let asked = service.denom_traces c.node key in
      elim asked.0 [
        | inr e ↦ (some (err e), failed c asked.1)
        | inl (page, next) ↦ elim next [
          | none ↦ (some (ok (traces ++ page)), with_node c asked.1)
          | some k ↦ denom_pages fuel (with_node c asked.1) (some k) (traces ++ page)
        ]
      ]

  -- rpc.BlockAt sends the height in a header of the context, and asks the node for no height: for
  -- the latest block.
  unfoldable pub block_at : Client N → ℤ → Result Block × Client N
  unfolding context_with_height
  block_at c height = counted c (service.block c.node (context_with_height height))

  -- The client as the indexer sees it, on given fuel for the pages.
  abbrev pub client : ℕ → ExpectedRpc (Client N)
  client fuel = record {
    denom_trace = ask_denom_trace;
    denom_traces = λ c.
        let r = denom_pages fuel c none [] in
        (elim r.0 [ none ↦ panic | some answer ↦ answer ], r.1);
    block_at = block_at;
    pools_total_liquidity_at = pools_total_liquidity_at;
    pools_volume_at = pools_volume_at;
  }
