-- ===== src/Osmosis/Queries/States.antt =====
-- internal/osmosis/rpc.go: PoolsAt, with translatePools of rpc.parsers.go, and the questions about the
-- latest block. What unpacks a pool's state is an argument.
use osmosis_publisher.Prelude.{
  ℕ, ℤ, pos, Text, codes, List, [], ◌∷◌, Option, none, some, ◌⊎◌, inl, inr, ◌≡◌, arith, ◌+◌,
}
use osmosis_publisher.Types.{Error, Result, ok, err, panic}
use osmosis_publisher.Interfaces.{Block}
use osmosis_publisher.Osmosis.Queries.{
  Node, Client, context_with_height, wrapped, with_node, failed, block_at,
}

-- The services that answer with packed states of pools.
pub record PoolNode (N A P : Type 0) : Type 0 where
  pub all_pools : N → Option Text → (List A ⊎ Error) × N
  pub pool : N → Option Text → ℕ → (A ⊎ Error) × N
  pub unpack : A → P ⊎ Error

module _ {N A P : Type 0} (service : PoolNode N A P) where
  -- translatePools: the first state that does not unpack ends it.
  unfoldable pub translate_pools : List A → Result (List P)
  translate_pools [] = ok []
  translate_pools (a ∷ packed) =
      let rest = translate_pools packed in
      elim (service.unpack a) [
        | inr e ↦ err (codes "failed unmarshalling pool" ∷ e)
        | inl p ↦ elim rest [ ok ps ↦ ok (p ∷ ps) | err e ↦ err e | panic ↦ panic ]
      ]

  -- The loop of PoolsAt over the ids.
  unfoldable pub packed_pools : Client N → ℤ → List ℕ → Result (List A) × Client N
  unfolding context_with_height
  packed_pools c height [] = (ok [], c)
  packed_pools c height (id ∷ ids) =
      let asked = service.pool c.node (context_with_height height) id in
      let rest = packed_pools (with_node c asked.1) height ids in
      elim asked.0 [
        | inr e ↦ (err (wrapped (codes "failed retrieving pool ") id e), failed c asked.1)
        | inl a ↦ elim rest.0 [
          | ok packed ↦ (ok (a ∷ packed), rest.1)
          | err e ↦ (err e, rest.1)
          | panic ↦ (panic, rest.1)
        ]
      ]

  abbrev pub translated_pools : Result (List A) × Client N → Result (List P) × Client N
  translated_pools (ok packed, c) = (translate_pools packed, c)
  translated_pools (err e, c) = (err e, c)
  translated_pools (panic, c) = (panic, c)

  -- The answer of AllPools.
  abbrev pub listed : Client N → (List A ⊎ Error) × N → Result (List A) × Client N
  listed c (inl packed, n) = (ok packed, with_node c n)
  listed c (inr e, n) = (err (codes "failed retrieving all pools" ∷ e), failed c n)

  -- PoolsAt: no ids at all, a nil slice, are all pools.
  unfoldable pub pools_at : Client N → ℤ → Option (List ℕ) → Result (List P) × Client N
  unfolding packed_pools translate_pools
  pools_at c height none =
      translated_pools (listed c (service.all_pools c.node (context_with_height height)))
  pools_at c height (some ids) = translated_pools (packed_pools c height ids)

module _ {N : Type 0} (service : Node N) where
  -- A field of the latest block; BlockAt has counted the error already.
  abbrev pub of_latest : {A : Type 0} → (Block → A) → Client N → Result A × Client N
  of_latest field c =
      let asked = block_at service c (pos 0) in
      elim asked.0 [
        | ok block ↦ (ok (field block), asked.1)
        | err e ↦ (err e, failed asked.1 asked.1.node)
        | panic ↦ (panic, asked.1)
      ]

  -- ChainID
  unfoldable pub chain_id : Client N → Result Text × Client N
  chain_id = of_latest (λ block. block.chain_id)

  -- LatestBlockHeight
  unfoldable pub latest_block_height : Client N → Result ℤ × Client N
  latest_block_height = of_latest (λ block. block.height)

  -- A failure to find the latest block is counted twice.
  latest_block_height_failed :
      (c : Client N) (e : Error) (n : N)
      → service.block c.node none ≡ (inr e, n)
      → latest_block_height c ≡ (err e, record { err_counter = c.err_counter + 1 + 1; node = n })
  unfolding latest_block_height block_at context_with_height
  latest_block_height_failed c e n h = ground (arith, h)
