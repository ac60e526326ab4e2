-- ===== src/Osmosis/Queries/Answered.antt =====
-- The client answers for every pool that it is asked for, and joins the pages of traces.
use osmosis_publisher.Prelude.{
  ℕ, zero, suc, ◌≤◌, ℤ, Text, ◌≡◌, ◌≢◌, sym, ◌∙◌, ap, List, [], ◌∷◌, ◌++◌, map, append-nil,
  append_assoc, length, length-map, Option, none, some, Sum-cases, inl, inr, arith,
}
use osmosis_publisher.Types.{ok_inj, PoolLiquidity, PoolVolume, DenomTrace, Result-cases, ok, panic}
use osmosis_publisher.Interfaces.{AnswersAll}
use osmosis_publisher.Osmosis.Queries.{
  Node, Client, with_node, context_with_height, pools_total_liquidity_at, pools_volume_at,
  denom_pages, client,
}

abbrev concat : List (List DenomTrace) → List DenomTrace
concat [] = []
concat (page ∷ pages) = page ++ concat pages

module _ {N : Type 0} (service : Node N) where
  liquidity-ne-panic :
      (ids : List ℕ) (c : Client N) (height : ℤ)
      → (pools_total_liquidity_at service c height ids).0 ≢ panic
  unfolding pools_total_liquidity_at
  liquidity-ne-panic [] c height e = cc
  liquidity-ne-panic (id ∷ ids) c height e =
      let asked = service.total_pool_liquidity c.node (context_with_height height) id in
      let rest = pools_total_liquidity_at service (with_node c asked.1) height ids in
      ground (
        arith,
        e,
        liquidity-ne-panic ids (with_node c asked.1) height,
        Sum-cases asked.0,
        Result-cases rest.0,
      )

  -- The liquidities are those of the pools asked for, in order.
  liquidity-ids :
      (ids : List ℕ) (c : Client N) (height : ℤ) (ls : List PoolLiquidity)
      → (pools_total_liquidity_at service c height ids).0 ≡ ok ls
      → map (λ l. l.pool_id) ls ≡ ids
  unfolding pools_total_liquidity_at
  liquidity-ids [] c height ls e = ap (map (λ l. l.pool_id)) (sym (ok_inj [] ls e))
  liquidity-ids (id ∷ ids) c height ls e =
      let asked = service.total_pool_liquidity c.node (context_with_height height) id in
      let rest = pools_total_liquidity_at service (with_node c asked.1) height ids in
      elim (Sum-cases asked.0) [
        | inr (f, k) ↦ absurd (ground (arith, e, k))
        | inl (coins, k) ↦ elim (Result-cases rest.0) [
          | inr (inl (f, g)) ↦ absurd (ground (arith, e, k, g))
          | inr (inr g) ↦ absurd (ground (arith, e, k, g))
          | inl (ls', g) ↦
              let same : record { pool_id = id; liquidity = coins } ∷ ls' ≡ ls =
                ground (arith, e, k, g) in
              ap (map (λ l. l.pool_id)) (sym same)
              ∙ ap (λ l. id ∷ l) (liquidity-ids ids (with_node c asked.1) height ls' g)
        ]
      ]

  volume-ne-panic :
      (ids : List ℕ) (c : Client N) (height : ℤ) → (pools_volume_at service c height ids).0 ≢ panic
  unfolding pools_volume_at
  volume-ne-panic [] c height e = cc
  volume-ne-panic (id ∷ ids) c height e =
      let asked = service.total_volume_for_pool c.node (context_with_height height) id in
      let rest = pools_volume_at service (with_node c asked.1) height ids in
      ground (
        arith,
        e,
        volume-ne-panic ids (with_node c asked.1) height,
        Sum-cases asked.0,
        Result-cases rest.0,
      )

  -- The volumes are those of the pools asked for, in order.
  volume-ids :
      (ids : List ℕ) (c : Client N) (height : ℤ) (vs : List PoolVolume)
      → (pools_volume_at service c height ids).0 ≡ ok vs
      → map (λ l. l.pool_id) vs ≡ ids
  unfolding pools_volume_at
  volume-ids [] c height vs e = ap (map (λ l. l.pool_id)) (sym (ok_inj [] vs e))
  volume-ids (id ∷ ids) c height vs e =
      let asked = service.total_volume_for_pool c.node (context_with_height height) id in
      let rest = pools_volume_at service (with_node c asked.1) height ids in
      elim (Sum-cases asked.0) [
        | inr (f, k) ↦ absurd (ground (arith, e, k))
        | inl (coins, k) ↦ elim (Result-cases rest.0) [
          | inr (inl (f, g)) ↦ absurd (ground (arith, e, k, g))
          | inr (inr g) ↦ absurd (ground (arith, e, k, g))
          | inl (ls', g) ↦
              let same : record { pool_id = id; volume = coins } ∷ ls' ≡ vs =
                ground (arith, e, k, g) in
              ap (map (λ l. l.pool_id)) (sym same)
              ∙ ap (λ l. id ∷ l) (volume-ids ids (with_node c asked.1) height ls' g)
        ]
      ]

  -- The pages of traces that the node serves from a key on, in a chain that ends, and its state after.
  pub data Serves : N → Option Text → List (List DenomTrace) → N → Type 0 where
    last :
        (n n' : N) (key : Option Text) (page : List DenomTrace)
        → service.denom_traces n key ≡ (inl (page, none), n')
        → Serves n key (page ∷ []) n'
    more :
        (n n' n'' : N) (key : Option Text) (k : Text) (page : List DenomTrace)
        (pages : List (List DenomTrace))
        → service.denom_traces n key ≡ (inl (page, some k), n')
        → Serves n' (some k) pages n''
        → Serves n key (page ∷ pages) n''

  pages-join :
      (fuel n₀ : ℕ) (n n' : N) (key : Option Text) (traces : List DenomTrace)
      (pages : List (List DenomTrace))
      → Serves n key pages n'
      → length pages ≤ fuel
      → denom_pages service fuel (record { err_counter = n₀; node = n }) key traces
        ≡ (some (ok (traces ++ concat pages)), record { err_counter = n₀; node = n' })
  unfolding denom_pages
  pages-join zero n₀ n n' key traces pages (last a b q page e) h = absurd (omega (arith, h))
  pages-join zero n₀ n n' key traces pages (more a m b q k page rest e s) h =
      absurd (omega (arith, h))
  pages-join (suc fuel) n₀ n n' key traces pages (last a b q page e) h =
      ground (arith, e, append-nil page)
  pages-join (suc fuel) n₀ n n' key traces pages (more a m b q k page rest e s) h =
      let rest' = pages-join fuel n₀ m n' (some k) (traces ++ page) rest s (omega (arith, h)) in
      ground (arith, e, rest', append_assoc traces page (concat rest))

  pub client-AnswersAll : (fuel : ℕ) → AnswersAll (client service fuel)
  client-AnswersAll fuel = record {
    liquidity_returns = λ c height ids. liquidity-ne-panic ids c height;
    all_liquidity = λ c height ids ls e.
        sym (length-map ls (λ l. l.pool_id)) ∙ ap length (liquidity-ids ids c height ls e);
    volumes_return = λ c height ids. volume-ne-panic ids c height;
    all_volumes = λ c height ids vs e.
        sym (length-map vs (λ v. v.pool_id)) ∙ ap length (volume-ids ids c height vs e);
  }

  -- If the node serves a chain of pages that ends, DenomTraces answers with all their traces in
  -- order, on as much fuel as there are pages, and counts no error.
  pub denom_traces-joined :
      (fuel : ℕ) (c : Client N) (n' : N) (pages : List (List DenomTrace))
      → Serves c.node none pages n'
      → length pages ≤ fuel
      → (client service fuel).denom_traces c ≡ (ok (concat pages), with_node c n')
  denom_traces-joined fuel c n' pages s enough =
      let e = pages-join fuel c.err_counter c.node n' none [] pages s enough in ground (arith, e)
