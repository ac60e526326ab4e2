-- ===== src/Osmosis/Denoms.antt =====
-- The denominations of a message that is published: how they are collected from the statuses of
-- pools (internal/osmosis/subscriptions.pools.go), and looked up (`getDenoms` of
-- internal/osmosis/publisher.go).
use osmosis_publisher.Prelude.{◌≡◌, ap, ◌∙◌, sym, List, [], ◌∷◌, map, ◌⊎◌, inl, inr, arith}
use osmosis_publisher.Types.{
  ok_inj, DenomTrace, PoolStatus, PoolStatusVolumeAt, Error, Result-cases, ok,
}
use osmosis_publisher.Interfaces.{Repository, ExpectedRpc}
use osmosis_publisher.Indexer.{World, Exec, ◌>>=◌, pure, caught}
use osmosis_publisher.Indexer.DenomTraces.{denom_trace}
use osmosis_publisher.Osmosis.Messages.{IbcDenomTrace, add_all, denoms_of}

module _ {F : Type 0} where
  unfoldable add_status_volumes : IbcDenomTrace → List (PoolStatusVolumeAt F) → IbcDenomTrace
  add_status_volumes c [] = c
  add_status_volumes c (v ∷ vs) = add_status_volumes (add_all c (denoms_of v.volume)) vs

  -- The loops over the pools of a message: their liquidity, then their volumes.
  unfoldable pub add_statuses : IbcDenomTrace → List (PoolStatus F) → IbcDenomTrace
  unfolding add_status_volumes
  add_statuses c [] = c
  add_statuses c (p ∷ ps) =
      add_statuses (add_status_volumes (add_all c (denoms_of p.total_liquidity)) p.volumes) ps

-- An entry keeps what it has where the look-up fails, which is logged.
abbrev looked_up : DenomTrace ⊎ Error → DenomTrace → DenomTrace
looked_up (inl found) t = found
looked_up (inr e) t = t

module _ {F S : Type 0} (repo : Repository F S) (rpc : ExpectedRpc S) where
  -- getDenoms, which never returns an error.
  unfoldable pub get_denoms : IbcDenomTrace → Exec F S IbcDenomTrace
  get_denoms [] = pure []
  get_denoms ((denom, t) ∷ rest) = do
    r ← (λ w. caught (denom_trace repo rpc denom w))
    more ← get_denoms rest
    pure ((denom, looked_up r t) ∷ more)

  -- Looking denominations up changes no key: those that fail stay, with what they had.
  get_denoms-keys :
      (c c' : IbcDenomTrace) (w : World F S)
      → (get_denoms c w).0 ≡ ok c'
      → map (λ e. e.0) c' ≡ map (λ e. e.0) c
  unfolding get_denoms
  get_denoms-keys [] c' w h = sym (ap (map (λ e. e.0)) (ok_inj _ c' h))
  get_denoms-keys ((denom, t) ∷ rest) c' w h =
      let now = denom_trace repo rpc denom w in
      let later = get_denoms rest now.1 in
      elim (Result-cases later.0) [
        | inr (inl (f, k)) ↦ absurd (ground (arith, h, k, Result-cases now.0))
        | inr (inr k) ↦ absurd (ground (arith, h, k, Result-cases now.0))
        | inl (more, k) ↦
            let keys = ap (λ l. denom ∷ l) (get_denoms-keys rest more now.1 k) in
            elim (Result-cases now.0) [
              | inr (inr g) ↦ absurd (ground (arith, h, g))
              | inl (found, g) ↦
                  let e : (denom, found) ∷ more ≡ c' = ground (arith, h, k, g) in
                  ap (map (λ e. e.0)) (sym e) ∙ keys
              | inr (inl (f, g)) ↦
                  let e : (denom, t) ∷ more ≡ c' = ground (arith, h, k, g) in
                  ap (map (λ e. e.0)) (sym e) ∙ keys
            ]
      ]
