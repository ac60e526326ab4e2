-- ===== src/Indexer/DenomTraces/Tracing.antt =====
-- What a look-up of a trace and the filling of the cache do.
use osmosis_publisher.Prelude.{
  ◌≡◌, Text, text_eq, List, [], ◌∷◌, none, some, Map, lookup, Option-cases, inl, inr, lookup-insert,
  lookup-insert_self, arith, ==_cases, Member, ap, sym, ◌∙◌,
}
use osmosis_publisher.Types.{DenomTrace, Error, Result, Result-cases, ok, err, panic}
use osmosis_publisher.Interfaces.{Repository, ExpectedRpc}
use osmosis_publisher.Indexer.{World}
use osmosis_publisher.Indexer.DenomTraces.{
  denom_trace, cache_traces, count_miss, count_error, cache_trace,
}

-- The three ways of a look-up that returns, with what it does to the indexer: a hit changes
-- nothing; a miss counts itself, and either caches the answer or counts an error.
data Traced {F S : Type 0} (ibc : Text) (w : World F S) (r : Result DenomTrace × World F S)
    : Type 0 where
  hit :
      (t : DenomTrace)
      → lookup ibc w.indexer.ibc_trace_cache ≡ some t
      → r ≡ (ok t, w)
      → Traced ibc w r
  learnt :
      (t : DenomTrace)
      → lookup ibc w.indexer.ibc_trace_cache ≡ none
      → r.0 ≡ ok t
      → r.1.indexer ≡ (cache_trace ibc t (count_miss w)).indexer
      → Traced ibc w r
  refused :
      (e : Error)
      → lookup ibc w.indexer.ibc_trace_cache ≡ none
      → r.0 ≡ err e
      → r.1.indexer ≡ (count_error (count_miss w)).indexer
      → Traced ibc w r
  broken : r.0 ≡ panic → Traced ibc w r

module _ {F S : Type 0} (repo : Repository F S) (rpc : ExpectedRpc S) where
  -- A look-up answers from the cache and changes nothing; or it misses, counts the miss, and either
  -- caches the node's answer under the name that was asked for or counts an error.
  denom_trace-Traced : (ibc : Text) (w : World F S) → Traced ibc w (denom_trace repo rpc ibc w)
  unfolding denom_trace
  denom_trace-Traced ibc w = elim (Option-cases (lookup ibc w.indexer.ibc_trace_cache)) [
    | inr (t, e) ↦ hit t e (rw (e, denom_trace))
    | inl e ↦ elim (Result-cases (rpc.denom_trace w.outside ibc).0) [
      | inl (t, h) ↦ learnt t e (ground arith) (ground arith)
      | inr (inl (f, h)) ↦ refused f e (ground arith) (ground arith)
      | inr (inr h) ↦ broken (ground arith)
    ]
  ]

  -- After a look-up of a trace that succeeds, a second one has the same answer, with no question
  -- to the node and no change of the state.
  denom_trace_again :
      (ibc : Text) (w w' : World F S) (t : DenomTrace)
      → denom_trace repo rpc ibc w ≡ (ok t, w')
      → denom_trace repo rpc ibc w' ≡ (ok t, w')
  denom_trace_again ibc w w' t h = again (denom_trace-Traced ibc w)
    where
      answer :
          lookup ibc w'.indexer.ibc_trace_cache ≡ some t → denom_trace repo rpc ibc w' ≡ (ok t, w')
      answer e = unfold denom_trace in rw (e, denom_trace)

      again : Traced ibc w (denom_trace repo rpc ibc w) → denom_trace repo rpc ibc w' ≡ (ok t, w')
      again (hit u e r) = cc (ap (λ q. q.1) (sym r ∙ h))
      again (learnt u e o i) =
          answer (ground (arith, h, o, i, lookup-insert_self ibc u w.indexer.ibc_trace_cache))
      again (refused f e o i) = absurd (ground (arith, h, o))
      again (broken o) = absurd (ground (arith, h, o))

module _ (ibc_denom : DenomTrace → Text) where
  cache_traces_kept :
      (ts : List DenomTrace) (cache : Map Text DenomTrace) (k : Text) (t : DenomTrace)
      → lookup k cache ≡ some t
      → (u : DenomTrace) × (lookup k (cache_traces ibc_denom ts cache) ≡ some u)
  unfolding cache_traces
  cache_traces_kept [] cache k t h = (t, h)
  cache_traces_kept (s ∷ ts) cache k t h = elim (==_cases (ibc_denom s) k) [
    | inl (e, _) ↦ cache_traces_kept ts _ k s (rw (lookup-insert, e))
    | inr (e, _) ↦ cache_traces_kept ts _ k t (rw (lookup-insert, e) h)
  ]

  -- Filling the cache makes every trace of the list known under its name.
  cache_traces_known :
      (ts : List DenomTrace) (cache : Map Text DenomTrace) (t : DenomTrace)
      → Member t ts
      → (u : DenomTrace) × (lookup (ibc_denom t) (cache_traces ibc_denom ts cache) ≡ some u)
  unfolding cache_traces
  cache_traces_known [] cache t m = absurd m
  cache_traces_known (s ∷ ts) cache t (inl e) =
      cache_traces_kept ts _ (ibc_denom t) s (rw e (lookup-insert_self (ibc_denom s) s cache))
  cache_traces_known (s ∷ ts) cache t (inr m) = cache_traces_known ts _ t m
