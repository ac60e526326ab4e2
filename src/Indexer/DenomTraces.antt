-- ===== src/Indexer/DenomTraces.antt =====
-- internal/indexer/ibc.go: the cache of IBC denomination traces. The name that ibc-go gives a trace
-- is a parameter. An error of saving a trace is ignored, as in the source.
pub mod Tracing
use osmosis_publisher.Prelude.{
  ℕ, suc, ◌+◌, Text, text_eq, List, [], ◌∷◌, Option, none, some, Bool, true, false, Map, lookup,
  insert, is_empty, if◌then◌else◌,
}
use osmosis_publisher.Types.{DenomTrace, Error, Result, ok, err, panic}
use osmosis_publisher.Interfaces.{Repository, ExpectedRpc}
use osmosis_publisher.Indexer.{Indexer, World, Exec, continue}

module _ {F S : Type 0} where
  abbrev pub count_miss : World F S → World F S
  count_miss w = record w { indexer = record w.indexer { ibc_misses = w.indexer.ibc_misses + 1 } }

  abbrev pub count_error : World F S → World F S
  count_error w = record w {
    indexer = record w.indexer { err_counter = w.indexer.err_counter + 1 };
  }

  abbrev pub cache_trace : Text → DenomTrace → World F S → World F S
  cache_trace ibc trace w = record w {
    indexer = record w.indexer { ibc_trace_cache = insert ibc trace w.indexer.ibc_trace_cache };
  }

  abbrev with_outside : World F S → S → World F S
  with_outside w s = record w { outside = s }

  -- What queryDenomTrace makes of the client's answer.
  abbrev pub counted : Result DenomTrace × S → World F S → Result DenomTrace × World F S
  counted (ok trace, s) w = (ok trace, with_outside w s)
  counted (err e, s) w = (err e, count_error (with_outside w s))
  counted (panic, s) w = (panic, with_outside w s)

module _ {F S : Type 0} (repo : Repository F S) (rpc : ExpectedRpc S) where
  unfoldable pub query_denom_trace : Text → Exec F S DenomTrace
  query_denom_trace ibc w = counted (rpc.denom_trace w.outside ibc) (count_miss w)

  -- Indexer.DenomTrace
  unfoldable pub denom_trace : Text → Exec F S DenomTrace
  unfolding query_denom_trace
  denom_trace ibc w = elim (lookup ibc w.indexer.ibc_trace_cache) [
    | some trace ↦ (ok trace, w)
    | none ↦ continue (query_denom_trace ibc w) λ trace w'.
        let w'' = cache_trace ibc trace w' in
        (ok trace, with_outside w'' (repo.save_ibc_denom w''.outside trace).1)
  ]

module _ (ibc_denom : DenomTrace → Text) where
  unfoldable pub cache_traces : List DenomTrace → Map Text DenomTrace → Map Text DenomTrace
  cache_traces [] cache = cache
  cache_traces (t ∷ ts) cache = cache_traces ts (insert (ibc_denom t) t cache)

  module _ {F S : Type 0} (repo : Repository F S) (rpc : ExpectedRpc S) where
    abbrev pub fill : List DenomTrace → World F S → World F S
    fill traces w = record w {
      indexer = record w.indexer {
        ibc_trace_cache = cache_traces traces w.indexer.ibc_trace_cache;
      };
    }

    -- What preHeatDenomTraceCache makes of the client's answer.
    abbrev pub filled : Result (List DenomTrace) × S → World F S → World F S
    filled (ok traces, s) w = fill traces (with_outside w s)
    filled (err e, s) w = count_error (with_outside w s)
    filled (panic, s) w = with_outside w s

    -- preHeatDenomTraceCache: the repository's traces, or if it has none the node's.
    unfoldable pub pre_heat_denom_trace_cache : World F S → World F S
    unfolding cache_traces
    pre_heat_denom_trace_cache w =
        let traces = repo.ibc_denom_all w.outside in
        if is_empty traces then filled (rpc.denom_traces w.outside) w else fill traces w
