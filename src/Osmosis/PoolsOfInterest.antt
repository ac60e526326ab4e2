-- ===== src/Osmosis/PoolsOfInterest.antt =====
-- internal/osmosis/subscriptions.pools.go: the statuses of the pools of interest, at a height and at
-- the heights some hours before, and the pools that an event names; and the option of the pools to
-- monitor (internal/osmosis/options.go). Go reads a map in any order; here it is that of the list.
pub mod Combining
pub mod PoolIds
use osmosis_publisher.Prelude.{
  parse_uint, parse_digits, ℕ, zero, suc, ◌+◌, ◌*◌, ◌-◌, ℤ, pos, ◌-ℤ◌, wrap64, to_int64, to_uint64,
  word, List, [], ◌∷◌, ◌++◌, map, Map, lookup, insert, Option, none, some, option_or, Bool, true,
  false, ◌&&◌, if◌then◌else◌, leb, ltb, contains, nat_eq, sort_by, Text, codes, contains_text,
  is_empty, ◌⊎◌, inl, inr,
}
use osmosis_publisher.Types.{
  PoolStatus, PoolStatusVolumeAt, Duration, Float64, Error, join_errors, nanos_per_hour, Result, ok,
  err, panic,
}
use osmosis_publisher.Interfaces.{Repository, ExpectedRpc}
use osmosis_publisher.Indexer.{World, Exec, ◌>>=◌, pure, continue, caught}
use osmosis_publisher.Indexer.BlockClock.{average_block_time}
use osmosis_publisher.Indexer.PoolStatus.{pool_statuses_at}
use osmosis_publisher.Volume.{calculate_volumes}

-- `mids[p.PoolId] = i` for each status: a later one writes over.
unfoldable pub index_from : ℕ → List ℕ → Map ℕ ℕ → Map ℕ ℕ
index_from i [] mids = mids
index_from i (id ∷ ids) mids = index_from (suc i) ids (insert id i mids)

module _ {F : Type 0} where
  abbrev pub ids_of : List (PoolStatus F) → List ℕ
  ids_of = map (λ ps. ps.pool_id)

  -- `ps[idx].Volumes = append(ps[idx].Volumes, …)`, for an index in range.
  unfoldable pub add_volumes :
      ℕ → List (PoolStatusVolumeAt F) → List (PoolStatus F) → List (PoolStatus F)
  add_volumes idx vs [] = []
  add_volumes zero vs (p ∷ ps) = record p { volumes = p.volumes ++ vs } ∷ ps
  add_volumes (suc idx) vs (p ∷ ps) = p ∷ add_volumes idx vs ps

  -- The loop over the statuses of the other height; an id that is not in the map has index 0.
  unfoldable pub combine_all :
      Map ℕ ℕ → List (PoolStatus F) → List (PoolStatus F) → List (PoolStatus F)
  unfolding add_volumes
  combine_all mids [] ps = ps
  combine_all mids (at ∷ ats) ps =
      combine_all mids ats (add_volumes (option_or (lookup at.pool_id mids) 0) at.volumes ps)

module _ {F S : Type 0} ⦃float : Float64 F⦄ (repo : Repository F S) (rpc : ExpectedRpc S) where
  -- The height that is about `before` earlier.
  unfoldable pub height_before : World F S → ℤ → Duration → ℤ
  height_before w height before =
      let blocks =
        float.div (float.seconds before) (float.seconds (average_block_time w.indexer)) in
      wrap64 (height -ℤ float.to_int64 blocks)

  -- combinePoolStatusesAt: the statuses with those of the other height appended, and its error.
  unfoldable pub combine_pool_statuses_at :
      ℤ → Duration → List (PoolStatus F) → Exec F S (List (PoolStatus F) × Option Error)
  unfolding index_from combine_all height_before
  combine_pool_statuses_at height before ps w =
      continue (pool_statuses_at repo rpc (to_uint64 (height_before w height before)) (ids_of ps) w)
        λ (ats, _, failure). elim failure [
          | some e ↦ pure (ps, some e)
          | none ↦ pure (combine_all (index_from 0 (ids_of ps) []) ats ps, none)
        ]

  abbrev with_error : Option Error → Error → List Error → List Error
  with_error none what errs = errs
  with_error (some e) what errs = errs ++ (what ++ e) ∷ []

  -- The loop over the hours before.
  unfoldable combine_hours :
      ℕ → List ℕ → List (PoolStatus F) × List Error → Exec F S (List (PoolStatus F) × List Error)
  unfolding combine_pool_statuses_at
  combine_hours h [] r = pure r
  combine_hours h (hours ∷ rest) r = do
    now ← combine_pool_statuses_at (to_int64 h) (pos (hours * nanos_per_hour)) r.0
    combine_hours h rest (now.0, with_error now.1 (codes "combinePoolStatusesAt failed" ∷ []) r.1)

  -- getPoolsOfInterestStatuses: the statuses with their values, the height, and the errors joined.
  unfoldable pub get_pools_of_interest_statuses :
      ℤ → List ℕ → Exec F S (List (PoolStatus F) × ℕ × Option Error)
  unfolding combine_hours
  get_pools_of_interest_statuses height ids = do
    first ← pool_statuses_at repo rpc (to_uint64 height) ids
    let errs = with_error first.2 (codes "PoolStatusesAt failed" ∷ []) []
    combined ← combine_hours first.1 (1 ∷ 4 ∷ 12 ∷ 24 ∷ []) (first.0, errs)
    λ w.
        continue (calculate_volumes w.indexer combined.0, w)
          λ ps. pure (ps, first.1, join_errors combined.1)

-- The keys of the set that a list of ids makes.
unfoldable pub keys_of : List ℕ → List ℕ
keys_of [] = []
keys_of (id ∷ ids) = let rest = keys_of ids in if contains rest id then rest else id ∷ rest

-- WithPoolIds: the ids that are stored.
unfoldable pub with_pool_ids : List ℕ → List ℕ
unfolding keys_of
with_pool_ids ids = sort_by ltb (keys_of ids)

-- ExtractUniquePoolIds over the event's attributes; no id is nil.
unfoldable pub parsed_ids : List Text → List ℕ
unfolding parse_uint
parsed_ids [] = []
parsed_ids (v ∷ vs) =
    let rest = parsed_ids vs in elim (parse_uint v) [ none ↦ rest | some id ↦ id ∷ rest ]

unfoldable pub named_ids : List (Text × List Text) → List ℕ
unfolding parsed_ids
named_ids [] = []
named_ids ((k, v) ∷ events) =
    let rest = named_ids events in
    if contains_text k (codes "pool_id") then parsed_ids v ++ rest else rest

unfoldable pub extract_unique_pool_ids : List (Text × List Text) → List ℕ
unfolding named_ids
extract_unique_pool_ids events = keys_of (named_ids events)
