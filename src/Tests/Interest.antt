-- ===== src/Tests/Interest.antt =====
-- Tests and witnesses of the pools of interest.
use osmosis_publisher.Prelude.{
  ℕ, pos, ◌≡◌, refl, List, [], ◌∷◌, none, some, ◌⊎◌, Text, codes, nat_eq, arith, ◌-ℤ◌, wrap64,
  to_uint64, to_int64, quot, has_prefix, contains_text, insert_by, sort_by, parse_uint,
  parse_digits,
}
use osmosis_publisher.Types.{PoolStatus, Error, ok, join_errors}
use osmosis_publisher.Indexer.PoolStatus.{or_current, status_of}
use osmosis_publisher.Indexer.BlockClock.{average_block_time, quot64, rate_or_default}
use osmosis_publisher.Indexer.PoolStatus.Statuses.{Answers}
use osmosis_publisher.Osmosis.Queries.Answered.{client-AnswersAll}
use osmosis_publisher.Osmosis.PoolsOfInterest.{
  ids_of, combine_pool_statuses_at, with_pool_ids, keys_of, extract_unique_pool_ids, named_ids,
  parsed_ids,
}
use osmosis_publisher.Osmosis.PoolsOfInterest.Combining.{paired, combine_pool_statuses_at_cases}
use osmosis_publisher.Tests.{whole, world, repo, node, service, pool_at}

abbrev now : List (PoolStatus ℕ)
now = status_of 10 1 (pool_at 10 1) ∷ []

-- Half an hour a block: two blocks before height 10.
abbrev earlier : ℕ
earlier = or_current world (
    to_uint64 (
      wrap64 (
        pos 10
        -ℤ whole.to_int64 (
            whole.div (whole.seconds (pos 3_600_000_000_000))
              (whole.seconds (average_block_time world.indexer))))))

earlier_8 : earlier ≡ 8
unfolding average_block_time quot64 rate_or_default quot wrap64 to_uint64 to_int64 ◌-ℤ◌
earlier_8 = refl

combine_pool_statuses_at_cases_example :
    ((ats : List (PoolStatus ℕ)) × (errs : List Error) × (e : Error) × (join_errors errs ≡ some e)
      × Answers repo node world.indexer.pools earlier (ids_of now) ats errs
      × ((combine_pool_statuses_at repo node (pos 10) (pos 3_600_000_000_000) now world).0
          ≡ ok (now, some e)))
    ⊎ ((ats : List (PoolStatus ℕ)) × Answers repo node world.indexer.pools earlier
          (ids_of now)
          ats
          []
        × ((combine_pool_statuses_at repo node (pos 10) (pos 3_600_000_000_000) now world).0
            ≡ ok (paired now ats, none)))
combine_pool_statuses_at_cases_example =
    combine_pool_statuses_at_cases repo node (pos 10) (pos 3_600_000_000_000) now world
      (client-AnswersAll service 3) (refl, tt) (λ e. omega (arith, earlier_8, e))

sorted : with_pool_ids (3 ∷ 1 ∷ 3 ∷ 2 ∷ []) ≡ 1 ∷ 2 ∷ 3 ∷ []
unfolding with_pool_ids keys_of insert_by sort_by
sorted = refl

abbrev attributes : List (Text × List Text)
attributes =
    (codes "token_swapped.pool_id", codes "12" ∷ codes "x" ∷ codes "12" ∷ [])
    ∷ (codes "tx.height", codes "7" ∷ [])
    ∷ []

extracted : extract_unique_pool_ids attributes ≡ 12 ∷ []
unfolding extract_unique_pool_ids named_ids parsed_ids parse_uint parse_digits keys_of contains_text
    has_prefix
extracted = refl
