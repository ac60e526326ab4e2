-- ===== src/Osmosis/PoolsOfInterest/Combining.antt =====
-- combinePoolStatusesAt: each status gets the volumes of its own pool.
use osmosis_publisher.Prelude.{
  ℕ, suc, ◌≡◌, ◌≢◌, refl, sym, ◌∙◌, ap, subst, List, [], ◌∷◌, ◌++◌, append_assoc, length,
  length-append, Map, lookup, insert, lookup-insert, lookup-insert_self, none, some, option_or,
  false, nat_eq, arith, contains, Distinct, ℤ, ◌⊎◌, inl, inr, Option-cases, to_uint64, wrap64, ◌-ℤ◌,
}
use osmosis_publisher.Types.{
  Duration, Float64, Error, join_errors, ok, PoolStatus, PoolStatusVolumeAt,
}
use osmosis_publisher.Interfaces.{Repository, ExpectedRpc, AnswersAll}
use osmosis_publisher.Indexer.{World}
use osmosis_publisher.Indexer.PoolStatus.{or_current}
use osmosis_publisher.Indexer.PoolStatus.Statuses.{
  Answers, Answers-ids, join_errors-cons, pool_statuses_at_total,
}
use osmosis_publisher.Indexer.BlockClock.{average_block_time}
use osmosis_publisher.Osmosis.PoolsOfInterest.{
  index_from, ids_of, add_volumes, combine_all, height_before, combine_pool_statuses_at,
}

-- The map has the ids of a list at rising indices.
abbrev IsIndexed : Map ℕ ℕ → ℕ → List ℕ → Type 0
IsIndexed mids i [] = Unit
IsIndexed mids i (id ∷ ids) = (lookup id mids ≡ some i) × IsIndexed mids (suc i) ids

index_from-kept :
    (ids : List ℕ) (i id : ℕ) (mids : Map ℕ ℕ)
    → contains ids id ≡ false
    → lookup id (index_from i ids mids) ≡ lookup id mids
unfolding index_from
index_from-kept [] i id mids h = refl
index_from-kept (x ∷ ids) i id mids h = ground (
  arith,
  index_from-kept ids (suc i) id (insert x i mids) (ground (arith, h)),
  lookup-insert x id i mids,
)

index_from-IsIndexed :
    (ids : List ℕ) (i : ℕ) (mids : Map ℕ ℕ) → Distinct ids → IsIndexed (index_from i ids mids) i ids
unfolding index_from
index_from-IsIndexed [] i mids d = tt
index_from-IsIndexed (id ∷ ids) i mids d = (
  index_from-kept ids (suc i) id (insert id i mids) d.0 ∙ lookup-insert_self id i mids,
  index_from-IsIndexed ids (suc i) (insert id i mids) d.1,
)

abbrev tail : List ℕ → List ℕ
tail [] = []
tail (x ∷ xs) = xs

module _ {F : Type 0} where
  -- Each status with the volumes of the one at its place.
  abbrev pub paired : List (PoolStatus F) → List (PoolStatus F) → List (PoolStatus F)
  paired [] ats = []
  paired (p ∷ ps) [] = p ∷ ps
  paired (p ∷ ps) (at ∷ ats) = record p { volumes = p.volumes ++ at.volumes } ∷ paired ps ats

  add_volumes_behind :
      (front : List (PoolStatus F)) (p : PoolStatus F) (back : List (PoolStatus F))
      (vs : List (PoolStatusVolumeAt F))
      → add_volumes (length front) vs (front ++ p ∷ back)
        ≡ front ++ record p { volumes = p.volumes ++ vs } ∷ back
  unfolding add_volumes
  add_volumes_behind [] p back vs = refl
  add_volumes_behind (q ∷ front) p back vs = ap (λ l. q ∷ l) (add_volumes_behind front p back vs)

  combine_all_behind :
      (mids : Map ℕ ℕ) (front ps ats : List (PoolStatus F))
      → ids_of ats ≡ ids_of ps
      → IsIndexed mids (length front) (ids_of ats)
      → combine_all mids ats (front ++ ps) ≡ front ++ paired ps ats
  unfolding combine_all
  combine_all_behind mids front [] [] e h = refl
  combine_all_behind mids front (p ∷ ps) [] e h = cc
  combine_all_behind mids front [] (at ∷ ats) e h = cc
  combine_all_behind mids front (p ∷ ps) (at ∷ ats) e h =
      let p' : PoolStatus F = record p { volumes = p.volumes ++ at.volumes } in
      let more : length (front ++ p' ∷ []) ≡ suc (length front) =
        omega (arith, length-append front (p' ∷ [])) in
      let rest =
        combine_all_behind mids (front ++ p' ∷ []) ps ats (ap tail e)
          (subst (λ n. IsIndexed mids n (ids_of ats)) (sym more) h.1) in
      ap (λ i. combine_all mids ats (add_volumes (option_or i 0) at.volumes (front ++ p ∷ ps))) h.0
      ∙ ap (combine_all mids ats)
          (add_volumes_behind front p ps at.volumes ∙ sym (append_assoc front (p' ∷ []) ps))
      ∙ rest
      ∙ append_assoc front (p' ∷ []) (paired ps ats)

  -- If the statuses are of different pools, and those of the other height are of the same pools in
  -- the same order, each status gets the volumes of its own pool behind its own.
  combine_all-paired :
      (ps ats : List (PoolStatus F))
      → Distinct (ids_of ps)
      → ids_of ats ≡ ids_of ps
      → combine_all (index_from 0 (ids_of ps) []) ats ps ≡ paired ps ats
  combine_all-paired ps ats d e = combine_all_behind (index_from 0 (ids_of ps) []) [] ps ats e (
      subst (IsIndexed (index_from 0 (ids_of ps) []) 0) (sym e)
        (index_from-IsIndexed (ids_of ps) 0 [] d))

no_errors : (errs : List Error) → join_errors errs ≡ none → errs ≡ []
no_errors [] h = refl
no_errors (e ∷ es) h = absurd (join_errors-cons e es h)

module _ {F S : Type 0} ⦃float : Float64 F⦄ (repo : Repository F S) (rpc : ExpectedRpc S) where
  -- With a client that answers, statuses of different pools, and a height that is not taken for 0:
  -- the given height less as many blocks as `before` has average block times, or the current
  -- height if that comes to 0. The statuses either stay as they are, with the joined errors of
  -- asking for their pools at that height or of saving what was answered, or each gets behind its
  -- own volumes the volumes of its own pool at that height, which was in the cache there or is
  -- made of the node's answers for it.
  pub combine_pool_statuses_at_cases :
      (height : ℤ) (before : Duration) (ps : List (PoolStatus F)) (w : World F S)
      → AnswersAll rpc
      → Distinct (ids_of ps)
      → let delta =
          float.to_int64
            (float.div (float.seconds before) (float.seconds (average_block_time w.indexer))) in
        let earlier = or_current w (to_uint64 (wrap64 (height -ℤ delta))) in
        earlier ≢ 0
        → (((ats : List (PoolStatus F)) × (errs : List Error) × (e : Error) × (join_errors errs
                ≡ some e)
              × Answers repo rpc w.indexer.pools earlier (ids_of ps) ats errs
              × ((combine_pool_statuses_at repo rpc height before ps w).0 ≡ ok (ps, some e)))
            ⊎ ((ats : List (PoolStatus F)) × Answers repo rpc w.indexer.pools earlier
                  (ids_of ps)
                  ats
                  []
                × ((combine_pool_statuses_at repo rpc height before ps w).0
                    ≡ ok (paired ps ats, none))))
  unfolding combine_pool_statuses_at height_before
  combine_pool_statuses_at_cases height before ps w all d nz =
      let h = to_uint64 (height_before repo rpc w height before) in
      let (sts, errs, e, answers) = pool_statuses_at_total repo rpc h (ids_of ps) w all nz in
      elim (Option-cases (join_errors errs)) [
        | inr (f, k) ↦ inl (sts, errs, f, k, answers, ground (arith, e, k))
        | inl k ↦ inr (
          sts,
          subst (Answers repo rpc w.indexer.pools (or_current w h) (ids_of ps) sts)
              (no_errors errs k) answers,
          ground (arith, e, k, combine_all-paired ps sts d (Answers-ids answers k)),
        )
      ]
