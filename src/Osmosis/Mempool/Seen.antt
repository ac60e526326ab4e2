-- ===== src/Osmosis/Mempool/Seen.antt =====
-- The poll of the mempool: what it publishes and remembers.
use osmosis_publisher.Prelude.{
  Text, text_eq, ◌≡◌, ◌≢◌, ◌∙◌, ap, List, [], map, true, nat_eq, contains, filter, Option, arith,
  All,
}
use osmosis_publisher.Types.{Error, Result, ok}
use osmosis_publisher.Osmosis.Messages.{Message, IbcDenomTrace, Transaction}
use osmosis_publisher.Osmosis.Messages.Naming.{IsFunded}
use osmosis_publisher.Osmosis.Mempool.{Unconfirmed, Polled, start, mempool}
use osmosis_publisher.Osmosis.Mempool.Fresh.{fresh, fresh_none, contains-filter}
use osmosis_publisher.Osmosis.Mempool.Polling.{map_empty, loop_total, loop-Did}

module _ {S D J : Type 0} (hash : Text → Text) (encode_hex : Text → Text) (decode : Text → Option D)
    (messages : D → List Message) (proto : D → Option (Option J))
    (get_denoms : S → IbcDenomTrace → (Option Error × IbcDenomTrace) × S) where
  abbrev poll : List Text → S → Result Unconfirmed → Result (List (Transaction J)) × List Text × S
  poll = mempool hash encode_hex decode messages proto get_denoms

  -- If each send of a decoded transaction has a coin where the first one is read, a poll whose
  -- answer has a count other than 0 returns, and publishes the transactions whose hashes were not
  -- in the set, each once, in the node's order; afterwards the set has the hashes of the answer
  -- and no others.
  pub mempool_poll :
      (set : List Text) (s : S) (res : Unconfirmed)
      → ((d : D) → All IsFunded (messages d))
      → res.count ≢ 0
      → (txs : List (Transaction J)) × (next : List Text) × (s' : S) × (poll set s (ok res)
          ≡ (ok txs, next, s'))
        × (map (λ t. t.tx_id) txs ≡ fresh set (map hash res.txs))
        × ((h : Text) → contains next h ≡ contains (map hash res.txs) h)
  unfolding mempool
  mempool_poll set s res funded some_txs =
      let p₀ : Polled J S = start {D = D} hash encode_hex decode messages proto get_denoms set s in
      let (q, e) = loop_total hash encode_hex decode messages proto get_denoms res.txs p₀ funded in
      let (a, b, c) = loop-Did hash encode_hex decode messages proto get_denoms res.txs p₀ q e in
      (
        q.txs,
        filter (contains q.current_set) q.mempool_set,
        q.outside,
        ground (arith, e, some_txs),
        c,
        λ h. ground (arith, a h, b h, contains-filter (contains q.current_set) q.mempool_set h),
      )

  -- An answer of the same transactions a second time publishes nothing.
  mempool_again :
      (set : List Text) (s : S) (res : Unconfirmed)
      → ((d : D) → All IsFunded (messages d))
      → res.count ≢ 0
      → let after = poll set s (ok res) in (poll after.1 after.2 (ok res)).0 ≡ ok []
  mempool_again set s res funded some_txs =
      let (txs, next, s₁, e, _, known) = mempool_poll set s res funded some_txs in
      let (txs', next', s₂, e', ids, _) = mempool_poll next s₁ res funded some_txs in
      let none_new =
        map_empty txs'
          (ids ∙ fresh_none (map hash res.txs) next (λ h k. ground (arith, known h, k))) in
      ap (λ (r : Result (List (Transaction J)) × List Text × S). (poll r.1 r.2 (ok res)).0) e
      ∙ ap (λ (r : Result (List (Transaction J)) × List Text × S). r.0) e'
      ∙ ap ok none_new

  empty_poll :
      (set : List Text) (s : S) (gone : Unconfirmed)
      → gone.count ≡ 0
      → poll set s (ok gone) ≡ (ok [], set, s)
  unfolding mempool
  empty_poll set s gone no_txs = ground (arith, no_txs)

  -- After an answer of no transactions the set is kept: a later answer, all of whose transactions
  -- were in the set before, publishes nothing, if each send of a decoded transaction has a coin
  -- where the first one is read.
  pub mempool_returning :
      (set : List Text) (s : S) (gone res : Unconfirmed)
      → ((d : D) → All IsFunded (messages d))
      → gone.count ≡ 0
      → res.count ≢ 0
      → ((h : Text) → contains (map hash res.txs) h ≡ true → contains set h ≡ true)
      → let after = poll set s (ok gone) in (poll after.1 after.2 (ok res)).0 ≡ ok []
  mempool_returning set s gone res funded no_txs some_txs before =
      let (txs, next, s', e, ids, _) = mempool_poll set s res funded some_txs in
      let none_new = map_empty txs (ids ∙ fresh_none (map hash res.txs) set before) in
      ap (λ (r : Result (List (Transaction J)) × List Text × S). (poll r.1 r.2 (ok res)).0)
        (empty_poll set s gone no_txs)
      ∙ ap (λ (r : Result (List (Transaction J)) × List Text × S). r.0) e
      ∙ ap ok none_new
