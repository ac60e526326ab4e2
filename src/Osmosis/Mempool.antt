-- ===== src/Osmosis/Mempool.antt =====
-- internal/osmosis/rpc.go, lines 275-326: the poll of the mempool, which answers with the
-- transactions that it did not see at the poll before. The set of hashes is a list.
pub mod Fresh
pub mod Polling
pub mod Seen
use osmosis_publisher.Prelude.{
  ℕ, Text, text_eq, List, [], ◌∷◌, Bool, ◌==◌, nat_eq, if◌then◌else◌, contains, filter, Option,
  none, some, ◌++◌,
}
use osmosis_publisher.Osmosis.Messages.{Message, IbcDenomTrace, Transaction, translate_transaction}
use osmosis_publisher.Types.{Error, Result, ok, err, panic}

-- What the node answers: its count and the transactions.
pub record Unconfirmed : Type 0 where
  pub count : ℕ
  pub txs : List Text

-- What the loop over the answer carries: the answer's hashes, the hashes seen, the transactions
-- to publish, and the state outside.
pub record Polled (J S : Type 0) : Type 0 where
  pub current_set : List Text
  pub mempool_set : List Text
  pub txs : List (Transaction J)
  pub outside : S

module _ {S D J : Type 0} (hash : Text → Text) (encode_hex : Text → Text) (decode : Text → Option D)
    (messages : D → List Message) (proto : D → Option (Option J))
    (get_denoms : S → IbcDenomTrace → (Option Error × IbcDenomTrace) × S) where
  abbrev pub publish : Text → Polled J S → Result (Transaction J) × S → Result (Polled J S)
  publish h p (ok t, s) = ok (record {
    current_set = h ∷ p.current_set;
    mempool_set = h ∷ p.mempool_set;
    txs = p.txs ++ t ∷ [];
    outside = s;
  })
  publish h p (err e, s) = err e
  publish h p (panic, s) = panic

  -- One round of the loop.
  unfoldable pub poll_one : Text → Polled J S → Result (Polled J S)
  poll_one tx p =
      let h = hash tx in
      if contains p.mempool_set h
      then ok (record p { current_set = h ∷ p.current_set })
      else publish h p
          (translate_transaction encode_hex decode messages proto get_denoms p.outside tx h [] none)

  unfoldable pub poll_all : List Text → Polled J S → Result (Polled J S)
  unfolding poll_one
  poll_all [] p = ok p
  poll_all (tx ∷ txs) p = elim (poll_one tx p) [
    | ok p' ↦ poll_all txs p'
    | err e ↦ err e
    | panic ↦ panic
  ]

  abbrev pub start : List Text → S → Polled J S
  start set s = record { current_set = []; mempool_set = set; txs = []; outside = s }

  -- Mempool on the node's answer: the transactions, the new set, and the state outside. A failure,
  -- and an answer of no transactions, leaves the set alone.
  unfoldable pub mempool :
      List Text → S → Result Unconfirmed → Result (List (Transaction J)) × List Text × S
  unfolding poll_all
  mempool set s (err e) = (err e, set, s)
  mempool set s panic = (panic, set, s)
  mempool set s (ok res) =
      if res.count == 0 then (ok [], set, s) else elim (poll_all res.txs (start set s)) [
        | ok p ↦ (ok p.txs, filter (contains p.current_set) p.mempool_set, p.outside)
        | err e ↦ (err e, set, s)
        | panic ↦ (panic, set, s)
      ]
