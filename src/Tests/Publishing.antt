-- ===== src/Tests/Publishing.antt =====
-- Tests and witnesses of the client of the node: messages, the mempool, the event buffer, and the
-- questions to the node.
use osmosis_publisher.Prelude.{
  ℕ, pos, Text, codes, text_eq, ◌≡◌, refl, List, [], ◌∷◌, ◌++◌, map, some, none, Option, insert,
  arith, contains, ◌||◌, has_prefix, to_lower, text_beq, All,
}
use osmosis_publisher.Types.{Result, ok, Coins}
use osmosis_publisher.Osmosis.Messages.{
  Message, Transaction, add_messages, add_message, add_heads, add, no_trace,
}
use osmosis_publisher.Osmosis.Messages.Naming.{has, asked, all_named, add_messages-named, IsFunded}
use osmosis_publisher.Osmosis.Mempool.{Unconfirmed, mempool}
use osmosis_publisher.Osmosis.Mempool.Fresh.{fresh}
use osmosis_publisher.Osmosis.Mempool.Seen.{mempool_poll, mempool_returning}
use osmosis_publisher.Osmosis.EventBuffer.{Buffer, Step, steps}
use osmosis_publisher.Osmosis.EventBuffer.Delivery.{IsPart, steps-IsPart}
use osmosis_publisher.Osmosis.Queries.{client, with_node}
use osmosis_publisher.Osmosis.Queries.Answered.{Serves, denom_traces-joined}
use osmosis_publisher.Tests.{service, trace, outside, coins}

abbrev atom : Text
atom = codes "ibc/27"

abbrev sent : Coins
sent = record { denom = atom; amount = pos 1 } ∷ []

abbrev sends : List Message
sends = Message.multi_send (sent ∷ []) (coins ∷ []) ∷ Message.send coins ∷ []

named_now : add_messages [] sends ≡ ok ((atom, no_trace) ∷ [])
unfolding add_messages add_message add_heads add has_prefix to_lower insert text_beq
named_now = refl

add_messages-named_example :
    has ((atom, no_trace) ∷ []) atom ≡ (has [] atom || asked atom (all_named sends))
add_messages-named_example = add_messages-named sends [] ((atom, no_trace) ∷ []) atom named_now

-- A codec whose transactions are all sends, which hashes a transaction to itself.
abbrev decode_all : Text → Option (Unit {0})
decode_all tx = some tt

abbrev poll : List Text → Result Unconfirmed → Result (List (Transaction ℕ)) × List Text × Unit {0}
poll set answer =
    mempool (λ tx. tx) (λ tx. tx) decode_all (λ d. sends) (λ d. some (some 0))
      (λ s traces. ((none, traces), s)) set tt answer

abbrev two_txs : Unconfirmed
two_txs = record { count = 2; txs = codes "a" ∷ codes "b" ∷ [] }

abbrev no_txs : Unconfirmed
no_txs = record { count = 0; txs = [] }

all-IsFunded : (d : Unit {0}) → All IsFunded sends
all-IsFunded d = (((refl, tt), (refl, tt)), (refl, tt))

mempool_poll_example :
    (txs : List (Transaction ℕ)) × (next : List Text) × (s' : Unit {0}) × (poll
        (codes "a" ∷ [])
        (ok two_txs)
      ≡ (ok txs, next, s'))
    × (map (λ t. t.tx_id) txs ≡ fresh (codes "a" ∷ []) (map (λ tx. tx) two_txs.txs))
    × ((h : Text) → contains next h ≡ contains (map (λ tx. tx) two_txs.txs) h)
mempool_poll_example =
    mempool_poll (λ tx. tx) (λ tx. tx) decode_all (λ d. sends) (λ d. some (some 0))
      (λ s traces. ((none, traces), s)) (codes "a" ∷ []) tt two_txs all-IsFunded (λ e. omega arith)

mempool_returning_example :
    let after = poll two_txs.txs (ok no_txs) in (poll after.1 (ok two_txs)).0 ≡ ok []
mempool_returning_example =
    mempool_returning (λ tx. tx) (λ tx. tx) decode_all (λ d. sends) (λ d. some (some 0))
      (λ s traces. ((none, traces), s)) two_txs.txs tt no_txs two_txs all-IsFunded refl
      (λ e. omega arith) (λ h k. k)

abbrev events : List (Step ℕ)
events =
    Step.arrive 1 ∷ Step.arrive 2 ∷ Step.take_one ∷ Step.report ∷ Step.arrive 3 ∷ Step.take_one ∷ []

abbrev quiet : Buffer ℕ
quiet = record {
  ch = [];
  evt_counter = 0;
  evt_skip_counter = 0;
  queue_max_size = 0;
  max_queue_size = 0;
}

delivered : (steps 1 events quiet).0 ≡ 1 ∷ 3 ∷ []
unfolding steps
delivered = refl

steps-IsPart_example :
    IsPart ((steps 1 events quiet).0 ++ (steps 1 events quiet).1.ch) (1 ∷ 2 ∷ 3 ∷ [])
steps-IsPart_example = steps-IsPart 1 events quiet

denom_traces-joined_example :
    (client service 3).denom_traces outside ≡ (ok (trace ∷ []), with_node outside tt)
denom_traces-joined_example =
    denom_traces-joined service 3 outside tt ((trace ∷ []) ∷ [])
      (Serves.last tt tt none (trace ∷ []) refl) (omega arith)
