-- ===== src/Osmosis/Publisher.antt =====
-- The publisher (internal/osmosis/publisher.go): its counters, the messages that it publishes, and
-- the steps of its handlers. A run of a handler for one event is one step; a panic ends the
-- process. `sent` has what Publish was called with, the latest first: its error is not looked at.
pub mod Handlers
pub mod PoolEvents
pub mod Events
pub mod Counted
pub mod Nonces
pub mod PoolNonces
pub mod Sentinel
pub mod Watched
pub mod Reports
use osmosis_publisher.Prelude.{
  ℕ, suc, ◌+◌, ◌*◌, ℤ, pos, negsuc, add64, to_int64, Text, codes, List, [], ◌∷◌, decimal, Option,
  none, some, ◌⊎◌, inl, inr, length,
}
use osmosis_publisher.Types.{Time, PoolStatus, Error, Result, ok, err, panic}
use osmosis_publisher.Interfaces.{Block}
use osmosis_publisher.Indexer.{World, Exec}
use osmosis_publisher.Osmosis.Messages.{IbcDenomTrace, Transaction}

-- The counters of getStatus, which are uint64 (`counter` is an int64), and the totals, which only
-- grow; `mempool_set` is the client's.
pub record Publisher : Type 0 where
  pub counter : ℕ
  pub mempool_messages : ℕ
  pub published_messages : ℕ
  pub block_counter : ℕ
  pub tx_counter : ℕ
  pub pool_counter : ℕ
  pub err_counter : ℕ
  pub evt_other_counter : ℕ
  pub blocks_total : ℕ
  pub transactions_total : ℕ
  pub mempool_total : ℕ
  pub messages_total : ℕ
  pub prices_total : ℕ
  pub block_height : ℤ
  pub mempool_set : List Text

-- The messages: `B` is a block in protobuf, `J` a transaction's decoded form, `P` a pool's state.
pub data Outgoing (F B J P : Type 0) : Type 0 where
  block_message : (nonce : Text) → B → Outgoing F B J P
  tx_message : Transaction J → Outgoing F B J P
  mempool_message : (nonce : Text) → List (Transaction J) → Outgoing F B J P
  volume_message :
      (nonce : Text) (height : ℤ) (hash : Text) (avg_block_time : F)
      → List (PoolStatus F)
      → IbcDenomTrace
      → Outgoing F B J P
  pools_message :
      (nonce : Text) (height : ℤ) (hash : Text) (avg_block_time : F)
      → List (Text × List Text)
      → List P
      → List (PoolStatus F)
      → IbcDenomTrace
      → Outgoing F B J P

-- What getStatus reports.
pub record Report : Type 0 where
  pub blocks : ℕ
  pub unknown_events : ℕ
  pub txs : ℕ
  pub pools : ℕ
  pub errors : ℕ
  pub mempool_txs : ℕ
  pub published : ℕ

pub record Site (F S B J P : Type 0) : Type 0 where
  pub publisher : Publisher
  pub world : World F S
  pub sent : List (Outgoing F B J P × List Text)
  pub reports : List Report

-- fmt.Sprint of an int64.
unfoldable pub sprint : ℤ → Text
sprint (pos n) = decimal n
sprint (negsuc n) = b'-' ∷ decimal (suc n)

-- A step that succeeds, fails or panics.
abbrev pub Act : Type 0 → Type 0 → Type 0
Act X A = X → Result A × X

module _ {X A C : Type 0} where
  abbrev pub followed : Result A × X → (A → Act X C) → Result C × X
  followed (ok a, s) f = f a s
  followed (err e, s) f = (err e, s)
  followed (panic, s) f = (panic, s)

  infixl 5 ◌>>=◌
  abbrev pub ◌>>=◌ : Act X A → (A → Act X C) → Act X C
  ◌>>=◌ m f s = followed (m s) f

module _ {X C : Type 0} where
  infixl 5 ◌>>◌
  abbrev pub ◌>>◌ : Act X (Unit {0}) → Act X C → Act X C
  m >> k = m >>= λ _. k

  abbrev pub pure : C → Act X C
  pure a s = (ok a, s)

module _ {F S B J P : Type 0} where
  -- A step of the indexer, with what is outside.
  abbrev pub inside : {A : Type 0} → Exec F S A → Act (Site F S B J P) A
  inside m s = ((m s.world).0, record s { world = (m s.world).1 })

  -- A step of the outside alone.
  abbrev pub outside : {A : Type 0} → (S → A × S) → Act (Site F S B J P) A
  outside f s =
      let answer = f s.world.outside in
      (ok answer.0, record s { world = record s.world { outside = answer.1 } })

  abbrev pub update : (Publisher → Publisher) → Act (Site F S B J P) (Unit {0})
  update f s = (ok tt, record s { publisher = f s.publisher })

  -- NewNonce
  unfoldable pub new_nonce : Act (Site F S B J P) Text
  unfolding sprint
  new_nonce s =
      let next = add64 s.publisher.counter 1 in
      (ok (sprint (to_int64 next)), record s { publisher = record s.publisher { counter = next } })

  -- Publish, and the count of what was published.
  unfoldable pub publish : Outgoing F B J P → List Text → Act (Site F S B J P) (Unit {0})
  publish m suffixes s = (
    ok tt,
    record s {
      sent = (m, suffixes) ∷ s.sent;
      publisher = record s.publisher { messages_total = s.publisher.messages_total + 1 };
    },
  )

  -- getStatus: the counters since the last report.
  unfoldable pub get_status : Act (Site F S B J P) (Unit {0})
  get_status s =
      let p = s.publisher in
      let report : Report = record {
        blocks = p.block_counter;
        unknown_events = p.evt_other_counter;
        txs = p.tx_counter;
        pools = p.pool_counter;
        errors = p.err_counter;
        mempool_txs = p.mempool_messages;
        published = p.published_messages;
      } in
      (
        ok tt,
        record s {
          reports = report ∷ s.reports;
          publisher = record p {
            block_counter = 0;
            evt_other_counter = 0;
            tx_counter = 0;
            pool_counter = 0;
            err_counter = 0;
            mempool_messages = 0;
            published_messages = 0;
          };
        },
      )
