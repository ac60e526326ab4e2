-- ===== src/Indexer.antt =====
-- internal/indexer: the state of the indexer, and its monad of fallible steps over that state and
-- the state outside.
pub mod PoolStatus
pub mod BlockClock
pub mod DenomTraces
pub mod Syncing
use osmosis_publisher.Prelude.{ℕ, ℤ, Text, List, [], ◌∷◌, Map, Option, none, some, ◌⊎◌, inl, inr}
use osmosis_publisher.Types.{Time, DenomTrace, Error, Result, ok, err, panic}
use osmosis_publisher.Pools.{PoolMap}
use osmosis_publisher.Prices.{PriceMap}

abbrev pub default_blocks_per_hour : ℕ
default_blocks_per_hour = 720

pub record Indexer (F : Type 0) : Type 0 where
  pub ibc_trace_cache : Map Text DenomTrace
  pub ibc_misses : ℕ
  pub err_counter : ℕ
  pub sync_heights : List ℕ
  pub pool_ids_to_monitor : List ℕ
  pub pools : PoolMap
  pub prices : PriceMap F
  pub current_block_height : ℕ
  pub current_block_time : Time
  pub blocks_per_hour : ℤ
  pub last_block_height : ℕ
  pub last_block_timestamp : ℤ

pub record World (F S : Type 0) : Type 0 where
  pub indexer : Indexer F
  pub outside : S

abbrev pub Exec : Type 0 → Type 0 → Type 0 → Type 0
Exec F S A = World F S → Result A × World F S

-- What a step that answers with an error or nil comes to.
abbrev checked : Option Error → Result (Unit {0})
checked none = ok tt
checked (some e) = err e

-- xs[0]
abbrev pub first : {A : Type 0} → List A → Result A
first [] = panic
first (x ∷ xs) = ok x

module _ {F S A B : Type 0} where
  abbrev pub continue : Result A × World F S → (A → Exec F S B) → Result B × World F S
  continue (ok a, w) f = f a w
  continue (err e, w) f = (err e, w)
  continue (panic, w) f = (panic, w)

  infixl 5 ◌>>=◌
  abbrev pub ◌>>=◌ : Exec F S A → (A → Exec F S B) → Exec F S B
  ◌>>=◌ m f w = continue (m w) f

module _ {F S : Type 0} where
  infixl 5 ◌>>◌
  abbrev pub ◌>>◌ : {B : Type 0} → Exec F S (Unit {0}) → Exec F S B → Exec F S B
  m >> k = m >>= λ _. k

module _ {F S A : Type 0} where
  abbrev pub pure : A → Exec F S A
  pure a w = (ok a, w)

  -- A step outside, which leaves the indexer alone.
  abbrev pub call : (S → Result A × S) → Exec F S A
  call f w = ((f w.outside).0, record w { outside = (f w.outside).1 })

  -- A step whose error the caller takes as a value.
  abbrev pub caught : Result A × World F S → Result (A ⊎ Error) × World F S
  caught (ok a, w) = (ok (inl a), w)
  caught (err e, w) = (ok (inr e), w)
  caught (panic, w) = (panic, w)

module _ {F S : Type 0} where
  abbrev pub modify : (Indexer F → Indexer F) → Exec F S (Unit {0})
  modify f w = (ok tt, record w { indexer = f w.indexer })

  abbrev pub run : (S → Option Error × S) → Exec F S (Unit {0})
  run f w = (checked (f w.outside).0, record w { outside = (f w.outside).1 })
