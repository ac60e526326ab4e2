-- ===== src/Indexer/Syncing/Channel.antt =====
-- The channel of heights (internal/indexer/syncing.go): queueMissingHeights sends into it and waits
-- where it is full, and handleSyncing receives from it. The two goroutines take turns: a run is a
-- list of their turns, in any order, each of the sender with the pools that are cached then.
use osmosis_publisher.Prelude.{ℕ, zero, suc, ◌≡◌, List, [], ◌∷◌, ◌++◌, length, ltb, if◌then◌else◌}
use osmosis_publisher.Pools.{PoolMap}
use osmosis_publisher.Indexer.{default_blocks_per_hour}
use osmosis_publisher.Indexer.Syncing.{is_missing, missing_from}

-- The sender's next height and how many are left, what is in the channel, what was received.
pub record Channel : Type 0 where
  pub next : ℕ
  pub left : ℕ
  pub sync_heights : List ℕ
  pub received : List ℕ

pub data Turn : Type 0 where
  sends : PoolMap → Turn
  receives : Turn

-- The channel after the next height was looked at.
abbrev passed : ℕ → Channel → List ℕ → Channel
passed n c heights = record {
  next = suc c.next;
  left = n;
  sync_heights = heights;
  received = c.received;
}

module _ (ids : List ℕ) where
  -- A round of the loop of queueMissingHeights, with a number of rounds after it; a send into a
  -- full channel waits.
  unfoldable pub send_round : PoolMap → Channel → ℕ → Channel
  send_round pools c n =
      if is_missing pools ids c.next
      then (if ltb (length c.sync_heights) default_blocks_per_hour
          then passed n c (c.sync_heights ++ c.next ∷ [])
          else c)
      else passed n c c.sync_heights

  unfoldable pub send_turn : PoolMap → Channel → Channel
  unfolding send_round
  send_turn pools c = elim (c.left) [ zero ↦ c | suc n ↦ send_round pools c n ]

  -- A receive of handleSyncing; from an empty channel it waits.
  unfoldable pub receive_turn : Channel → Channel
  receive_turn c = elim (c.sync_heights) [
    | [] ↦ c
    | height ∷ rest ↦ record c { sync_heights = rest; received = c.received ++ height ∷ [] }
  ]

  unfoldable pub turn : Turn → Channel → Channel
  unfolding send_turn receive_turn
  turn (Turn.sends pools) c = send_turn pools c
  turn Turn.receives c = receive_turn c

  unfoldable pub turns : List Turn → Channel → Channel
  unfolding turn
  turns [] c = c
  turns (t ∷ ts) c = turns ts (turn t c)

  -- Each height that the sender looks at is missing then if it is among the given pools.
  abbrev pub Agrees : PoolMap → List Turn → Channel → Type 0
  Agrees pools [] c = Unit
  Agrees pools (Turn.sends now ∷ ts) c =
      (is_missing now ids c.next ≡ is_missing pools ids c.next)
      × Agrees pools ts (turn (Turn.sends now) c)
  Agrees pools (Turn.receives ∷ ts) c = Agrees pools ts (turn Turn.receives c)

  -- What was received, what is in the channel, and what the sender will still find missing.
  abbrev pub all_heights : PoolMap → Channel → List ℕ
  all_heights pools c = c.received ++ (c.sync_heights ++ missing_from pools ids c.next c.left)
