-- ===== src/Indexer/Syncing/Waiting.antt =====
-- The channel of heights (internal/indexer/syncing.go): what queueMissingHeights sends through it, in
-- whatever turns, is what `queue_missing_heights` puts in the queue in one step.
use osmosis_publisher.Prelude.{
  ℕ, zero, suc, ◌-◌, ◌≤◌, ◌<◌, ◌≡◌, refl, ◌∙◌, sym, ap, true, List, [], ◌∷◌, ◌++◌, append-nil,
  length, arith, is_empty, sub64,
}
use osmosis_publisher.Pools.{PoolMap}
use osmosis_publisher.Indexer.{Indexer, default_blocks_per_hour}
use osmosis_publisher.Indexer.Syncing.{missing_from, queue_missing_heights}
use osmosis_publisher.Indexer.Syncing.Channel.{
  Channel, Turn, send_round, send_turn, receive_turn, turn, turns, Agrees, all_heights,
}
use osmosis_publisher.Indexer.Syncing.Sending.{turns-all_heights, turns-bound}

-- The channel when queueMissingHeights begins with nothing in it.
abbrev pub opened : {F : Type 0} → Indexer F → ℕ → Channel
opened d blocks =
    let start = sub64 d.current_block_height blocks in
    record { next = start; left = d.current_block_height - start; sync_heights = []; received = [] }

-- Turns of the receiver and the sender one after the other.
unfoldable pub rounds : PoolMap → ℕ → List Turn
rounds pools zero = []
rounds pools (suc n) = Turn.receives ∷ Turn.sends pools ∷ rounds pools n

module _ (ids : List ℕ) (pools : PoolMap) where
  send_turn-left :
      (next n : ℕ) (heights received : List ℕ)
      → length heights < default_blocks_per_hour
      → (send_turn ids pools
          (record { next = next; left = suc n; sync_heights = heights; received = received })).left
        ≡ n
  unfolding send_turn send_round
  send_turn-left next n heights received h = ground arith

  round-left :
      (next n : ℕ) (heights received : List ℕ)
      → length heights ≤ default_blocks_per_hour
      → (send_turn ids pools (
          receive_turn ids (record {
            next = next;
            left = suc n;
            sync_heights = heights;
            received = received;
          }))).left
        ≡ n
  unfolding receive_turn
  round-left next n [] received h = send_turn-left next n [] received (omega arith)
  round-left next n (x ∷ xs) received h =
      send_turn-left next n xs (received ++ x ∷ []) (omega arith)

  rounds_end :
      (n : ℕ) (c : Channel)
      → c.left ≡ n
      → length c.sync_heights ≤ default_blocks_per_hour
      → (turns ids (rounds pools n) c).left ≡ 0
  unfolding rounds turns turn
  rounds_end zero c e h = e
  rounds_end (suc n) c e h =
      let after = send_turn ids pools (receive_turn ids c) in
      let one : after.left ≡ n =
        ap (λ k. (send_turn ids pools (receive_turn ids (record c { left = k }))).left) e
        ∙ round-left c.next n c.sync_heights c.received h in
      rounds_end n after one (turns-bound ids (Turn.receives ∷ Turn.sends pools ∷ []) c h)

  rounds-Agrees : (n : ℕ) (c : Channel) → Agrees ids pools (rounds pools n) c
  unfolding rounds
  rounds-Agrees zero c = tt
  rounds-Agrees (suc n) c =
      (refl, rounds-Agrees n (turn ids (Turn.sends pools) (turn ids Turn.receives c)))

-- From an empty channel, in whatever turns of queueMissingHeights and handleSyncing, if a pool is
-- missing at a height when the sender looks just if one was at the start: the channel never has
-- more than its 720 heights; what was received, what is in it, and what is still missing are
-- together the heights that `queue_missing_heights` queues, in order; and as many more rounds of
-- a receive and a send as heights are left end the run, with those heights received or in it.
pub turns-queue_missing_heights :
    {F : Type 0} (d : Indexer F) (blocks : ℕ) (ts : List Turn)
    → is_empty d.sync_heights ≡ true
    → Agrees d.pool_ids_to_monitor d.pools ts (opened d blocks)
    → let c = turns d.pool_ids_to_monitor ts (opened d blocks) in
      let c' = turns d.pool_ids_to_monitor (rounds d.pools c.left) c in
      let queue = (queue_missing_heights d blocks).sync_heights in
      (length c.sync_heights ≤ default_blocks_per_hour)
      × (all_heights d.pool_ids_to_monitor d.pools c ≡ queue)
      × (c'.left ≡ 0)
      × (c'.received ++ c'.sync_heights ≡ queue)
unfolding queue_missing_heights missing_from
turns-queue_missing_heights d blocks ts idle agrees =
    let ids = d.pool_ids_to_monitor in
    let c = turns ids ts (opened d blocks) in
    let c' = turns ids (rounds d.pools c.left) c in
    let queue = (queue_missing_heights d blocks).sync_heights in
    let bound = turns-bound ids ts (opened d blocks) (omega arith) in
    let started : all_heights ids d.pools (opened d blocks) ≡ queue =
      rw (queue_missing_heights, idle) refl in
    let sent = turns-all_heights ids d.pools ts (opened d blocks) agrees ∙ started in
    let ended = rounds_end ids d.pools c.left c refl bound in
    let last =
      turns-all_heights ids d.pools (rounds d.pools c.left) c (rounds-Agrees ids d.pools c.left c)
      ∙ sent in
    let rest : all_heights ids d.pools c' ≡ c'.received ++ c'.sync_heights =
      ap (λ n. c'.received ++ (c'.sync_heights ++ missing_from d.pools ids c'.next n)) ended
      ∙ ap (λ l. c'.received ++ l) (append-nil c'.sync_heights) in
    (bound, sent, ended, sym rest ∙ last)
