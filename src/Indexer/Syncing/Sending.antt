-- ===== src/Indexer/Syncing/Sending.antt =====
-- The channel of heights (internal/indexer/syncing.go): what is received, whatever the turns.
use osmosis_publisher.Prelude.{
  ℕ, zero, suc, ◌≤◌, ◌≡◌, refl, ◌∙◌, sym, ap, true, false, List, [], ◌∷◌, ◌++◌, append_assoc,
  length, length-append, ltb, arith, inl, inr, Bool-cases,
}
use osmosis_publisher.Pools.{PoolMap}
use osmosis_publisher.Indexer.{default_blocks_per_hour}
use osmosis_publisher.Indexer.Syncing.{is_missing, missing_from}
use osmosis_publisher.Indexer.Syncing.Channel.{
  Channel, Turn, send_round, send_turn, receive_turn, turn, turns, Agrees, all_heights,
}

module _ (ids : List ℕ) where
  missing_from_here :
      (pools : PoolMap) (start n : ℕ)
      → is_missing pools ids start ≡ true
      → missing_from pools ids start (suc n) ≡ start ∷ missing_from pools ids (suc start) n
  unfolding missing_from
  missing_from_here pools start n e = rw (missing_from, e) refl

  missing_from_later :
      (pools : PoolMap) (start n : ℕ)
      → is_missing pools ids start ≡ false
      → missing_from pools ids start (suc n) ≡ missing_from pools ids (suc start) n
  unfolding missing_from
  missing_from_later pools start n e = rw (missing_from, e) refl

  send_turn-all_heights :
      (pools now : PoolMap) (next left : ℕ) (heights received : List ℕ)
      → is_missing now ids next ≡ is_missing pools ids next
      → let c : Channel = record {
        next = next;
        left = left;
        sync_heights = heights;
        received = received;
      } in
        all_heights ids pools (send_turn ids now c) ≡ all_heights ids pools c
  unfolding send_turn send_round
  send_turn-all_heights pools now next zero heights received same = refl
  send_turn-all_heights pools now next (suc n) heights received same =
      elim (Bool-cases (is_missing now ids next)) [
        | inr e ↦
            rw (send_round, e)
              (ap (λ l. received ++ (heights ++ l))
                (sym (missing_from_later pools next n (sym same ∙ e))))
        | inl e ↦ elim (Bool-cases (ltb (length heights) default_blocks_per_hour)) [
          | inr f ↦ rw (send_round, e, f) refl
          | inl f ↦
              rw (send_round, e, f)
                (ap (λ l. received ++ l)
                  (append_assoc heights (next ∷ []) (missing_from pools ids (suc next) n)
                    ∙ ap (λ l. heights ++ l) (sym (missing_from_here pools next n (sym same ∙ e)))))
        ]
      ]

  receive_turn-all_heights :
      (pools : PoolMap) (next left : ℕ) (heights received : List ℕ)
      → let c : Channel = record {
        next = next;
        left = left;
        sync_heights = heights;
        received = received;
      } in
        all_heights ids pools (receive_turn ids c) ≡ all_heights ids pools c
  unfolding receive_turn
  receive_turn-all_heights pools next left [] received = refl
  receive_turn-all_heights pools next left (h ∷ hs) received =
      append_assoc received (h ∷ []) (hs ++ missing_from pools ids next left)

  pub turns-all_heights :
      (pools : PoolMap) (ts : List Turn) (c : Channel)
      → Agrees ids pools ts c
      → all_heights ids pools (turns ids ts c) ≡ all_heights ids pools c
  unfolding turns turn
  turns-all_heights pools [] c a = refl
  turns-all_heights pools (Turn.sends now ∷ ts) c a =
      turns-all_heights pools ts (send_turn ids now c) a.1
      ∙ send_turn-all_heights pools now c.next c.left c.sync_heights c.received a.0
  turns-all_heights pools (Turn.receives ∷ ts) c a =
      turns-all_heights pools ts (receive_turn ids c) a
      ∙ receive_turn-all_heights pools c.next c.left c.sync_heights c.received

  send_turn-bound :
      (now : PoolMap) (next left : ℕ) (heights received : List ℕ)
      → length heights ≤ default_blocks_per_hour
      → let c : Channel = record {
        next = next;
        left = left;
        sync_heights = heights;
        received = received;
      } in
        length (send_turn ids now c).sync_heights ≤ default_blocks_per_hour
  unfolding send_turn send_round
  send_turn-bound now next zero heights received h = h
  send_turn-bound now next (suc n) heights received h =
      ground (arith, h, length-append heights (next ∷ []))

  receive_turn-bound :
      (c : Channel)
      → length c.sync_heights ≤ default_blocks_per_hour
      → length (receive_turn ids c).sync_heights ≤ default_blocks_per_hour
  unfolding receive_turn
  receive_turn-bound c h = ground arith

  pub turns-bound :
      (ts : List Turn) (c : Channel)
      → length c.sync_heights ≤ default_blocks_per_hour
      → length (turns ids ts c).sync_heights ≤ default_blocks_per_hour
  unfolding turns turn
  turns-bound [] c h = h
  turns-bound (Turn.sends now ∷ ts) c h =
      turns-bound ts (send_turn ids now c)
        (send_turn-bound now c.next c.left c.sync_heights c.received h)
  turns-bound (Turn.receives ∷ ts) c h =
      turns-bound ts (receive_turn ids c) (receive_turn-bound c h)
