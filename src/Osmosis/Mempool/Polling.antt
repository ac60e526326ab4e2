-- ===== src/Osmosis/Mempool/Polling.antt =====
-- The loop of the poll: what it did to its sets, what it publishes, and that it ends.
use osmosis_publisher.Prelude.{
  pair_eq, Text, text_eq, ◌≡◌, refl, sym, ◌∙◌, ap, List, [], ◌∷◌, ◌++◌, map, append-nil,
  append_assoc, true, false, ◌||◌, ◌==◌, nat_eq, ==_cases, contains, Option, none, some, arith,
  Bool-cases, Option-cases, inl, inr, All,
}
use osmosis_publisher.Types.{ok_inj, Error, Result, Result-cases, ok}
use osmosis_publisher.Osmosis.Messages.{
  Message, IbcDenomTrace, Transaction, translate_transaction, get_denoms_from_transactions, bare,
  with_tx, with_metadata,
}
use osmosis_publisher.Osmosis.Messages.Naming.{IsFunded, add_messages_total}
use osmosis_publisher.Osmosis.Mempool.{Unconfirmed, Polled, poll_one, poll_all, mempool}
use osmosis_publisher.Osmosis.Mempool.Fresh.{fresh, fresh_seen, fresh_new}

ids-append :
    {J : Type 0} (xs ys : List (Transaction J))
    → map (λ t. t.tx_id) (xs ++ ys) ≡ map (λ t. t.tx_id) xs ++ map (λ t. t.tx_id) ys
ids-append [] ys = refl
ids-append (x ∷ xs) ys = ap (λ l. x.tx_id ∷ l) (ids-append xs ys)

pub map_empty : {J : Type 0} (txs : List (Transaction J)) → map (λ t. t.tx_id) txs ≡ [] → txs ≡ []
map_empty [] e = refl
map_empty (t ∷ txs) e = cc

module _ {S D J : Type 0} (hash : Text → Text) (encode_hex : Text → Text) (decode : Text → Option D)
    (messages : D → List Message) (proto : D → Option (Option J))
    (get_denoms : S → IbcDenomTrace → (Option Error × IbcDenomTrace) × S) where
  abbrev translate : S → Text → Text → Result (Transaction J) × S
  translate s tx h =
      translate_transaction encode_hex decode messages proto get_denoms s tx h [] none

  abbrev pub one : Text → Polled J S → Result (Polled J S)
  one = poll_one hash encode_hex decode messages proto get_denoms

  abbrev pub loop : List Text → Polled J S → Result (Polled J S)
  loop = poll_all hash encode_hex decode messages proto get_denoms

  abbrev pub poll :
      List Text → S → Result Unconfirmed → Result (List (Transaction J)) × List Text × S
  poll = mempool hash encode_hex decode messages proto get_denoms

  filled-tx_id :
      (j : Option (Option J)) (found : Option Error × IbcDenomTrace) (t : Transaction J)
      → (with_tx encode_hex decode messages proto get_denoms j
          (with_metadata encode_hex decode messages proto get_denoms found t)).tx_id
        ≡ t.tx_id
  filled-tx_id none (none, c) t = refl
  filled-tx_id none (some f, c) t = refl
  filled-tx_id (some j) (none, c) t = refl
  filled-tx_id (some j) (some f, c) t = refl

  -- A translation names its transaction.
  translate-tx_id :
      (s : S) (tx h : Text) (t : Transaction J) → (translate s tx h).0 ≡ ok t → t.tx_id ≡ h
  unfolding translate_transaction
  translate-tx_id s tx h t e =
      let bare' = bare {S = S} encode_hex decode messages proto get_denoms tx h [] none in
      elim (Option-cases (decode tx)) [
        | inl d ↦ ground (arith, d, e)
        | inr (d, k) ↦
            let r = get_denoms_from_transactions encode_hex decode messages proto get_denoms s d in
            elim (Result-cases r.0) [
              | inl (found, g) ↦ ground (arith, k, g, e, filled-tx_id (proto d) found bare')
              | inr (inl (f, g)) ↦ absurd (ground (arith, k, g, e))
              | inr (inr g) ↦ absurd (ground (arith, k, g, e))
            ]
      ]

  -- A round on a hash that was seen, and on one that was not.
  one_seen :
      (tx : Text) (p : Polled J S)
      → contains p.mempool_set (hash tx) ≡ true
      → one tx p ≡ ok (record p { current_set = hash tx ∷ p.current_set })
  unfolding poll_one
  one_seen tx p e = rw (poll_one, e) refl

  one_new :
      (tx : Text) (p q : Polled J S)
      → contains p.mempool_set (hash tx) ≡ false
      → one tx p ≡ ok q
      → (q.current_set ≡ hash tx ∷ p.current_set)
        × (q.mempool_set ≡ hash tx ∷ p.mempool_set)
        × (map (λ t. t.tx_id) q.txs ≡ map (λ t. t.tx_id) p.txs ++ hash tx ∷ [])
  unfolding poll_one
  one_new tx p q e h =
      let r = translate p.outside tx (hash tx) in
      elim (Result-cases r.0) [
        | inl (t, k) ↦
            let id = translate-tx_id p.outside tx (hash tx) t k in
            let q' : ok q
                ≡ ok (record {
                  current_set = hash tx ∷ p.current_set;
                  mempool_set = hash tx ∷ p.mempool_set;
                  txs = p.txs ++ t ∷ [];
                  outside = r.1;
                }) =
              ground (arith, e, h, k) in
            let same = ok_inj q _ q' in
            (
              ap (λ z. z.current_set) same,
              ap (λ z. z.mempool_set) same,
              rw same (ids-append p.txs (t ∷ []) ∙ rw id refl),
            )
        | inr (inl (f, k)) ↦ absurd (ground (arith, e, h, k))
        | inr (inr k) ↦ absurd (ground (arith, e, h, k))
      ]

  -- What the loop did to the sets, and the hashes of what it publishes.
  abbrev Did : List Text → Polled J S → Polled J S → Type 0
  Did txs p q =
      ((h : Text)
        → contains q.current_set h ≡ (contains p.current_set h || contains (map hash txs) h))
      × ((h : Text)
          → contains q.mempool_set h ≡ (contains p.mempool_set h || contains (map hash txs) h))
      × (map (λ t. t.tx_id) q.txs ≡ map (λ t. t.tx_id) p.txs ++ fresh p.mempool_set (map hash txs))

  seen_already :
      (xs : List Text) (x h : Text)
      → contains xs x ≡ true
      → contains xs h ≡ (contains xs h || x == h)
  seen_already xs x h e = elim (==_cases x h) [
    | inl (t, p) ↦ ground (arith, e, t, ap (contains xs) p)
    | inr (f, p) ↦ ground (arith, f)
  ]

  pub loop-Did : (txs : List Text) (p q : Polled J S) → loop txs p ≡ ok q → Did txs p q
  unfolding poll_all fresh
  loop-Did [] p q e =
      let same = ok_inj p q e in
      (
        λ h. ground (arith, ap (λ z. contains z.current_set h) same),
        λ h. ground (arith, ap (λ z. contains z.mempool_set h) same),
        rw same (sym (append-nil (map (λ t. t.tx_id) q.txs))),
      )
  loop-Did (tx ∷ txs) p q e = elim (Result-cases (one tx p)) [
    | inr (inl (f, k)) ↦ absurd (ground (arith, e, k))
    | inr (inr k) ↦ absurd (ground (arith, e, k))
    | inl (p', k) ↦
        let (a, b, c) = loop-Did txs p' q (ground (arith, e, k)) in
        elim (Bool-cases (contains p.mempool_set (hash tx))) [
          | inl seen ↦
              let same = ok_inj _ p' (sym (one_seen tx p seen) ∙ k) in
              let current = ap (λ z. z.current_set) (sym same) in
              let seen_set = ap (λ z. z.mempool_set) (sym same) in
              let published = ap (λ z. z.txs) (sym same) in
              (
                λ h. ground (arith, a h, ap (λ l. contains l h) current),
                λ h. ground (
                  arith,
                  b h,
                  ap (λ l. contains l h) seen_set,
                  seen_already p.mempool_set (hash tx) h seen,
                ),
                c
                    ∙ ap
                        (λ (z : List (Transaction J) × List Text).
                          map (λ t. t.tx_id) z.0 ++ fresh z.1 (map hash txs))
                        (pair_eq published seen_set)
                    ∙ ap (λ l. map (λ t. t.tx_id) p.txs ++ l)
                        (sym (fresh_seen (hash tx) (map hash txs) p.mempool_set seen)),
              )
          | inr new ↦
              let (a', b', c') = one_new tx p p' new k in
              (
                λ h. ground (arith, a h, ap (λ l. contains l h) a'),
                λ h. ground (arith, b h, ap (λ l. contains l h) b'),
                c
                    ∙ ap (λ (z : List Text × List Text). z.0 ++ fresh z.1 (map hash txs))
                        (pair_eq c' b')
                    ∙ append_assoc (map (λ t. t.tx_id) p.txs) (hash tx ∷ [])
                        (fresh (hash tx ∷ p.mempool_set) (map hash txs))
                    ∙ ap (λ l. map (λ t. t.tx_id) p.txs ++ l)
                        (sym (fresh_new (hash tx) (map hash txs) p.mempool_set new)),
              )
        ]
  ]

  translate_total :
      (s : S) (tx h : Text)
      → ((d : D) → All IsFunded (messages d))
      → (t : Transaction J) × ((translate s tx h).0 ≡ ok t)
  unfolding translate_transaction get_denoms_from_transactions
  translate_total s tx h f =
      let bare' = bare {S = S} encode_hex decode messages proto get_denoms tx h [] none in
      elim (Option-cases (decode tx)) [
        | inl e ↦ (bare', ground (arith, e))
        | inr (d, e) ↦
            let (c, k) = add_messages_total (messages d) [] (f d) in
            let found =
              with_metadata encode_hex decode messages proto get_denoms (get_denoms s c).0 bare' in
            (
              with_tx encode_hex decode messages proto get_denoms (proto d) found,
              ground (arith, e, k),
            )
      ]

  one_total :
      (tx : Text) (p : Polled J S)
      → ((d : D) → All IsFunded (messages d))
      → (q : Polled J S) × (one tx p ≡ ok q)
  unfolding poll_one
  one_total tx p f = elim (Bool-cases (contains p.mempool_set (hash tx))) [
    | inl e ↦ (record p { current_set = hash tx ∷ p.current_set }, one_seen tx p e)
    | inr e ↦
        let r = translate p.outside tx (hash tx) in
        let (t, k) = translate_total p.outside tx (hash tx) f in
        (
          record {
            current_set = hash tx ∷ p.current_set;
            mempool_set = hash tx ∷ p.mempool_set;
            txs = p.txs ++ t ∷ [];
            outside = r.1;
          },
          ground (arith, e, k),
        )
  ]

  pub loop_total :
      (txs : List Text) (p : Polled J S)
      → ((d : D) → All IsFunded (messages d))
      → (q : Polled J S) × (loop txs p ≡ ok q)
  unfolding poll_all
  loop_total [] p f = (p, refl)
  loop_total (tx ∷ txs) p f =
      let (p', e) = one_total tx p f in
      let (q, e') = loop_total txs p' f in (q, ground (arith, e, e'))
