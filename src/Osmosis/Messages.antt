-- ===== src/Osmosis/Messages.antt =====
-- internal/osmosis/rpc.parsers.go: the denominations that a transaction's messages name, and the
-- translation of a raw transaction. What decodes and prints a transaction is cosmos-sdk's, and an
-- argument here. A trace is a map whose entries are filled in by the indexer.
pub mod Naming
use osmosis_publisher.Prelude.{
  ℕ, Text, codes, text_eq, to_lower, has_prefix, List, [], ◌∷◌, map, Map, insert, Option, none,
  some, option_or, Bool, if◌then◌else◌,
}
use osmosis_publisher.Types.{Coin, Coins, DenomTrace, Error, Result, ok, err, panic}

-- The messages that are looked at, with the fields that are read of each.
pub data Message : Type 0 where
  multi_send : (inputs outputs : List Coins) → Message
  send : (amount : Coins) → Message
  transfer : (token : Coin) → Message
  swap_exact_amount_in : (token_in : Coin) (token_out_denoms : List Text) → Message
  swap_exact_amount_out : (token_out : Coin) (token_in_denoms : List Text) → Message
  join_pool : (token_in_maxs : Coins) → Message
  exit_pool : (token_out_mins : Coins) → Message
  other : Message

-- IBCDenomTrace
abbrev pub IbcDenomTrace : Type 0
IbcDenomTrace = Map Text DenomTrace

abbrev pub no_trace : DenomTrace
no_trace = record { path = []; base_denom = [] }

-- IBCDenomTrace.Add
unfoldable pub add : IbcDenomTrace → Text → IbcDenomTrace
add c denom = if has_prefix (to_lower denom) (codes "ibc/") then insert denom no_trace c else c

unfoldable pub add_all : IbcDenomTrace → List Text → IbcDenomTrace
add_all c [] = c
add_all c (d ∷ ds) = add_all (add c d) ds

-- The loop of MsgMultiSend: `Coins[0]` of each entry, which panics where there is none.
unfoldable pub add_heads : IbcDenomTrace → List Coins → Result IbcDenomTrace
add_heads c [] = ok c
add_heads c ([] ∷ _) = panic
add_heads c ((coin ∷ _) ∷ entries) = add_heads (add c coin.denom) entries

abbrev pub denoms_of : Coins → List Text
denoms_of = map (λ c. c.denom)

-- The switch of getDenomsFromTransactions.
unfoldable pub add_message : IbcDenomTrace → Message → Result IbcDenomTrace
unfolding add_heads add_all
add_message c (Message.multi_send inputs outputs) = elim (add_heads c inputs) [
  | ok c' ↦ add_heads c' outputs
  | err e ↦ err e
  | panic ↦ panic
]
add_message c (Message.send amount) = elim amount [ [] ↦ panic | coin ∷ _ ↦ ok (add c coin.denom) ]
add_message c (Message.transfer token) = ok (add c token.denom)
add_message c (Message.swap_exact_amount_in token_in routes) =
    ok (add_all (add c token_in.denom) routes)
add_message c (Message.swap_exact_amount_out token_out routes) =
    ok (add_all (add c token_out.denom) routes)
add_message c (Message.join_pool token_in_maxs) = ok (add_all c (denoms_of token_in_maxs))
add_message c (Message.exit_pool token_out_mins) = ok (add_all c (denoms_of token_out_mins))
add_message c Message.other = ok c

unfoldable pub add_messages : IbcDenomTrace → List Message → Result IbcDenomTrace
unfolding add_message
add_messages c [] = ok c
add_messages c (m ∷ ms) = elim (add_message c m) [
  | ok c' ↦ add_messages c' ms
  | err e ↦ err e
  | panic ↦ panic
]

-- types.Transaction, less the result of its execution, which is passed on as it is; `J` is the
-- decoded form.
pub record Transaction (J : Type 0) : Type 0 where
  pub nonce : Text
  pub tx_id : Text
  pub raw : Text
  pub code : ℕ
  pub tx : Option J
  pub metadata : Option IbcDenomTrace

module _ {S D J : Type 0} (encode_hex : Text → Text) (decode : Text → Option D)
    (messages : D → List Message) (proto : D → Option (Option J))
    (get_denoms : S → IbcDenomTrace → (Option Error × IbcDenomTrace) × S) where
  -- getDenomsFromTransactions
  unfoldable pub get_denoms_from_transactions : S → D → Result (Option Error × IbcDenomTrace) × S
  unfolding add_messages
  get_denoms_from_transactions s tx = elim (add_messages [] (messages tx)) [
    | ok traces ↦ (ok (get_denoms s traces).0, (get_denoms s traces).1)
    | err e ↦ (err e, s)
    | panic ↦ (panic, s)
  ]

  -- What translateTransaction starts from, and what it answers for one that does not decode.
  abbrev pub bare : Text → Text → Text → Option ℕ → Transaction J
  bare tx_raw txid nonce code = record {
    nonce = nonce;
    tx_id = txid;
    raw = encode_hex tx_raw;
    code = option_or code 0;
    tx = none;
    metadata = none;
  }

  abbrev pub with_metadata : Option Error × IbcDenomTrace → Transaction J → Transaction J
  with_metadata (some _, _) t = t
  with_metadata (none, traces) t = record t { metadata = some traces }

  -- Where a decoded transaction has a form to print, the raw one is dropped, also if the printing
  -- or the reading back of its JSON fails.
  abbrev pub with_tx : Option (Option J) → Transaction J → Transaction J
  with_tx none t = t
  with_tx (some j) t = record t { tx = j; raw = [] }

  -- translateTransaction
  unfoldable pub translate_transaction :
      S → Text → Text → Text → Option ℕ → Result (Transaction J) × S
  unfolding get_denoms_from_transactions
  translate_transaction s tx_raw txid nonce code = elim (decode tx_raw) [
    | none ↦ (ok (bare tx_raw txid nonce code), s)
    | some d ↦
        let r = get_denoms_from_transactions s d in
        (
          elim r.0 [
            | ok found ↦ ok (with_tx (proto d) (with_metadata found (bare tx_raw txid nonce code)))
            | err e ↦ err e
            | panic ↦ panic
          ],
          r.1,
        )
  ]
