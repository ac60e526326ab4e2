-- ===== src/Osmosis/Messages/Naming.antt =====
-- getDenomsFromTransactions: which denominations are looked up.
use osmosis_publisher.Prelude.{
  Text, codes, text_eq, to_lower, has_prefix, ◌≡◌, refl, List, [], ◌∷◌, ◌++◌, lookup, lookup-insert,
  is_some, arith, Bool, false, ◌||◌, ◌&&◌, ◌==◌, inl, inr, any, any-append, All, is_empty,
}
use osmosis_publisher.Types.{Coins, ok, Result-cases}
use osmosis_publisher.Osmosis.Messages
use osmosis_publisher.Osmosis.Messages.{
  Message, IbcDenomTrace, add, add_all, add_heads, denoms_of, add_message, add_messages,
}

-- The denominations that a message names, in order: of a multi-send the first coin of each entry.
abbrev heads : List Coins → List Text
heads [] = []
heads ([] ∷ entries) = heads entries
heads ((coin ∷ _) ∷ entries) = coin.denom ∷ heads entries

abbrev pub named : Message → List Text
named (Message.multi_send inputs outputs) = heads inputs ++ heads outputs
named (Message.send []) = []
named (Message.send (coin ∷ _)) = coin.denom ∷ []
named (Message.transfer token) = token.denom ∷ []
named (Message.swap_exact_amount_in token_in routes) = token_in.denom ∷ routes
named (Message.swap_exact_amount_out token_out routes) = token_out.denom ∷ routes
named (Message.join_pool token_in_maxs) = denoms_of token_in_maxs
named (Message.exit_pool token_out_mins) = denoms_of token_out_mins
named Message.other = []

abbrev pub all_named : List Message → List Text
all_named [] = []
all_named (m ∷ ms) = named m ++ all_named ms

-- A denomination of IBC, in any case.
abbrev is_ibc : Text → Bool
is_ibc d = has_prefix (to_lower d) (codes "ibc/")

abbrev pub has : IbcDenomTrace → Text → Bool
has c d = is_some (lookup d c)

-- Whether a denomination is looked up because of those named.
abbrev pub asked : Text → List Text → Bool
asked d = any (λ x. is_ibc x && x == d)

has-add : (c : IbcDenomTrace) (x d : Text) → has (add c x) d ≡ (has c d || is_ibc x && x == d)
unfolding add
has-add c x d = ground (arith, lookup-insert x d Messages.no_trace c)

has-add_all :
    (c : IbcDenomTrace) (xs : List Text) (d : Text) → has (add_all c xs) d ≡ (has c d || asked d xs)
unfolding add_all
has-add_all c [] d = ground arith
has-add_all c (x ∷ xs) d = ground (arith, has-add_all (add c x) xs d, has-add c x d)

has-add_heads :
    (c c' : IbcDenomTrace) (entries : List Coins) (d : Text)
    → add_heads c entries ≡ ok c'
    → has c' d ≡ (has c d || asked d (heads entries))
unfolding add_heads
has-add_heads c c' [] d h = ground arith
has-add_heads c c' ([] ∷ entries) d h = cc
has-add_heads c c' ((coin ∷ rest) ∷ entries) d h =
    ground (arith, has-add_heads (add c coin.denom) c' entries d h, has-add c coin.denom d)

asked-append : (d : Text) (xs ys : List Text) → asked d (xs ++ ys) ≡ (asked d xs || asked d ys)
asked-append d xs ys = any-append (λ x. is_ibc x && x == d) xs ys

has-add_message :
    (c c' : IbcDenomTrace) (m : Message) (d : Text)
    → add_message c m ≡ ok c'
    → has c' d ≡ (has c d || asked d (named m))
unfolding add_message
has-add_message c c' (Message.multi_send inputs outputs) d h =
    elim (Result-cases (add_heads c inputs)) [
      | inl (c₁, e) ↦ ground (
        arith,
        e,
        has-add_heads c c₁ inputs d e,
        has-add_heads c₁ c' outputs d (ground (arith, e, h)),
        asked-append d (heads inputs) (heads outputs),
      )
      | inr (inl (f, e)) ↦ absurd (ground (arith, e, h))
      | inr (inr e) ↦ absurd (ground (arith, e, h))
    ]
has-add_message c c' (Message.send []) d h = cc
has-add_message c c' (Message.send (coin ∷ rest)) d h = ground (arith, has-add c coin.denom d)
has-add_message c c' (Message.transfer token) d h = ground (arith, has-add c token.denom d)
has-add_message c c' (Message.swap_exact_amount_in token_in routes) d h =
    ground (arith, has-add_all (add c token_in.denom) routes d, has-add c token_in.denom d)
has-add_message c c' (Message.swap_exact_amount_out token_out routes) d h =
    ground (arith, has-add_all (add c token_out.denom) routes d, has-add c token_out.denom d)
has-add_message c c' (Message.join_pool maxs) d h = ground (arith, has-add_all c (denoms_of maxs) d)
has-add_message c c' (Message.exit_pool mins) d h = ground (arith, has-add_all c (denoms_of mins) d)
has-add_message c c' Message.other d h = ground arith

-- If messages are read without a panic, the entries of the map are those it had, and the IBC
-- denominations that the messages name.
pub add_messages-named :
    (ms : List Message) (c c' : IbcDenomTrace) (d : Text)
    → add_messages c ms ≡ ok c'
    → has c' d ≡ (has c d || asked d (all_named ms))
unfolding add_messages
add_messages-named [] c c' d h = ground arith
add_messages-named (m ∷ ms) c c' d h = elim (Result-cases (add_message c m)) [
  | inl (c₁, e) ↦ ground (
    arith,
    has-add_message c c₁ m d e,
    add_messages-named ms c₁ c' d (ground (arith, e, h)),
    asked-append d (named m) (all_named ms),
  )
  | inr (inl (f, e)) ↦ absurd (ground (arith, e, h))
  | inr (inr e) ↦ absurd (ground (arith, e, h))
]

-- Each list of coins whose first one is read has one.
abbrev pub IsFunded : Message → Type 0
IsFunded (Message.multi_send inputs outputs) =
    All (λ cs. is_empty cs ≡ false) inputs × All (λ cs. is_empty cs ≡ false) outputs
IsFunded (Message.send amount) = is_empty amount ≡ false
IsFunded _ = Unit

add_heads_total :
    (c : IbcDenomTrace) (entries : List Coins)
    → All (λ cs. is_empty cs ≡ false) entries
    → (c' : IbcDenomTrace) × (add_heads c entries ≡ ok c')
unfolding add_heads
add_heads_total c [] h = (c, refl)
add_heads_total c ([] ∷ entries) h = absurd (ground arith)
add_heads_total c ((coin ∷ rest) ∷ entries) h = add_heads_total (add c coin.denom) entries h.1

add_message_total :
    (c : IbcDenomTrace) (m : Message)
    → IsFunded m
    → (c' : IbcDenomTrace) × (add_message c m ≡ ok c')
unfolding add_message
add_message_total c (Message.multi_send inputs outputs) h =
    let (c₁, e) = add_heads_total c inputs h.0 in
    let (c₂, e') = add_heads_total c₁ outputs h.1 in (c₂, ground (arith, e, e'))
add_message_total c (Message.send []) h = absurd (ground arith)
add_message_total c (Message.send (coin ∷ rest)) h = (_, refl)
add_message_total c (Message.transfer token) h = (_, refl)
add_message_total c (Message.swap_exact_amount_in token_in routes) h = (_, refl)
add_message_total c (Message.swap_exact_amount_out token_out routes) h = (_, refl)
add_message_total c (Message.join_pool maxs) h = (_, refl)
add_message_total c (Message.exit_pool mins) h = (_, refl)
add_message_total c Message.other h = (_, refl)

-- Messages whose sends have a first coin are read without a panic.
pub add_messages_total :
    (ms : List Message) (c : IbcDenomTrace)
    → All IsFunded ms
    → (c' : IbcDenomTrace) × (add_messages c ms ≡ ok c')
unfolding add_messages
add_messages_total [] c h = (c, refl)
add_messages_total (m ∷ ms) c h =
    let (c₁, e) = add_message_total c m h.0 in
    let (c₂, e') = add_messages_total ms c₁ h.1 in (c₂, ground (arith, e, e'))
