-- ===== src/Database/Newest.antt =====
-- LatestTokenPrice and NearestTokenPrice of internal/repository/query.go.
use osmosis_publisher.Prelude.{
  arith, ℤ, int_eq, text_eq, nat_eq, pair_keys, leb_ℤ, int_beq, int_beq_iff, ◌≤ℤ◌, Text, List, [],
  ◌∷◌, map, subst, Member-map, filter-Member, Member-filter, filter, Member, Option, none, some,
  Bool, true, false, ◌&&◌, ◌||◌, ◌==◌, ==_refl, ==_sound, inl, inr, ◌⊎◌, ◌≡◌, ◌≢◌, refl, sym,
  Option-cases, Bool-cases, ap, length, ◌<◌, ◌≤◌,
}
use osmosis_publisher.Types.{Time}
use osmosis_publisher.Database.{TokenPriceRow, IsTable, Tables, token_price_schema}
use osmosis_publisher.Database.Reading.{
  unix_nano, price_of_row, latest_token_price, nearest_token_price, nearest_condition,
  nearest_statement, latest_statement, greatest, least, extreme, is_time,
}

extreme-In : (up_to : ℤ → ℤ → Bool) (xs : List ℤ) (y : ℤ) → extreme up_to xs ≡ some y → Member y xs
unfolding extreme
extreme-In up_to [] y e = cc
extreme-In up_to (x ∷ xs) y e = elim (Option-cases (extreme up_to xs)) [
  | inl k ↦ inl cc
  | inr (z, k) ↦ elim (Bool-cases (up_to x z)) [
    | inl t ↦ inr (extreme-In up_to xs y cc)
    | inr f ↦ inl cc
  ]
]

-- A number that all are up to, and that is one of them, is the extreme one.
extreme-Member :
    (up_to : ℤ → ℤ → Bool) (xs : List ℤ) (t : ℤ)
    → ((x y : ℤ) → up_to x y ≡ true → up_to y x ≡ true → x ≡ y)
    → ((x : ℤ) → Member x xs → up_to x t ≡ true)
    → Member t xs
    → extreme up_to xs ≡ some t
unfolding extreme
extreme-Member up_to [] t anti h m = absurd m
extreme-Member up_to (x ∷ xs) t anti h (inl e) = elim (Option-cases (extreme up_to xs)) [
  | inl k ↦ rw k cc
  | inr (z, k) ↦
      let below = h z (inr (extreme-In up_to xs z k)) in
      elim (Bool-cases (up_to x z)) [
        | inl a ↦ rw (k, a) (ap some (anti z t below cc))
        | inr a ↦ rw (k, a) cc
      ]
]
extreme-Member up_to (x ∷ xs) t anti h (inr m) =
    rw (extreme-Member up_to xs t anti (λ y n. h y (inr n)) m, h x (inl refl)) refl

leb_ℤ_antisym : (x y : ℤ) → leb_ℤ x y ≡ true → leb_ℤ y x ≡ true → x ≡ y
leb_ℤ_antisym x y h k = (int_beq_iff x y).0 (ground arith)

leb_ℤ_refl : (x : ℤ) → leb_ℤ x x ≡ true
leb_ℤ_refl x = ground arith

-- The test of a row, where both subqueries have the same answer.
same_time :
    (named b : Bool) (u t : ℤ) (g l : Option ℤ)
    → g ≡ some t
    → l ≡ some t
    → int_beq u t ≡ b
    → (named && (is_time u g || is_time u l)) ≡ true
    → (named ≡ true) × (b ≡ true)
same_time false b u t g l p q e h = cc
same_time true true u t g l p q e h = (refl, refl)
same_time true false u t g l p q e h = cc (subst (λ o. is_time u o ≡ false) (sym p) e)

-- Where the very time is that of a price, the rows are of the token and of that time.
nearest_condition_here :
    {F : Type 0} (t : ℤ) (name : Text) (all : List (TokenPriceRow F)) (row : TokenPriceRow F)
    → Member t (map (λ r. r.last_updated) all)
    → nearest_condition t name all row ≡ true
    → (row.name ≡ name) × (row.last_updated ≡ t)
nearest_condition_here t name all row here c =
    let times = map (λ r. r.last_updated) all in
    let before : ℤ → Bool = λ u. leb_ℤ u t in
    let after : ℤ → Bool = λ u. leb_ℤ t u in
    let (named, at) =
      same_time (row.name == name) (int_beq row.last_updated t) row.last_updated t
        (greatest (filter before times)) (least (filter after times))
        (extreme-Member leb_ℤ (filter before times) t leb_ℤ_antisym
          (λ x n. Member-filter before x times n)
          (filter-Member before t times here (leb_ℤ_refl t)))
        (extreme-Member (λ x y. leb_ℤ y x) (filter after times) t (λ x y h k. leb_ℤ_antisym x y k h)
          (λ x n. Member-filter after x times n) (filter-Member after t times here (leb_ℤ_refl t)))
        refl c in
    (==_sound row.name name named, (int_beq_iff row.last_updated t).0 at)

not_empty_ne : {R : Type 0} (rows : List R) → 0 < length rows → rows ≢ []
not_empty_ne [] h e = absurd (omega arith)
not_empty_ne (r ∷ rows) h e = cc

-- The rows of an answer, if they are at most one.
one_or_none :
    {R : Type 0} (rows : List R) → length rows ≤ 1 → (rows ≡ []) ⊎ ((r : R) × (rows ≡ r ∷ []))
one_or_none [] h = inl refl
one_or_none (r ∷ []) h = inr (r, refl)
one_or_none (r ∷ s ∷ rows) h = absurd (omega arith)

empty_or_head : {R : Type 0} (rows : List R) → (rows ≡ []) ⊎ ((r : R) × Member r rows)
empty_or_head [] = inl refl
empty_or_head (r ∷ rows) = inr (r, inl refl)

module _ {F D : Type 0} (tables : Tables F D)
    (keeps : IsTable token_price_schema tables.token_prices) (d : D) (name : Text) where
  -- If the database answers, LatestTokenPrice finds nothing if no price of the token is stored,
  -- and else a stored price of the token than which no stored one of the token is newer.
  pub latest_token_price_newest :
      (tables.token_prices.find d (latest_statement name)).error ≡ none
      → ((latest_token_price tables d name ≡ none)
          × ((r : TokenPriceRow F) → Member r (keeps.rows d) → r.name ≢ name))
        ⊎ ((row : TokenPriceRow F) × ((latest_token_price tables d name ≡ some (price_of_row row))
              × (Member row (keeps.rows d)
                  × ((row.name ≡ name)
                      × ((r : TokenPriceRow F)
                          → Member r (keeps.rows d)
                          → r.name ≡ name
                          → r.last_updated ≤ℤ row.last_updated)))))
  unfolding latest_token_price
  latest_token_price_newest e =
      let found = tables.token_prices.find d (latest_statement name) in
      let answer = keeps.answered d (latest_statement name) e in
      elim (one_or_none found.rows (answer.limited 1 refl)) [
        | inl k ↦ inl (
          rw (latest_token_price, k) refl,
          λ r m n.
              absurd
                (not_empty_ne found.rows (answer.not_empty r (λ q. cc) m (rw n (==_refl name))) k),
        )
        | inr (row, k) ↦
            let (stored, named) = answer.sound row (rw k (inl refl)) in
            inr (
              row,
              (
                rw (latest_token_price, k) refl,
                (
                  stored,
                  (
                    ==_sound row.name name named,
                    λ r m n.
                        elim (answer.newest_first (λ p. p.last_updated) row r refl (rw k (inl refl))
                          m (rw n (==_refl name))) [
                            | inl q ↦ elim (subst (Member r) k q) [
                              | inl same ↦ rw same (omega arith)
                              | inr none' ↦ absurd none'
                            ]
                            | inr le ↦ le
                          ],
                  ),
                ),
              ),
            )
      ]

  -- If the database answers, NearestTokenPrice finds nothing where no price of the token is
  -- stored for that very time, but a price is, of another token: however near the token's own.
  pub nearest_token_price_hidden :
      (t : Time) (other : TokenPriceRow F)
      → (tables.token_prices.find d (nearest_statement (unix_nano t) name)).error ≡ none
      → Member other (keeps.rows d)
      → other.last_updated ≡ unix_nano t
      → ((r : TokenPriceRow F)
          → Member r (keeps.rows d)
          → r.name ≡ name
          → r.last_updated ≢ unix_nano t)
      → nearest_token_price tables d t name ≡ none
  unfolding nearest_token_price
  nearest_token_price_hidden t other e m at lacks =
      let now = unix_nano t in
      let q = nearest_statement now name in
      let found = tables.token_prices.find d q in
      let answer = keeps.answered d q e in
      let times = map (λ r. r.last_updated) (keeps.rows d) in
      let here : Member now times =
        subst (λ u. Member u times) at (Member-map (λ r. r.last_updated) other (keeps.rows d) m) in
      elim (empty_or_head found.rows) [
        | inl k ↦ rw (nearest_token_price, k) refl
        | inr (row, k) ↦
            let (stored, c) = answer.sound row k in
            let (named, at_t) = nearest_condition_here now name (keeps.rows d) row here c in
            absurd (lacks row stored named at_t)
      ]
