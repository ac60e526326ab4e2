-- ===== src/Tests/Memory.antt =====
-- A database in memory, of three lists of rows, that does what SQL says.
use osmosis_publisher.Prelude.{
  arith, ℕ, zero, suc, ◌≤◌, ◌<◌, ℤ, pos, leb_ℤ, ◌≤ℤ◌, codes, List, [], ◌∷◌, Member, filter,
  Member-filter, filter-Member, length, Option, none, some, Bool, not, if◌then◌else◌, Eq, pair_keys,
  nat_eq, int_eq, text_eq, inl, inr, ◌⊎◌, ◌≡◌, refl, sym, subst, Bool-cases,
}
use osmosis_publisher.Database.{
  IbcDenomRow, TokenPriceRow, PoolRow, Schema, Statement, Found, Table, Tables, IsAnswer, IsTable,
  AreTables, upsert, ibc_denom_schema, token_price_schema, pool_schema,
}

pub record Memory : Type 0 where
  pub ibc_denoms : List IbcDenomRow
  pub token_prices : List (TokenPriceRow ℕ)
  pub pools : List PoolRow

filter-In :
    {R : Type 0} (p : R → Bool) (r : R) (rows : List R) → Member r (filter p rows) → Member r rows
filter-In p r [] m = m
filter-In p r (x ∷ xs) m = elim (Bool-cases (p x)) [
  | inl t ↦ elim (subst (λ b. Member r (if b then x ∷ filter p xs else filter p xs)) t m) [
    | inl e ↦ inl e
    | inr n ↦ inr (filter-In p r xs n)
  ]
  | inr f ↦
      inr
        (filter-In p r xs (subst (λ b. Member r (if b then x ∷ filter p xs else filter p xs)) f m))
]

one_of_some : {R : Type 0} (r : R) (rows : List R) → Member r rows → 0 < length rows
one_of_some r [] m = absurd m
one_of_some r (x ∷ xs) m = omega arith

module _ {R : Type 0} where
  unfoldable pub pick : (R → ℤ) → R → R → R
  pick by x y = if leb_ℤ (by x) (by y) then y else x

  pick-cases :
      (by : R → ℤ) (x y : R)
      → ((pick by x y ≡ x) × (by y ≤ℤ by x)) ⊎ ((pick by x y ≡ y) × (by x ≤ℤ by y))
  unfolding pick
  pick-cases by x y = elim (Bool-cases (leb_ℤ (by x) (by y))) [
    | inl t ↦ inr (rw t refl, ground (arith, t))
    | inr f ↦ inl (rw f refl, ground (arith, f))
  ]

  pick_ge : (by : R → ℤ) (x y : R) → (by x ≤ℤ by (pick by x y)) × (by y ≤ℤ by (pick by x y))
  pick_ge by x y = elim (pick-cases by x y) [
    | inl (e, le) ↦ rw e (omega arith, le)
    | inr (e, le) ↦ rw e (le, omega arith)
  ]

  unfoldable pub newest_from : (R → ℤ) → R → List R → R
  unfolding pick
  newest_from by x [] = x
  newest_from by x (y ∷ ys) = newest_from by (pick by x y) ys

  unfoldable pub one_of : Option (R → ℤ) → List R → List R
  unfolding newest_from
  one_of o [] = []
  one_of none (x ∷ xs) = x ∷ []
  one_of (some by) (x ∷ xs) = newest_from by x xs ∷ []

  -- One row where there is a limit, and an error where all are to be ordered.
  unfoldable pub answer_of : Option ℕ → Option (R → ℤ) → List R → Found R
  unfolding one_of
  answer_of none none rows = record { rows = rows; error = none }
  answer_of none (some by) rows = record { rows = []; error = some (codes "unsupported" ∷ []) }
  answer_of (some zero) o rows = record { rows = []; error = none }
  answer_of (some (suc n)) o rows = record { rows = one_of o rows; error = none }

  newest_from-In : (by : R → ℤ) (x : R) (xs : List R) → Member (newest_from by x xs) (x ∷ xs)
  unfolding newest_from
  newest_from-In by x [] = inl refl
  newest_from-In by x (y ∷ ys) = elim (pick-cases by x y) [
    | inl (e, _) ↦
        subst (λ z. Member (newest_from by z ys) (x ∷ y ∷ ys)) (sym e)
          (elim (newest_from-In by x ys) [ inl k ↦ inl k | inr m ↦ inr (inr m) ])
    | inr (e, _) ↦
        subst (λ z. Member (newest_from by z ys) (x ∷ y ∷ ys)) (sym e)
          (inr (newest_from-In by y ys))
  ]

  newest_from-ge :
      (by : R → ℤ) (x : R) (xs : List R) (other : R)
      → Member other (x ∷ xs)
      → by other ≤ℤ by (newest_from by x xs)
  unfolding newest_from
  newest_from-ge by x [] other (inl e) = rw e (omega arith)
  newest_from-ge by x [] other (inr m) = absurd m
  newest_from-ge by x (y ∷ ys) other m =
      let z = pick by x y in
      let top = newest_from-ge by z ys z (inl refl) in
      elim m [
        | inl e ↦ rw e (omega (arith, top, (pick_ge by x y).0))
        | inr (inl e) ↦ rw e (omega (arith, top, (pick_ge by x y).1))
        | inr (inr n) ↦ newest_from-ge by z ys other (inr n)
      ]

  one_of-Member :
      (o : Option (R → ℤ)) (r : R) (rows : List R) → Member r (one_of o rows) → Member r rows
  unfolding one_of
  one_of-Member o r [] m = m
  one_of-Member none r (x ∷ xs) (inl e) = inl e
  one_of-Member none r (x ∷ xs) (inr m) = absurd m
  one_of-Member (some by) r (x ∷ xs) (inl e) =
      subst (λ z. Member z (x ∷ xs)) (sym e) (newest_from-In by x xs)
  one_of-Member (some by) r (x ∷ xs) (inr m) = absurd m

  one_of-newest :
      (by : R → ℤ) (r other : R) (rows : List R)
      → Member r (one_of (some by) rows)
      → Member other rows
      → by other ≤ℤ by r
  unfolding one_of
  one_of-newest by r other [] m n = absurd m
  one_of-newest by r other (x ∷ xs) (inl e) n = rw e (newest_from-ge by x xs other n)
  one_of-newest by r other (x ∷ xs) (inr m) n = absurd m

  one_of_not_empty :
      (o : Option (R → ℤ)) (r : R) (rows : List R) → Member r rows → 0 < length (one_of o rows)
  unfolding one_of
  one_of_not_empty o r [] m = absurd m
  one_of_not_empty none r (x ∷ xs) m = omega arith
  one_of_not_empty (some by) r (x ∷ xs) m = omega arith

  one_of-length : (o : Option (R → ℤ)) (rows : List R) → length (one_of o rows) ≤ 1
  unfolding one_of
  one_of-length o [] = omega arith
  one_of-length none (x ∷ xs) = omega arith
  one_of-length (some by) (x ∷ xs) = omega arith

  -- The answers are those of SQL.
  pub answer_of-IsAnswer :
      (condition : List R → R → Bool) (o : Option (R → ℤ)) (limit : Option ℕ) (rows : List R)
      → let found = answer_of limit o (filter (condition rows) rows) in
        let q : Statement R = record { condition = condition; newest_by = o; limit = limit } in
        found.error ≡ none → IsAnswer q rows found.rows
  unfolding answer_of
  answer_of-IsAnswer condition none none rows e = record {
    sound = λ r m. (filter-In (condition rows) r rows m, Member-filter (condition rows) r rows m);
    complete = λ r h m c. filter-Member (condition rows) r rows m c;
    not_empty = λ r h m c.
        one_of_some r (filter (condition rows) rows) (filter-Member (condition rows) r rows m c);
    limited = λ n h. cc;
    newest_first = λ by r other h m n c. cc;
  }
  answer_of-IsAnswer condition (some by) none rows e = cc
  answer_of-IsAnswer condition o (some zero) rows e = record {
    sound = λ r m. absurd m;
    complete = λ r h m c. cc;
    not_empty = λ r h m c. absurd (h refl);
    limited = λ n h. omega arith;
    newest_first = λ by r other h m n c. absurd m;
  }
  answer_of-IsAnswer condition o (some (suc k)) rows e =
      let matches = filter (condition rows) rows in
      record {
        sound = λ r m.
            let n = one_of-Member o r matches m in
            (filter-In (condition rows) r rows n, Member-filter (condition rows) r rows n);
        complete = λ r h m c. cc;
        not_empty =
            λ r h m c. one_of_not_empty o r matches (filter-Member (condition rows) r rows m c);
        limited = λ n h. let e : suc k ≡ n = cc in omega (arith, one_of-length o matches, e);
        newest_first = λ by r other h m n c. inr (
            one_of-newest by r other matches (subst (λ b. Member r (one_of b matches)) h m)
              (filter-Member (condition rows) other rows n c));
      }

-- A table among others, by its place in the memory.
unfoldable pub table :
    {R K : Type 0} ⦃e : Eq K⦄
    → Schema R K
    → (Memory → List R)
    → (List R → Memory → Memory)
    → Table Memory R
unfolding upsert answer_of
table schema get put = record {
  find = λ d q. answer_of q.limit q.newest_by (filter (q.condition (get d)) (get d));
  create = λ d merge r. (none, put (upsert schema merge (schema.stamped (pos 77) r) (get d)) d);
  delete = λ d p. ((length (filter p (get d)), none), put (filter (λ r. not (p r)) (get d)) d);
}

unfoldable pub table-IsTable :
    {R K : Type 0} ⦃e : Eq K⦄ (schema : Schema R K) (get : Memory → List R)
    (put : List R → Memory → Memory)
    → ((rows : List R) (d : Memory) → get (put rows d) ≡ rows)
    → IsTable schema (table schema get put)
unfolding table answer_of
table-IsTable schema get put get-put = record {
  rows = get;
  now = λ d. pos 77;
  answered = λ d q. answer_of-IsAnswer q.condition q.newest_by q.limit (get d);
  created = λ d merge r h. get-put _ d;
  not_created = λ d merge r h. absurd (h refl);
  deleted = λ d p h. (get-put _ d, refl);
  not_deleted = λ d p h. absurd (h refl);
}

unfoldable pub memory : Tables ℕ Memory
unfolding table
memory = record {
  ibc_denoms =
      table ibc_denom_schema (λ d. d.ibc_denoms) (λ rows d. record d { ibc_denoms = rows });
  token_prices =
      table token_price_schema (λ d. d.token_prices) (λ rows d. record d { token_prices = rows });
  pools = table pool_schema (λ d. d.pools) (λ rows d. record d { pools = rows });
}

unfoldable pub memory_tables : AreTables memory
unfolding memory table table-IsTable
memory_tables = record {
  ibc_denoms =
      table-IsTable ibc_denom_schema (λ d. d.ibc_denoms) (λ rows d. record d { ibc_denoms = rows })
        (λ rows d. refl);
  token_prices =
      table-IsTable token_price_schema (λ d. d.token_prices)
        (λ rows d. record d { token_prices = rows }) (λ rows d. refl);
  pools =
      table-IsTable pool_schema (λ d. d.pools) (λ rows d. record d { pools = rows })
        (λ rows d. refl);
  ibc_denoms_apart = λ d merge r. (refl, refl);
  token_prices_apart = λ d merge r. (refl, refl);
  pools_apart = λ d merge r. (refl, refl);
  token_prices_deleted_apart = λ d p. (refl, refl);
  pools_deleted_apart = λ d p. (refl, refl);
}
