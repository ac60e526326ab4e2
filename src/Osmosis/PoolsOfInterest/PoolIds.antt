-- ===== src/Osmosis/PoolsOfInterest/PoolIds.antt =====
-- The ids of pools, as sets and in order.
use osmosis_publisher.Prelude.{
  ℕ, ◌<◌, ◌≡◌, refl, List, [], ◌∷◌, Option, none, some, Bool, false, ◌&&◌, ◌||◌, ◌==◌, nat_eq,
  ==_cases, Bool-cases, Option-cases, inl, inr, ltb, contains, any, any-append, Distinct, sort_by,
  insert_by, arith, Text, codes, contains_text, All,
}
use osmosis_publisher.Osmosis.PoolsOfInterest.{
  keys_of, with_pool_ids, parse_uint, parsed_ids, named_ids, extract_unique_pool_ids,
}

abbrev is_id : ℕ → Option ℕ → Bool
is_id id none = false
is_id id (some n) = n == id

contains-keys_of : (ids : List ℕ) (id : ℕ) → contains (keys_of ids) id ≡ contains ids id
unfolding keys_of
contains-keys_of [] id = refl
contains-keys_of (x ∷ ids) id = elim (==_cases x id) [
  | inl (e, p) ↦ ground (arith, e, p, contains-keys_of ids id, contains-keys_of ids x)
  | inr (e, p) ↦ ground (arith, e, contains-keys_of ids id)
]

keys_of-Distinct : (ids : List ℕ) → Distinct (keys_of ids)
unfolding keys_of
keys_of-Distinct [] = tt
keys_of-Distinct (x ∷ ids) = elim (Bool-cases (contains (keys_of ids) x)) [
  | inl e ↦ rw (keys_of, e) (keys_of-Distinct ids)
  | inr e ↦ rw (keys_of, e) (e, keys_of-Distinct ids)
]

-- Strictly rising numbers.
abbrev IsRising : List ℕ → Type 0
IsRising [] = Unit
IsRising (x ∷ xs) = All (λ y. x < y) xs × IsRising xs

contains-insert_by :
    (x : ℕ) (xs : List ℕ) (id : ℕ) → contains (insert_by ltb x xs) id ≡ (x == id || contains xs id)
unfolding insert_by
contains-insert_by x [] id = ground arith
contains-insert_by x (y ∷ ys) id = ground (arith, contains-insert_by x ys id)

contains-sort_by : (xs : List ℕ) (id : ℕ) → contains (sort_by ltb xs) id ≡ contains xs id
unfolding sort_by
contains-sort_by [] id = refl
contains-sort_by (x ∷ xs) id =
    ground (arith, contains-insert_by x (sort_by ltb xs) id, contains-sort_by xs id)

All-inserted :
    (x y : ℕ) (ys : List ℕ) → x < y → All (λ z. x < z) ys → All (λ z. x < z) (insert_by ltb y ys)
unfolding insert_by
All-inserted x y [] h a = (h, tt)
All-inserted x y (z ∷ zs) h a = ground (arith, All-inserted x y zs h a.1)

All-above : (x y : ℕ) (ys : List ℕ) → x < y → All (λ z. y < z) ys → All (λ z. x < z) ys
All-above x y [] h a = tt
All-above x y (z ∷ zs) h a = (omega (arith, h, a.0), All-above x y zs h a.1)

insert_by-IsRising :
    (x : ℕ) (xs : List ℕ) → contains xs x ≡ false → IsRising xs → IsRising (insert_by ltb x xs)
unfolding insert_by
insert_by-IsRising x [] new r = (tt, tt)
insert_by-IsRising x (y ∷ ys) new r = elim (Bool-cases (ltb y x)) [
  | inl e ↦ rw e (
    All-inserted y x ys (ground (arith, e)) r.0,
    insert_by-IsRising x ys (ground (arith, new)) r.1,
  )
  | inr e ↦
      let below : x < y = ground (arith, e, new) in rw e ((below, All-above x y ys below r.0), r)
]

sort_by-IsRising : (xs : List ℕ) → Distinct xs → IsRising (sort_by ltb xs)
unfolding sort_by
sort_by-IsRising [] d = tt
sort_by-IsRising (x ∷ xs) d =
    insert_by-IsRising x (sort_by ltb xs) (ground (arith, contains-sort_by xs x, d.0))
      (sort_by-IsRising xs d.1)

-- The pools to monitor are the given ids in rising order, each once.
with_pool_ids-IsRising :
    (ids : List ℕ)
    → IsRising (with_pool_ids ids) × ((id : ℕ) → contains (with_pool_ids ids) id ≡ contains ids id)
unfolding with_pool_ids
with_pool_ids-IsRising ids = (
  sort_by-IsRising (keys_of ids) (keys_of-Distinct ids),
  λ id. ground (arith, contains-sort_by (keys_of ids) id, contains-keys_of ids id),
)

-- What an event's attributes name: a value that parses to the id, under a key about pools.
abbrev is_named : ℕ → List (Text × List Text) → Bool
is_named id =
    any (λ (k, vs). contains_text k (codes "pool_id") && any (λ v. is_id id (parse_uint v)) vs)

contains-parsed_ids :
    (vs : List Text) (id : ℕ) → contains (parsed_ids vs) id ≡ any (λ v. is_id id (parse_uint v)) vs
unfolding parsed_ids
contains-parsed_ids [] id = refl
contains-parsed_ids (v ∷ vs) id = elim (Option-cases (parse_uint v)) [
  | inl e ↦ ground (arith, e, contains-parsed_ids vs id)
  | inr (n, e) ↦ ground (arith, e, contains-parsed_ids vs id)
]

contains-named_ids :
    (events : List (Text × List Text)) (id : ℕ)
    → contains (named_ids events) id ≡ is_named id events
unfolding named_ids
contains-named_ids [] id = refl
contains-named_ids ((k, vs) ∷ events) id = elim (Bool-cases (contains_text k (codes "pool_id"))) [
  | inl e ↦ ground (
    arith,
    e,
    any-append (λ x. x == id) (parsed_ids vs) (named_ids events),
    contains-parsed_ids vs id,
    contains-named_ids events id,
  )
  | inr e ↦ ground (arith, e, contains-named_ids events id)
]

-- The ids of an event are those that its attributes name, by a value that parses under a key
-- about pools, each once.
extract_unique_pool_ids-named :
    (events : List (Text × List Text))
    → Distinct (extract_unique_pool_ids events)
      × ((id : ℕ) → contains (extract_unique_pool_ids events) id ≡ is_named id events)
unfolding extract_unique_pool_ids
extract_unique_pool_ids-named events = (
  keys_of-Distinct (named_ids events),
  λ id. ground (arith, contains-keys_of (named_ids events) id, contains-named_ids events id),
)
