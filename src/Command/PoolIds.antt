-- ===== src/Command/PoolIds.antt =====
-- The ids of the pools on the command line (cmd/start.go): printed, joined by commas, and read.
use osmosis_publisher.Prelude.{
  arith, ℕ, zero, suc, ◌<◌, ◌≤◌, ◌/◌, ◌%◌, ◌+◌, nat_beq, ltb, lt→ltb, pos, Text, codes, List, [],
  ◌∷◌, map, filter, All, All-append, false, not, contains, nat_eq, text_eq, is_empty, Map, digits,
  decimal, digits_not_empty, parse_uint, parse_int, parse_uint-decimal, half_word, some, inl, inr,
  ◌≡◌, refl, ap, Bool-cases,
}
use osmosis_publisher.Types.{ok}
use osmosis_publisher.Command.{
  trim_left, trim_right, trim, getenv, parse_ids, pool_ids_flag, pool_ids_of,
}
use osmosis_publisher.Command.Splitting.{join, Lacks, split_and_trim_empty-join}

abbrev IsDigit : ℕ → Type 0
IsDigit c = (48 ≤ c) × (c ≤ 57)

digits-IsDigit : (fuel n : ℕ) → All IsDigit (digits fuel n)
unfolding digits
digits-IsDigit zero n = tt
digits-IsDigit (suc fuel) n = elim (Bool-cases (ltb n 10)) [
  | inl t ↦ rw t ((omega arith, ground (arith, t)), tt)
  | inr f ↦ rw f (
      All-append IsDigit (digits fuel (n / 10)) ((48 + n % 10) ∷ []) (digits-IsDigit fuel (n / 10))
        ((omega arith, omega arith), tt))
]

abbrev spaces : Text
spaces = 32 ∷ 9 ∷ 13 ∷ 10 ∷ 8 ∷ []

digit_kept : (c : ℕ) → IsDigit c → contains spaces c ≡ false
digit_kept c h = ground arith

trim_left_digits : (t : Text) → All IsDigit t → trim_left spaces t ≡ t
unfolding trim_left
trim_left_digits [] h = refl
trim_left_digits (c ∷ t) (h, hs) = rw (digit_kept c h) refl

trim_right_digits : (t : Text) → All IsDigit t → trim_right spaces t ≡ t
unfolding trim_right
trim_right_digits [] h = refl
trim_right_digits (c ∷ []) (h, hs) = rw (digit_kept c h) refl
trim_right_digits (c ∷ d ∷ t) (h, hs) = rw (trim_right_digits (d ∷ t) hs) refl

trim_digits : (t : Text) → All IsDigit t → trim spaces t ≡ t
unfolding trim
trim_digits t h = rw (trim_left_digits t h) (trim_right_digits t h)

Lacks-digits : (t : Text) → All IsDigit t → Lacks b',' t
Lacks-digits [] h = refl
Lacks-digits (c ∷ t) (h, hs) = ground (arith, Lacks-digits t hs)

parse_int_digits :
    (t : Text) (n : ℕ)
    → is_empty t ≡ false
    → All IsDigit t
    → parse_uint t ≡ some n
    → n < half_word
    → parse_int t ≡ some (pos n)
unfolding parse_int
parse_int_digits [] n e h p small = cc
parse_int_digits (c ∷ t) n e (h, hs) p small =
    let no_minus : nat_beq c b'-' ≡ false = ground (arith, h) in
    let no_plus : nat_beq c b'+' ≡ false = ground (arith, h) in
    rw (parse_int, no_minus, no_plus, p, lt→ltb n half_word small, no_minus) refl

kept_decimals :
    (ids : List ℕ)
    → filter (λ t. not (is_empty t)) (map (trim spaces) (map decimal ids)) ≡ map decimal ids
unfolding decimal
kept_decimals [] = refl
kept_decimals (n ∷ ids) =
    rw (trim_digits (digits (suc n) n) (digits-IsDigit (suc n) n), digits_not_empty n n)
      (ap (◌∷◌ (digits (suc n) n)) (kept_decimals ids))

Lacks-decimals : (ids : List ℕ) → All (Lacks b',') (map decimal ids)
unfolding decimal
Lacks-decimals [] = tt
Lacks-decimals (n ∷ ids) =
    (Lacks-digits (digits (suc n) n) (digits-IsDigit (suc n) n), Lacks-decimals ids)

parse_ids_decimals :
    (ids : List ℕ) → All (λ n. n < half_word) ids → parse_ids (map decimal ids) ≡ ok (map pos ids)
unfolding parse_ids decimal
parse_ids_decimals [] h = refl
parse_ids_decimals (n ∷ ids) (h, hs) =
    rw
      (
        parse_ids,
        parse_int_digits (digits (suc n) n) n (digits_not_empty n n) (digits-IsDigit (suc n) n)
            (parse_uint-decimal n (omega (arith, h))) h,
        parse_ids_decimals ids hs,
      )
      refl

pool_ids_of_pos : (ids : List ℕ) → pool_ids_of (map pos ids) ≡ ok ids
unfolding pool_ids_of
pool_ids_of_pos [] = refl
pool_ids_of_pos (n ∷ ids) = rw (pool_ids_of_pos ids) refl

-- If POOL_IDS is ids below 2 ^ 63, printed in decimal and joined by commas, the flag's default
-- is read without a panic, as these ids, and they are those that the publisher is started with.
pub pool_ids_flag-join :
    (env : Map Text Text) (id : ℕ) (ids : List ℕ)
    → getenv env (codes "POOL_IDS") ≡ join b',' (map decimal (id ∷ ids))
    → All (λ n. n < half_word) (id ∷ ids)
    → (pool_ids_flag env ≡ ok (map pos (id ∷ ids)))
      × (pool_ids_of (map pos (id ∷ ids)) ≡ ok (id ∷ ids))
unfolding pool_ids_flag
pool_ids_flag-join env id ids e h = (
  rw
      (
        pool_ids_flag,
        e,
        split_and_trim_empty-join b',' spaces (decimal id) (map decimal ids)
            (Lacks-decimals (id ∷ ids)),
        kept_decimals (id ∷ ids),
      )
      (parse_ids_decimals (id ∷ ids) h),
  pool_ids_of_pos (id ∷ ids),
)
