-- ===== src/Prelude/Decimal.antt =====
-- Decimal digits, as fmt and strconv print them, and the number that they stand for.
use Prim.Native.Nat.{ℕ, zero, suc, ◌+◌, ◌-◌, ◌*◌, ◌/◌, ◌%◌, ◌^◌, ◌≤◌, ◌<◌}
use mathlib.Core.Path.{◌≡◌, refl, sym, ap, ◌∙◌}
use mathlib.Core.List.{[], ◌∷◌, ◌++◌, append-nil, append_assoc}
use mathlib.Core.Logic.{inl, inr}
use native.Mathlib.Omega.{arith}
use mathlib.Core.Bool.{◌&&◌, ◌||◌, true, false}
use mathlib.Core.Option.{Option, none, some}
use osmosis_publisher.Prelude.Int.{ℤ, pos, neg}
use osmosis_publisher.Prelude.Word.{word, half_word}
use osmosis_publisher.Prelude.Tests.{ltb, leb, nat_beq, lt→ltb, if◌then◌else◌, Bool-cases}
use osmosis_publisher.Prelude.Lists.{length, is_empty, replicate, length-append, length-replicate}
use osmosis_publisher.Prelude.Strings.{Text}

-- The decimal digits of a number, as fmt and strconv print it.
unfoldable pub digits : ℕ → ℕ → Text
digits zero n = []
digits (suc fuel) n =
    let rest = digits fuel (n / 10) in
    if ltb n 10 then (48 + n) ∷ [] else rest ++ (48 + n % 10) ∷ []

unfoldable pub decimal : ℕ → Text
unfolding digits
decimal n = digits (suc n) n

-- strconv.ParseUint in base 10 for 64 bits: digits only, one at least, and a value that fits.
unfoldable pub parse_digits : Text → ℕ → Option ℕ
parse_digits [] n = some n
parse_digits (c ∷ cs) n =
    let next = 10 * n + (c - 48) in
    let rest = parse_digits cs next in if leb 48 c && leb c 57 && ltb next word then rest else none

unfoldable pub parse_uint : Text → Option ℕ
unfolding parse_digits
parse_uint s = if is_empty s then none else parse_digits s 0

-- strconv.ParseInt in base 10 for 64 bits: a sign, and a value that fits.
unfoldable pub parse_int : Text → Option ℤ
unfolding parse_uint
parse_int [] = none
parse_int (c ∷ cs) =
    let negative = nat_beq c b'-' in
    let unsigned = if negative || nat_beq c b'+' then cs else c ∷ cs in
    elim (parse_uint unsigned) [
      | none ↦ none
      | some n ↦
          if negative
          then (if leb n half_word then some (neg (pos n)) else none)
          else (if ltb n half_word then some (pos n) else none)
    ]

-- %0wd: zeros up to the width.
unfoldable pub padded : ℕ → ℕ → Text
unfolding decimal
padded w n = replicate (w - length (decimal n)) 48 ++ decimal n

-- The number of some digits, after those that were read.
unfoldable pub value : Text → ℕ → ℕ
value [] n = n
value (c ∷ cs) n = value cs (10 * n + (c - 48))

value-append : (s t : Text) (n : ℕ) → value (s ++ t) n ≡ value t (value s n)
unfolding value
value-append [] t n = refl
value-append (c ∷ s) t n = value-append s t (10 * n + (c - 48))

value_zeros : (k : ℕ) → value (replicate k 48) 0 ≡ 0
unfolding value
value_zeros zero = refl
value_zeros (suc k) = value_zeros k

pub value-digits : (fuel n : ℕ) → n < fuel → value (digits fuel n) 0 ≡ n
unfolding value digits
value-digits zero n h = absurd (omega arith)
value-digits (suc fuel) n h = elim (Bool-cases (ltb n 10)) [
  | inl t ↦ rw t (omega arith)
  | inr f ↦
      let less : n / 10 < fuel = ground (arith, f) in
      rw
        (
          f,
          value-append (digits fuel (n / 10)) ((48 + n % 10) ∷ []) 0,
          value-digits fuel (n / 10) less,
        )
        (omega arith)
]

length-digits : (fuel k n : ℕ) → n < fuel → n < 10 ^ suc k → length (digits fuel n) ≤ suc k
unfolding digits
length-digits zero k n h lt = absurd (omega arith)
length-digits (suc fuel) zero n h lt = rw (lt→ltb n 10 lt) (omega arith)
length-digits (suc fuel) (suc k) n h lt = elim (Bool-cases (ltb n 10)) [
  | inl t ↦ rw t (omega arith)
  | inr f ↦
      let less : n / 10 < fuel = ground (arith, f) in
      let small : n / 10 < 10 ^ suc k = omega (arith, lt) in
      rw f (
        omega (
          arith,
          length-append (digits fuel (n / 10)) ((48 + n % 10) ∷ []),
          length-digits fuel k (n / 10) less small,
        ))
]

-- A number below 10 ^ w has a width of w, and is read back.
pub length-padded : (w n : ℕ) → 0 < w → n < 10 ^ w → length (padded w n) ≡ w
unfolding padded decimal
length-padded zero n p h = absurd (omega arith)
length-padded (suc w) n p h = omega (
  arith,
  length-append (replicate (suc w - length (digits (suc n) n)) 48) (digits (suc n) n),
  length-replicate {A = ℕ} (suc w - length (digits (suc n) n)) 48,
  length-digits (suc n) w n (omega arith) h,
)

pub value-padded : (w n : ℕ) → value (padded w n) 0 ≡ n
unfolding padded decimal
value-padded w n =
    rw
      (
        value-append (replicate (w - length (digits (suc n) n)) 48) (digits (suc n) n) 0,
        value_zeros (w - length (digits (suc n) n)),
      )
      (value-digits (suc n) n (omega arith))

-- What is printed is parsed.
not_empty-append : (t : Text) (c : ℕ) → is_empty (t ++ c ∷ []) ≡ false
not_empty-append [] c = refl
not_empty-append (d ∷ t) c = refl

parse_digit :
    (d m n : ℕ) (cs : Text)
    → d < 10
    → 10 * m + d ≡ n
    → n < word
    → parse_digits ((48 + d) ∷ cs) m ≡ parse_digits cs n
unfolding parse_digits
parse_digit d m n cs h e w =
    let next : 10 * m + (48 + d - 48) ≡ n = omega (arith, e) in
    let digit : leb 48 (48 + d) && leb (48 + d) 57 && ltb n word ≡ true = ground arith in
    rw (parse_digits, next, digit) refl

parse_digits-digits :
    (fuel n : ℕ) (rest : Text)
    → n < fuel
    → n < word
    → parse_digits (digits fuel n ++ rest) 0 ≡ parse_digits rest n
unfolding digits
parse_digits-digits zero n rest h w = absurd (omega arith)
parse_digits-digits (suc fuel) n rest h w = elim (Bool-cases (ltb n 10)) [
  | inl t ↦ rw t (parse_digit n 0 n rest (ground (arith, t)) (omega arith) w)
  | inr f ↦
      let less : n / 10 < fuel = ground (arith, f) in
      let last = (48 + n % 10) ∷ [] in
      rw (f, append_assoc (digits fuel (n / 10)) last rest)
        (parse_digits-digits fuel (n / 10) (last ++ rest) less (omega (arith, w))
          ∙ parse_digit (n % 10) (n / 10) n rest (omega arith) (omega arith) w)
]

pub digits_not_empty : (fuel n : ℕ) → is_empty (digits (suc fuel) n) ≡ false
unfolding digits
digits_not_empty fuel n = elim (Bool-cases (ltb n 10)) [
  | inl t ↦ rw t refl
  | inr f ↦ rw f (not_empty-append (digits fuel (n / 10)) (48 + n % 10))
]

pub parse_uint-decimal : (n : ℕ) → n < word → parse_uint (decimal n) ≡ some n
unfolding parse_uint decimal
parse_uint-decimal n w =
    rw (parse_uint, digits_not_empty n n)
      (ap (λ t. parse_digits t 0) (sym (append-nil (digits (suc n) n)))
        ∙ parse_digits-digits (suc n) n [] (omega arith) w)
