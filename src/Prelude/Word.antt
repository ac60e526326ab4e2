-- ===== src/Prelude/Word.antt =====
-- uint64 and int64: a uint64 is a number below 2 ^ 64, an int64 an integer, and each operation
-- wraps as Go's does.
use Prim.Native.Nat.{ℕ, ◌+◌, ◌-◌, ◌*◌, ◌^◌, ◌%◌, ◌<◌}
use mathlib.Core.Path.{◌≡◌, refl}
use native.Mathlib.Omega.{arith}
use osmosis_publisher.Prelude.Tests.{ltb, if◌then◌else◌}
use osmosis_publisher.Prelude.Int.{ℤ, pos, negsuc, ◌≤ℤ◌, ◌-ℤ◌, -ℤ_self, ◌<ℤ◌, ltb_ℤ}

abbrev pub word : ℕ
word = 2 ^ 64

abbrev pub half_word : ℕ
half_word = 2 ^ 63

abbrev pub max_int64 : ℤ
max_int64 = pos (half_word - 1)

abbrev min_int64 : ℤ
min_int64 = negsuc (half_word - 1)

abbrev pub IsInt64 : ℤ → Type 0
IsInt64 z = (min_int64 ≤ℤ z) × (z ≤ℤ max_int64)

-- uint64 arithmetic.
abbrev pub add64 : ℕ → ℕ → ℕ
add64 a b = (a + b) % word

abbrev pub sub64 : ℕ → ℕ → ℕ
sub64 a b = (a + word - b) % word

abbrev pub mul64 : ℕ → ℕ → ℕ
mul64 a b = a * b % word

-- int64(u)
unfoldable pub to_int64 : ℕ → ℤ
to_int64 u = if ltb u half_word then pos u else negsuc (word - 1 - u)

-- uint64(z)
unfoldable pub to_uint64 : ℤ → ℕ
to_uint64 (pos n) = n % word
to_uint64 (negsuc n) = word - 1 - n % word

-- The int64 that an exact result wraps to.
unfoldable pub wrap64 : ℤ → ℤ
unfolding to_int64 to_uint64
wrap64 z = to_int64 (to_uint64 z)

-- The nearest int64: `time.Time.Sub` saturates.
unfoldable pub saturate64 : ℤ → ℤ
saturate64 z = if ltb_ℤ z min_int64 then min_int64 else if ltb_ℤ max_int64 z then max_int64 else z

to_uint64-lt-word : (z : ℤ) → to_uint64 z < word
unfolding to_uint64
to_uint64-lt-word (pos n) = omega arith
to_uint64-lt-word (negsuc n) = omega arith

to_uint64-to_int64 : (u : ℕ) → u < word → to_uint64 (to_int64 u) ≡ u
unfolding to_uint64 to_int64
to_uint64-to_int64 u h = ground arith

pub wrap64_small : (n : ℕ) → n < half_word → wrap64 (pos n) ≡ pos n
unfolding wrap64
wrap64_small n h = ground arith

pub wrap64_exact : (z : ℤ) → IsInt64 z → wrap64 z ≡ z
unfolding wrap64
wrap64_exact (pos n) h = ground arith
wrap64_exact (negsuc n) h = ground arith

pub saturate64_exact : (z : ℤ) → IsInt64 z → saturate64 z ≡ z
unfolding saturate64
saturate64_exact z h = ground arith

pub saturate64_pos : (z : ℤ) → pos 0 <ℤ z → pos 0 <ℤ saturate64 z
unfolding saturate64
saturate64_pos z h = ground arith

saturate64_neg : (z : ℤ) → z <ℤ pos 0 → saturate64 z <ℤ pos 0
unfolding saturate64
saturate64_neg z h = ground arith

pub saturate64_self : (t u : ℤ) → u ≡ t → saturate64 (t -ℤ u) ≡ pos 0
saturate64_self t u e = rw (e, -ℤ_self t) (unfold saturate64 in refl)
