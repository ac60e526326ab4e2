-- ===== src/Types.antt =====
-- The data that the parts exchange (pkg/types/types.go, pkg/repository/types.go), and float64.
use osmosis_publisher.Prelude.{
  ℕ, ℤ, pos, negsuc, Text, List, [], ◌++◌, ◌∷◌, Option, none, some, ◌*◌, ◌-◌, ◌≡◌, refl, ◌⊎◌, inl,
  inr,
}

-- A time is its nanoseconds since the Unix epoch, a duration a number of nanoseconds.
abbrev pub Time : Type 0
Time = ℤ

abbrev pub Duration : Type 0
Duration = ℤ

abbrev pub nanos_per_second : ℕ
nanos_per_second = 1_000_000_000

abbrev pub nanos_per_hour : ℕ
nanos_per_hour = 3600 * nanos_per_second

abbrev pub hour : Duration
hour = pos nanos_per_hour

-- The zero `time.Time` is the start of the year 1.
abbrev pub zero_time : Time
zero_time = negsuc (62_135_596_800 * nanos_per_second - 1)

-- What the source does with a float64. `scale` is the product of a `big.Int` and a float64 that
-- `math/big` computes and rounds; `hours` and `seconds` are those of a `time.Duration`.
pub record Float64 (F : Type 0) : Type 0 where
  pub nought : F
  pub two : F
  pub micro : F
  pub add : F → F → F
  pub sub : F → F → F
  pub mul : F → F → F
  pub div : F → F → F
  pub seconds : Duration → F
  pub hours : Duration → F
  pub of_uint64 : ℕ → F
  pub to_int64 : F → ℤ
  pub scale : ℤ → F → F

-- An error is the messages that it joins, the outermost wrapping first.
abbrev pub Error : Type 0
Error = List Text

-- errors.Join: nil errors are left out, and no error is nil.
abbrev pub join_errors : List Error → Option Error
join_errors [] = none
join_errors (e ∷ es) = elim (join_errors es) [ none ↦ some e | some e' ↦ some (e ++ e') ]

-- A value or an error, or a panic of the run time (an index out of range, a division by zero).
pub data Result {ℓ} (A : Type ℓ) : Type ℓ where
  ok : A → Result A
  err : Error → Result A
  panic : Result A

pub record Coin : Type 0 where
  pub denom : Text
  pub amount : ℤ

abbrev pub Coins : Type 0
Coins = List Coin

pub record TokenPrice (F : Type 0) : Type 0 where
  pub last_updated : Time
  pub value : F
  pub name : Text
  pub base : Text

pub record Pool : Type 0 where
  pub timestamp : Time
  pub height : ℕ
  pub pool_id : ℕ
  pub liquidity : Coins
  pub volume : Coins

pub record PoolStatusVolumeAt (F : Type 0) : Type 0 where
  pub block_height : ℤ
  pub volume : Coins
  pub volume_usd : List F
  pub relative_volume_usd : List F

pub record PoolStatus (F : Type 0) : Type 0 where
  pub pool_id : ℕ
  pub total_liquidity : Coins
  pub volumes : List (PoolStatusVolumeAt F)

pub record PoolLiquidity : Type 0 where
  pub pool_id : ℕ
  pub liquidity : Coins

pub record PoolVolume : Type 0 where
  pub pool_id : ℕ
  pub volume : Coins

-- An IBC denomination: its path and base (of ibc-go's transfer module).
pub record DenomTrace : Type 0 where
  pub path : Text
  pub base_denom : Text

pub Result-cases {ℓ} :
    {A : Type ℓ} (r : Result A)
    → ((a : A) × (r ≡ ok a)) ⊎ (((e : Error) × (r ≡ err e)) ⊎ (r ≡ panic))
Result-cases (ok a) = inl (a, refl)
Result-cases (err e) = inr (inl (e, refl))
Result-cases panic = inr (inr refl)

pub ok_inj : {A : Type 0} (a b : A) → ok a ≡ ok b → a ≡ b
ok_inj a b e = cc
