-- ===== src/Indexer/BlockClock/Timestamps.antt =====
-- BlockToTimestamp: heights are mapped to times in order, as long as the int64 product of a
-- distance in blocks and an hour does not wrap.
use native.Mathlib.Nat.{zero-div, le-div_iff_mul-le, div-mul-le_self, le_trans}
use osmosis_publisher.Prelude.{
  ℕ, zero, suc, pos, negsuc, ◌-◌, ◌*◌, ◌/◌, ◌≤◌, ◌<◌, ◌≡◌, refl, ◌∙◌, ap, arith, ◌+ℤ◌, ◌*ℤ◌, ◌≤ℤ◌,
  neg, quot, le→ltb, lt→ltb, int_eq, sub64, to_int64, wrap64, wrap64_small, wrap64_exact, word,
  half_word, int_laws, neg-suc, ◌⊎◌, inl, inr,
}
use osmosis_publisher.Types.{nanos_per_hour, hour}
use osmosis_publisher.Indexer.{Indexer}
use osmosis_publisher.Indexer.BlockClock.{quot64, rate_or_default, block_to_timestamp}

-- The most blocks whose number of hours is an int64 of nanoseconds.
abbrev pub max_distance : ℕ
max_distance = 2_562_047

quot-neg : (n b : ℕ) → quot (neg (pos n)) b ≡ neg (pos (n / b))
unfolding quot neg
quot-neg zero b = rw (zero-div b)
quot-neg (suc n) b = ground arith

hours : (n : ℕ) → pos n *ℤ hour ≡ pos (n * nanos_per_hour)
unfolding ◌*ℤ◌
hours n = ground arith

to_int64_small : (n : ℕ) → n < half_word → to_int64 n ≡ pos n
unfolding to_int64
to_int64_small n h = ground arith

neg_small : (n : ℕ) → n < half_word → wrap64 (neg (pos n)) ≡ neg (pos n)
neg_small zero h = unfold neg in wrap64_exact (pos 0) (omega arith)
neg_small (suc n) h = rw (neg-suc n) (wrap64_exact (negsuc n) (omega arith))

distance_exact : (n : ℕ) → n ≤ max_distance → wrap64 (to_int64 n *ℤ hour) ≡ pos (n * nanos_per_hour)
distance_exact n h =
    rw (to_int64_small n (omega arith), hours n) (wrap64_small (n * nanos_per_hour) (omega arith))

rate_suc : (b : ℕ) → rate_or_default (pos (suc b)) ≡ pos (suc b)
unfolding rate_or_default
rate_suc b = ground arith

sub64_exact : (a b : ℕ) → b ≤ a → a < word → sub64 a b ≡ a - b
sub64_exact a b h k = omega arith

div_mono : (m n b : ℕ) → m ≤ n → m / suc b ≤ n / suc b
div_mono m n b h = (le-div_iff_mul-le (omega arith)).1 (le_trans (div-mul-le_self m (suc b)) h)

self_distance : (a : ℕ) → (a - a) * nanos_per_hour ≡ 0
self_distance a = omega arith

nat_lt_or_le : (a b : ℕ) → (a < b) ⊎ (b ≤ a)
nat_lt_or_le a b = omega arith

module _ {F : Type 0} (d : Indexer F) (b : ℕ) (rate : d.blocks_per_hour ≡ pos (suc b))
    (fits : d.current_block_height < word) where
  -- A height in the past is as many hours before the current block's time as its distance is of the
  -- rate, rounded down to a nanosecond.
  timestamp_past :
      (height : ℕ)
      → height ≤ d.current_block_height
      → d.current_block_height - height ≤ max_distance
      → block_to_timestamp d height
        ≡ d.current_block_time
          +ℤ neg (pos ((d.current_block_height - height) * nanos_per_hour / suc b))
  unfolding block_to_timestamp
  timestamp_past height h near =
      let n = d.current_block_height - height in
      rw (
        rate,
        rate_suc b,
        le→ltb d.current_block_height height h,
        sub64_exact d.current_block_height height h fits,
        distance_exact n near,
        neg_small (n * nanos_per_hour) (omega arith),
        quot64,
        quot-neg (n * nanos_per_hour) (suc b),
      )

  timestamp_future :
      (height : ℕ)
      → d.current_block_height < height
      → height < word
      → height - d.current_block_height ≤ max_distance
      → block_to_timestamp d height
        ≡ d.current_block_time +ℤ pos ((height - d.current_block_height) * nanos_per_hour / suc b)
  unfolding block_to_timestamp
  timestamp_future height h k near =
      let n = height - d.current_block_height in
      rw
        (
          rate,
          rate_suc b,
          lt→ltb d.current_block_height height h,
          sub64_exact height d.current_block_height (omega arith) k,
          distance_exact n near,
          quot64,
        )
        (unfold quot in refl)

  -- Nearer heights have later times: BlockToTimestamp is monotone within the distance.
  timestamp_past_mono :
      (g h : ℕ)
      → g ≤ h
      → h ≤ d.current_block_height
      → d.current_block_height - g ≤ max_distance
      → block_to_timestamp d g ≤ℤ block_to_timestamp d h
  timestamp_past_mono g h le past near =
      rw (timestamp_past g (omega arith) near, timestamp_past h past (omega arith))
        (omega (
          int_laws,
          div_mono ((d.current_block_height - h) * nanos_per_hour)
              ((d.current_block_height - g) * nanos_per_hour) b (omega arith),
        ))

  timestamp_future_mono :
      (g h : ℕ)
      → g ≤ h
      → d.current_block_height < g
      → h < word
      → h - d.current_block_height ≤ max_distance
      → block_to_timestamp d g ≤ℤ block_to_timestamp d h
  timestamp_future_mono g h le past small near =
      rw
        (
          timestamp_future g past (omega arith) (omega arith),
          timestamp_future h (omega arith) small near,
        )
        (omega (
          int_laws,
          div_mono ((g - d.current_block_height) * nanos_per_hour)
              ((h - d.current_block_height) * nanos_per_hour) b (omega arith),
        ))

  timestamp_around :
      (g h : ℕ)
      → g ≤ d.current_block_height
      → d.current_block_height < h
      → h < word
      → d.current_block_height - g ≤ max_distance
      → h - d.current_block_height ≤ max_distance
      → block_to_timestamp d g ≤ℤ block_to_timestamp d h
  timestamp_around g h past future small near far =
      rw (timestamp_past g past near, timestamp_future h future small far) (omega int_laws)

  timestamp_current : block_to_timestamp d d.current_block_height ≡ d.current_block_time
  timestamp_current =
      let none_apart : (d.current_block_height - d.current_block_height) * nanos_per_hour / suc b
          ≡ 0 =
        ap (λ n. n / suc b) (self_distance d.current_block_height) ∙ zero-div (suc b) in
      rw (timestamp_past d.current_block_height (omega arith) (omega arith), none_apart)
        (omega int_laws)

  -- With a positive rate, uint64 heights, and heights at most `max_distance` blocks from the
  -- current one, a later block has no earlier time, and the current block has its own time.
  pub block_to_timestamp_mono :
      (g h : ℕ)
      → g ≤ h
      → h < word
      → d.current_block_height - g ≤ max_distance
      → h - d.current_block_height ≤ max_distance
      → (block_to_timestamp d g ≤ℤ block_to_timestamp d h)
        × (block_to_timestamp d d.current_block_height ≡ d.current_block_time)
  block_to_timestamp_mono g h le small near far = elim (nat_lt_or_le d.current_block_height g) [
    | inl after ↦ (timestamp_future_mono g h le after small far, timestamp_current)
    | inr before ↦ elim (nat_lt_or_le d.current_block_height h) [
      | inl after ↦ (timestamp_around g h before after small near far, timestamp_current)
      | inr upto ↦ (timestamp_past_mono g h le upto near, timestamp_current)
    ]
  ]
