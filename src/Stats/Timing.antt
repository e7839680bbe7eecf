-- ===== src/Stats/Timing.antt =====
-- The times that the hook keeps, as long as the products of the average fit 64 bits.
use nano_net_ull.Base.{
  ℕ, ◌+◌, ◌-◌, ◌*◌, ◌/◌, ◌^◌, ◌≤◌, ◌<◌, ◌≡◌, refl, arith, some, false, ◌==◌, ltb, if◌then◌else◌,
  u64, inc64, zero, suc,
}
use native.Mathlib.Nat.{le-div_iff_mul-le, div-le_of_le-mul}
use nano_net_ull.Stats.{Stats, running_average, record_time}

-- Where the counter of processed packets does not wrap, timing a packet meets no fault, and moves no
-- other counter.
pub record_time_total :
    (start_time end_time : ℕ) (s : Stats)
    → s.packets_processed + 1 < 2 ^ 64
    → (s' : Stats) × (record_time start_time end_time s ≡ some s')
      × (s'.packets_processed ≡ inc64 s.packets_processed)
      × (s'.packets_bypassed ≡ s.packets_bypassed)
      × (s'.responses_sent ≡ s.responses_sent)
      × (s'.errors ≡ s.errors)
unfolding record_time running_average
record_time_total start_time end_time s small =
    let nonzero : (inc64 s.packets_processed == 0) ≡ false = ground arith in
    rw nonzero (_, refl, refl, refl, refl, refl)

-- Once a packet has been timed, the average lies between the shortest and the longest time.
abbrev pub IsTimed : Stats → Type 0
IsTimed s =
    0 < s.packets_processed
    → (s.min_process_time_ns ≤ s.avg_process_time_ns)
      × (s.avg_process_time_ns ≤ s.max_process_time_ns)

-- The mean of `n` times with mean `avg`, and one more, stays between the bounds of both.
average_ge : (lo avg t n : ℕ) → lo ≤ avg → lo ≤ t → lo ≤ (avg * n + t) / (n + 1)
average_ge lo avg t n p q = (le-div_iff_mul-le (omega arith)).1 (grind arith)

average_le : (hi avg t n : ℕ) → avg ≤ hi → t ≤ hi → (avg * n + t) / (n + 1) ≤ hi
average_le hi avg t n p q = div-le_of_le-mul (n + 1) (grind arith)

-- The first time is its own mean, whatever the average was.
average_between :
    (lo hi avg t n : ℕ)
    → (0 < n → (lo ≤ avg) × (avg ≤ hi))
    → lo ≤ t
    → t ≤ hi
    → (lo ≤ (avg * n + t) / (n + 1)) × ((avg * n + t) / (n + 1) ≤ hi)
average_between lo hi avg t zero h p q =
    let first : (avg * 0 + t) / (0 + 1) ≡ t = omega arith in (rw first p, rw first q)
average_between lo hi avg t (suc n) h p q =
    let b = h (omega arith) in
    (average_ge lo avg t (suc n) b.0 p, average_le hi avg t (suc n) b.1 q)

abbrev shorter : ℕ → ℕ → ℕ
shorter time least = if ltb time least then time else least

abbrev longer : ℕ → ℕ → ℕ
longer time most = if ltb most time then time else most

-- The average as the code computes it, where nothing wraps.
running_average_lem :
    (avg n time : ℕ)
    → n + 1 < 2 ^ 64
    → avg * n + time < 2 ^ 64
    → running_average avg (n + 1) time ≡ some ((avg * n + time) / (n + 1))
unfolding running_average
running_average_lem avg n time small fits =
    let back : u64 (n + 1 + 2 ^ 64 - 1) ≡ n = omega arith in
    let sum : u64 (avg * n + time) ≡ avg * n + time = omega arith in
    let nonzero : (n + 1 == 0) ≡ false = ground arith in rw (nonzero, back, sum) refl

module _ (start_time end_time : ℕ) (s : Stats) (small : s.packets_processed + 1 < 2 ^ 64)
    (ordered : start_time ≤ end_time) (late : end_time < 2 ^ 64)
    (fits : s.avg_process_time_ns * s.packets_processed + (end_time - start_time) < 2 ^ 64) where
  -- Timing a packet divides by no 0, counts it, stores its time, and keeps the average between the extremes, where the
  -- clock does not run backwards and the sum of the average fits 64 bits.
  pub record_time-IsTimed :
      IsTimed s
      → (s' : Stats) × (record_time start_time end_time s ≡ some s')
        × (s'.packets_processed ≡ s.packets_processed + 1)
        × (s'.last_process_time_ns ≡ end_time - start_time)
        × (s'.min_process_time_ns ≤ s'.last_process_time_ns)
        × (s'.last_process_time_ns ≤ s'.max_process_time_ns)
        × IsTimed s'
  unfolding record_time
  record_time-IsTimed timed =
      let n = s.packets_processed in
      let time = end_time - start_time in
      let next : inc64 n ≡ n + 1 = omega arith in
      let elapsed : u64 (end_time + 2 ^ 64 - start_time) ≡ time = omega arith in
      let least = shorter time s.min_process_time_ns in
      let most = longer time s.max_process_time_ns in
      let above : least ≤ time = ground arith in
      let below : time ≤ most = ground arith in
      let mean =
        average_between least most s.avg_process_time_ns time n
          (λ h. (ground (arith, timed h), ground (arith, timed h))) above below in
      rw (next, elapsed, running_average_lem s.avg_process_time_ns n time small fits)
        (_, refl, refl, refl, above, below, λ _. mean)
