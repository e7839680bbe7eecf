-- ===== src/Stats.antt =====
-- include/nanonet.h: `struct ull_stats`, and the arithmetic of src/nanonet.c on it. A counter of type
-- `atomic64_t` is its bit pattern, a number below 2 ^ 64.
pub mod Timing
use nano_net_ull.Packet.{◌>>=◌}
use nano_net_ull.Base.{
  ℕ, ◌+◌, ◌-◌, ◌*◌, ◌/◌, ◌^◌, Option, none, some, ltb, ◌==◌, if◌then◌else◌, u64, inc64, uint64_max,
}

pub record Stats : Type 0 where
  pub packets_processed : ℕ
  pub packets_bypassed : ℕ
  pub responses_sent : ℕ
  pub errors : ℕ
  pub last_process_time_ns : ℕ
  pub min_process_time_ns : ℕ
  pub max_process_time_ns : ℕ
  pub avg_process_time_ns : ℕ
  pub connections_active : ℕ
  pub connections_dropped : ℕ

-- The initial value in src/nanonet.c, and what `NANONET_IOC_RESET_STATS` stores.
abbrev pub zeroed : Stats
zeroed = record {
  packets_processed = 0;
  packets_bypassed = 0;
  responses_sent = 0;
  errors = 0;
  last_process_time_ns = 0;
  min_process_time_ns = uint64_max;
  max_process_time_ns = 0;
  avg_process_time_ns = 0;
  connections_active = 0;
  connections_dropped = 0;
}

abbrev pub bypassed : Stats → Stats
bypassed s = record s { packets_bypassed = inc64 s.packets_bypassed }

abbrev pub failed : Stats → Stats
failed s = record s { errors = inc64 s.errors }

-- `(avg * (processed - 1) + process_time) / processed`, with `processed` as the counter now reads. The
-- division by a counter that has wrapped to 0 is a fault, `none`.
pub running_average : ℕ → ℕ → ℕ → Option ℕ
running_average avg processed time =
    if processed == 0
    then none
    else some (u64 (avg * u64 (processed + 2 ^ 64 - 1) + time) / processed)

-- The end of `nanonet_hook`: the counter of processed packets and the four times.
unfoldable pub record_time : ℕ → ℕ → Stats → Option Stats
unfolding running_average
record_time start_time end_time s =
    let time = u64 (end_time + 2 ^ 64 - start_time) in
    let processed = inc64 s.packets_processed in
    running_average s.avg_process_time_ns processed time >>= λ avg. some (record s {
      packets_processed = processed;
      last_process_time_ns = time;
      min_process_time_ns = if ltb time s.min_process_time_ns then time else s.min_process_time_ns;
      max_process_time_ns = if ltb s.max_process_time_ns time then time else s.max_process_time_ns;
      avg_process_time_ns = avg;
    })
