-- ===== src/Report/Agree.antt =====
-- The lines of the statistics, as the module and the tool print them.
use nano_net_ull.Base.{ℕ, ◌^◌, ◌<◌, ◌≡◌, refl, lt→ltb}
use nano_net_ull.Report.{proc_counters}
use nano_net_ull.Stats.{Stats}
use nano_net_ull.Text.{decimal, signed}
use nano_net_ull.Tool.{print_counters}

-- The counters of type `atomic64_t` that a `long long` holds.
pub record IsSmall (s : Stats) : Type 0 where
  pub processed : s.packets_processed < 2 ^ 63
  pub bypassed : s.packets_bypassed < 2 ^ 63
  pub responses : s.responses_sent < 2 ^ 63
  pub errors : s.errors < 2 ^ 63
  pub active : s.connections_active < 2 ^ 63
  pub dropped : s.connections_dropped < 2 ^ 63

signed-eq-decimal : (n : ℕ) → n < 2 ^ 63 → signed n ≡ decimal n
unfolding signed
signed-eq-decimal n h = rw (lt→ltb n (2 ^ 63) h)

-- As long as the six counters stay below 2 ^ 63, the nine lines of the statistics that the tool prints
-- are those of /proc/nanonet.
pub print_counters-eq-proc_counters : (s : Stats) → IsSmall s → print_counters s ≡ proc_counters s
unfolding print_counters proc_counters
print_counters-eq-proc_counters s h =
    rw
      (
        signed-eq-decimal s.packets_processed h.processed,
        signed-eq-decimal s.packets_bypassed h.bypassed,
        signed-eq-decimal s.responses_sent h.responses,
        signed-eq-decimal s.errors h.errors,
        signed-eq-decimal s.connections_active h.active,
        signed-eq-decimal s.connections_dropped h.dropped,
      )
      refl
