-- ===== src/Examples/Tables.antt =====
-- The table of connections, the pool, the times, the error text and the checks.
use nano_net_ull.Base.{
  Bool, ◌++◌, ℕ, ◌+◌, ◌*◌, ◌/◌, ◌%◌, ◌^◌, ◌≤◌, ◌<◌, ◌≡◌, ◌↔◌, refl, true, false, Option, none, some,
  List, [], ◌∷◌, ◌++◌, arith, length, replicate, ◌==◌, if◌then◌else◌,
}
use nano_net_ull.Conn.{
  Key, Connections, TrackEnv, no_connections, key_of, track_tcp_connection, clear_tcp_connections,
}
use nano_net_ull.Conn.Table.{IsValid, view, total, no_connections-IsValid}
use nano_net_ull.Conn.Spec.{track_spec}
use nano_net_ull.Conn.Track.{track_refines, track-IsValid}
use nano_net_ull.Conn.Chain.{same}
use nano_net_ull.Conn.Clear.{others, clear_empties}
use nano_net_ull.Debug.{
  format, pool_alloc_failed, DebugStats, LogEnv, Message, parsing_failed, replay,
}
use nano_net_ull.Debug.Whole.{replay-whole}
use nano_net_ull.Text.{codes, decimal}
use nano_net_ull.Errno.{success, einval, enomem}
use nano_net_ull.Examples.{sender, receiver, from_port, to_port}
use nano_net_ull.Packet.{IpHdr, TcpHdr}
use nano_net_ull.Pool.{Pool, init_response_pool, cleanup_response_pool, response_pool_size}
use nano_net_ull.Pool.Conserve.{span, downto, init_releases}
use Prim.Native.Nat.{min}
use nano_net_ull.Pool.Drain.{drain, pool_conserves}
use nano_net_ull.Stats.{Stats, zeroed, record_time}
use nano_net_ull.Stats.Timing.{IsTimed, record_time-IsTimed}
use nano_net_ull.Validate.{validate_packet}
use nano_net_ull.Validate.Exact.{validate_packet_iff}

abbrev hash : ℕ → ℕ → ℕ → ℕ → ℕ
hash a b c d = a + b + c + d

abbrev ip : IpHdr
ip = record {
  version_ihl = 69;
  tot_len = 52 * 256;
  protocol = 6;
  check = 0;
  saddr = sender;
  daddr = receiver;
}

abbrev syn : TcpHdr
syn = record {
  source = from_port;
  dest = to_port;
  seq = 7;
  ack_seq = 0;
  doff = 5;
  syn = true;
  ack = false;
}

abbrev env : TrackEnv
env = record { jiffies = 100; memory = true }

abbrev opened : Connections
opened = (track_tcp_connection hash env ip syn no_connections).1

opened-IsValid : IsValid hash opened
opened-IsValid = track-IsValid hash env ip syn no_connections (no_connections-IsValid hash)

track_refines_example :
    let (code, t', log) = track_tcp_connection hash env ip syn opened in
    let (code', o) = track_spec env (key_of ip syn) syn (view hash opened.chains (key_of ip syn)) in
    (code ≡ code')
    × ((q : Key)
        → view hash t'.chains q ≡ (if same q (key_of ip syn) then o else view hash opened.chains q))
track_refines_example = track_refines hash env ip syn opened opened-IsValid.width

clear_empties_example :
    let t' = clear_tcp_connections opened.chains opened.stats in
    IsValid hash t'
    × ((k : Key) → view hash t'.chains k ≡ none)
    × (t'.stats.connections_active ≡ 0)
    × (t'.stats.connections_dropped % 2 ^ 64
        ≡ (opened.stats.connections_dropped + total opened.chains) % 2 ^ 64)
    × (others t'.stats ≡ others opened.stats)
clear_empties_example = clear_empties hash opened-IsValid

abbrev addresses : ℕ → ℕ
addresses i = 4096 + i * 2048

abbrev bare : Pool
bare = record { slots = replicate 256 none; head = 0; tail = 0 }

pool_conserves_example :
    let (code, pool', gone, log) = init_response_pool (λ i. some (addresses i)) bare in
    let (handed, pool'') = drain 300 pool' in
    (handed ++ (cleanup_response_pool pool'').1 ≡ span addresses 0 response_pool_size)
    × (length handed ≡ min 300 255)
pool_conserves_example =
    pool_conserves (λ i. some (addresses i)) addresses bare 300 refl (λ j h. refl)

-- An allocator that fails from round 3 on.
abbrev scarce : ℕ → Option ℕ
scarce i = if i == 3 then none else some (addresses i)

init_releases_example :
    ((init_response_pool scarce bare).0 ≡ enomem)
    × ((init_response_pool scarce bare).2 ≡ downto addresses 3)
init_releases_example =
    init_releases scarce addresses bare 3 refl (omega arith) (λ j h. ground arith) refl

-- Two packets, of 5 and 9 nanoseconds.
abbrev timed : Stats
timed = record zeroed {
  packets_processed = 2;
  min_process_time_ns = 5;
  max_process_time_ns = 9;
  avg_process_time_ns = 7;
}

record_time-IsTimed_example :
    (s' : Stats) × (record_time 1000 1040 timed ≡ some s')
    × (s'.packets_processed ≡ 3)
    × (s'.last_process_time_ns ≡ 40)
    × (s'.min_process_time_ns ≤ s'.last_process_time_ns)
    × (s'.last_process_time_ns ≤ s'.max_process_time_ns)
    × IsTimed s'
record_time-IsTimed_example =
    record_time-IsTimed 1000 1040 timed (omega arith) (omega arith) (omega arith) (omega arith)
      (omega arith)

abbrev quiet : DebugStats
quiet = record {
  total_interrupts = 0;
  cache_misses = 0;
  memory_allocations = 0;
  queue_full_events = 0;
  checksum_errors = 0;
  last_error = [];
}

abbrev clocks : ℕ → LogEnv
clocks i = record { ts = i * 1000; allowed = true }

abbrev two_errors : List Message
two_errors = parsing_failed einval ∷ parsing_failed enomem ∷ []

replay-whole_example :
    replay clocks 5 (two_errors ++ pool_alloc_failed 255 ∷ []) quiet
    ≡ record (replay clocks 5 two_errors quiet) {
      last_error = codes "[" ++ (decimal 7000 ++ (codes " ns] " ++ format (pool_alloc_failed 255)));
    }
replay-whole_example =
    replay-whole clocks 5 two_errors (pool_alloc_failed 255) quiet refl (omega arith) (omega arith)

validate_packet_iff_example :
    ((validate_packet true ip).0 ≡ success)
    ↔ (◌≡◌ {A = Bool} true true × ¬ ((52 % 256 ≡ 0) × (52 / 256 < 20)))
validate_packet_iff_example =
    validate_packet_iff true ip 52 (omega arith) (omega arith) (omega arith)
