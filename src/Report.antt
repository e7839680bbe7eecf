-- ===== src/Report.antt =====
-- What the module prints: `nanonet_proc_show` of src/control_interface.c, and
-- `nanonet_debug_stats_show` and the trace event of src/debug.c. A text is the list of its lines.
pub mod Agree
use nano_net_ull.Base.{ℕ, ◌-◌, List, [], ◌∷◌, ◌++◌, Bool, ◌==◌, if◌then◌else◌, swap16, ltb}
use nano_net_ull.Config.{Config}
use nano_net_ull.Debug.{DebugStats, code_text}
use nano_net_ull.Hook.{Trace}
use nano_net_ull.Logic.{Return, code, positive}
use nano_net_ull.Packet.{ipproto_tcp}
use nano_net_ull.Stats.{Stats}
use nano_net_ull.Text.{codes, decimal, dotted}

abbrev yes_or_no : Bool → List ℕ
yes_or_no b = if b then codes "Yes" else codes "No"

-- The nine lines of the statistics, each counter by `%llu`.
pub proc_counters : Stats → List (List ℕ)
proc_counters s =
    (codes "Packets Processed: " ++ decimal s.packets_processed)
    ∷ (codes "Packets Bypassed: " ++ decimal s.packets_bypassed)
    ∷ (codes "Responses Sent: " ++ decimal s.responses_sent)
    ∷ (codes "Errors: " ++ decimal s.errors)
    ∷ (codes "Active Connections: " ++ decimal s.connections_active)
    ∷ (codes "Dropped Connections: " ++ decimal s.connections_dropped)
    ∷ (codes "Min Process Time: " ++ (decimal s.min_process_time_ns ++ codes " ns"))
    ∷ (codes "Max Process Time: " ++ (decimal s.max_process_time_ns ++ codes " ns"))
    ∷ (codes "Avg Process Time: " ++ (decimal s.avg_process_time_ns ++ codes " ns"))
    ∷ []

proc_group : Config → List (List ℕ)
proc_group c =
    if c.multicast then (codes "Multicast Group: " ++ dotted c.multicast_group) ∷ [] else []

unfoldable proc_show : Config → Stats → List (List ℕ)
unfolding proc_counters proc_group
proc_show c s =
    codes "NanoNet Module Status"
    ∷ codes "========================================"
    ∷ (codes "Enabled: " ++ yes_or_no c.enabled)
    ∷ (codes "Target IP: " ++ dotted c.target_ip)
    ∷ (codes "Target Port: " ++ decimal (swap16 c.target_port))
    ∷ (codes "Protocol: " ++ (if c.protocol == ipproto_tcp then codes "TCP" else codes "UDP"))
    ∷ (codes "Multicast: " ++ yes_or_no c.multicast)
    ∷ (proc_group c ++ ([] ∷ codes "Statistics:" ∷ proc_counters s))

unfoldable debug_stats_show : DebugStats → List (List ℕ)
debug_stats_show d =
    codes "NanoNet Debug Statistics"
    ∷ codes "============================"
    ∷ (codes "Total Interrupts: " ++ decimal d.total_interrupts)
    ∷ (codes "Cache Misses: " ++ decimal d.cache_misses)
    ∷ (codes "Memory Allocations: " ++ decimal d.memory_allocations)
    ∷ (codes "Queue Full Events: " ++ decimal d.queue_full_events)
    ∷ (codes "Checksum Errors: " ++ decimal d.checksum_errors)
    ∷ (codes "Last Error: " ++ d.last_error)
    ∷ []

abbrev return_text : Return → List ℕ
return_text (code c) = code_text c
return_text (positive n) = decimal n

-- The `TP_printk` of the event `nanonet_packet_processed`.
unfoldable trace_line : Trace → List ℕ
trace_line t =
    codes "src="
    ++ (dotted t.src_ip
        ++ (codes ":"
            ++ (decimal t.src_port
                ++ (codes " dst="
                    ++ (dotted t.dst_ip
                        ++ (codes ":"
                            ++ (decimal t.dst_port
                                ++ (codes " time="
                                    ++ (decimal t.process_time_ns
                                        ++ (codes " ns result=" ++ return_text t.result))))))))))
