-- ===== src/Examples/Tools.antt =====
-- Runs of the two tools.
use Prim.Native.String.{String}
use nano_net_ull.Base.{
  ℕ, ◌+◌, ◌-◌, ◌*◌, ◌^◌, ◌≡◌, ◌⊎◌, refl, true, Option, none, some, List, [], ◌∷◌, arith, ltb,
}
use nano_net_ull.Examples.{config}
use nano_net_ull.Examples.Calls.{globals}
use nano_net_ull.Generator.Main.{Sockets, Run, refused, send_all, generator_main}
use nano_net_ull.Generator.Sent.{IsSent, generator_main-IsSent}
use nano_net_ull.Layout.Numbers.{IsIoc}
use nano_net_ull.Report.Agree.{print_counters-eq-proc_counters}
use nano_net_ull.Report.{proc_counters}
use nano_net_ull.Stats.{Stats, zeroed}
use nano_net_ull.Tool.{config_args, configured, crashed, base_config, port_of, print_counters}
use nano_net_ull.Tool.Args.{IsUnicast, config_args-IsUnicast, config_args_multicast}
use nano_net_ull.Tool.Main.{System, Outcome, tool_main, run_command, toggle, perform}
use nano_net_ull.Control.{nanonet_open, ioctl, nanonet_ioctl}
use nano_net_ull.Tool.Run.{IsSpared, tool_main_spares}

-- The layout of the numbers on x86-64.
abbrev ioc : ℕ → ℕ → ℕ → ℕ → ℕ
ioc d t n s = d * 2 ^ 30 + s * 2 ^ 16 + t * 2 ^ 8 + n

ioc-IsIoc : IsIoc ioc
ioc-IsIoc = record { distinct = λ d n s d' n' s' b b' e. (omega arith, omega arith, omega arith) }

-- A resolver that knows one address.
abbrev inet_aton : String → Option ℕ
inet_aton text = some 16777226

abbrev busy : Stats
busy = record zeroed { packets_processed = 12; errors = 3; min_process_time_ns = 2 ^ 64 - 1 }

print_counters-eq-proc_counters_example : print_counters busy ≡ proc_counters busy
print_counters-eq-proc_counters_example = print_counters-eq-proc_counters busy (record {
  processed = omega arith;
  bypassed = omega arith;
  responses = omega arith;
  errors = omega arith;
  active = omega arith;
  dropped = omega arith;
})

abbrev sys : System
sys = record {
  capable = true;
  call = λ i. record { copied = true; left = λ c. config };
  got = base_config 0 0 17;
  stale = zeroed;
}

-- What a run leaves where it ends.
abbrev unused : Outcome
unused = record { status = 0; lines = []; errors = []; globals = globals; log = [] }

abbrev of_main : Option Outcome → Outcome
of_main none = unused
of_main (some o) = o

abbrev command : String
command = "enable"

abbrev enabled : Option Outcome
enabled = tool_main ioc inet_aton sys ("nanonet_control" ∷ command ∷ []) globals

enabled-some : enabled ≡ some (of_main enabled)
unfolding tool_main run_command toggle perform nanonet_ioctl ioctl nanonet_open
enabled-some = refl

tool_main_spares_example :
    (((of_main enabled).status ≡ 1) × ((of_main enabled).globals ≡ globals))
    ⊎ (((command ≡ "stats") ⊎ (command ≡ "reset") ⊎ (command ≡ "clear-connections"))
        × IsSpared globals (of_main enabled).globals)
tool_main_spares_example =
    tool_main_spares ioc ioc-IsIoc inet_aton sys "nanonet_control" command [] globals enabled-some

unicast :
    config_args inet_aton ("nanonet_control" ∷ "config" ∷ "10.0.0.1" ∷ "8080" ∷ "tcp" ∷ [])
    ≡ configured (base_config 16777226 (port_of "8080") 6)
unfolding config_args
unicast = refl

config_args-IsUnicast_example : IsUnicast (base_config 16777226 (port_of "8080") 6)
config_args-IsUnicast_example =
    config_args-IsUnicast inet_aton
      ("nanonet_control" ∷ "config" ∷ "10.0.0.1" ∷ "8080" ∷ "tcp" ∷ []) unicast

config_args_multicast_example :
    (config_args inet_aton (
        "nanonet_control" ∷ "config" ∷ "10.0.0.1" ∷ "8080" ∷ "udp" ∷ "multicast" ∷ "239.1.1.1" ∷ [])
      ≡ configured (base_config 16777226 (port_of "8080") 17))
    × (config_args inet_aton
          ("nanonet_control" ∷ "config" ∷ "10.0.0.1" ∷ "8080" ∷ "udp" ∷ "multicast" ∷ [])
        ≡ crashed)
config_args_multicast_example =
    config_args_multicast inet_aton "nanonet_control" "config" "10.0.0.1" "8080" "239.1.1.1" refl

-- The fifth send fails.
abbrev sockets : Sockets
sockets = record {
  opened = true;
  joined = true;
  connected = true;
  sent = λ i. ltb i 4;
  seconds = λ i. 1700000000 + i;
}

abbrev arguments : List String
arguments = "packet_generator" ∷ "10.0.0.1" ∷ "8080" ∷ "udp" ∷ "multicast" ∷ "239.1.1.1" ∷ []

abbrev of_run : Option Run → Run
of_run none = refused [] []
of_run (some r) = r

abbrev generated : Option Run
generated = generator_main inet_aton sockets arguments

generated_lem : (generated ≡ some (of_run generated)) × ((of_run generated).status ≡ 0)
unfolding generator_main send_all
generated_lem = (refl, refl)

generator_main-IsSent_example : IsSent inet_aton sockets arguments (of_run generated)
generator_main-IsSent_example =
    generator_main-IsSent inet_aton sockets arguments generated_lem.0 generated_lem.1
