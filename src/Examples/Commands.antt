-- ===== src/Examples/Commands.antt =====
-- Commands of the device, and runs of the module.
use nano_net_ull.Base.{◌-◌, ◌^◌, ◌≡◌, ◌≢◌, ◌↔◌, refl, true, [], ◌∷◌, arith, replicate}
use nano_net_ull.Config.{Config}
use nano_net_ull.Conn.Table.{IsValid, IsPlaced, total}
use nano_net_ull.Control.{Command, set_config, reset_stats, clear_connections, other, ioctl}
use nano_net_ull.Control.Frame.{set_config_installs}
use nano_net_ull.Control.Reset.{reset-clear_underflows}
use nano_net_ull.Errno.{success}
use nano_net_ull.Examples.{config, packet}
use nano_net_ull.Examples.Calls.{hash, env, pool, globals, of_hook, ran-some, ran}
use nano_net_ull.Hook.{Globals}
use nano_net_ull.Machine.{
  Run, stop, received, called, initial, initial-Run-IsValid, initial-Run-IsPlaced,
}
use nano_net_ull.Machine.Settings.{IsOther, Run-IsSettled}
use nano_net_ull.Stats.{zeroed}
use nano_net_ull.Validate.Exact.{IsUsable}

-- A configuration without an address to answer from, which still enables the module.
abbrev refused : Config
refused = record config { response_ip = 0 }

set_config_installs_example :
    ((ioctl (set_config true refused) globals).globals ≡ record globals { config = refused })
    × (((ioctl (set_config true refused) globals).ret ≡ success)
        ↔ ((true ≡ true) × IsUsable refused))
set_config_installs_example = set_config_installs true refused globals

-- One connection, in the chain 1.
abbrev live : Globals
live = record globals {
  conns = record {
    chains =
        []
        ∷ (record {
          src_ip = 1;
          dst_ip = 0;
          src_port = 0;
          dst_port = 0;
          seq_num = 5;
          ack_num = 0;
          state = 1;
          last_seen = 9;
        }
            ∷ [])
        ∷ replicate 1022 [];
    stats = record zeroed { connections_active = 1 };
  };
}

total-live : total live.conns.chains ≡ 1
unfolding total
total-live = refl

reset-clear_underflows_example :
    let g' = (ioctl clear_connections (ioctl reset_stats live).globals).globals in
    (total g'.conns.chains ≡ 0)
    × (g'.conns.stats.connections_active ≡ 2 ^ 64 - total live.conns.chains)
    × ¬ IsValid hash g'.conns
reset-clear_underflows_example =
    reset-clear_underflows hash live (omega (arith, total-live)) (omega (arith, total-live))

-- The module is configured, takes a packet, and is cleared.
abbrev cleared : Globals
cleared = (ioctl clear_connections (of_hook ran).globals).globals

script : Run hash (λ command. command ≢ reset_stats) (initial pool) cleared
script =
    called (set_config true config) (λ e. cc)
      (rw (set_config_installs true config (initial pool)).0
        (received env packet ran-some (called clear_connections (λ e. cc) stop)))

initial-Run-IsValid_example : IsValid hash cleared.conns
initial-Run-IsValid_example = initial-Run-IsValid hash pool script

-- Every command but one that the device does not know.
abbrev Known : Command → Type 0
Known command = command ≢ other 7

-- The module is configured, its statistics are reset, and it takes a packet.
resets : Run hash Known (initial pool) (of_hook ran).globals
unfolding ioctl
resets =
    called (set_config true config) (λ e. cc)
      (rw (set_config_installs true config (initial pool)).0
        (called reset_stats (λ e. cc) (received env packet ran-some stop)))

initial-Run-IsPlaced_example : IsPlaced hash (of_hook ran).globals.conns
initial-Run-IsPlaced_example = initial-Run-IsPlaced hash pool resets

-- A packet, and then the table is cleared.
traffic : Run hash IsOther globals cleared
traffic = received env packet ran-some (called clear_connections (λ copied c e. cc) stop)

Run-IsSettled_example : cleared.config ≡ record config { seq_num = cleared.config.seq_num }
Run-IsSettled_example = Run-IsSettled hash traffic
