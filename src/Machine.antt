-- ===== src/Machine.antt =====
-- The module as a machine: its globals, moved by calls of the hook (src/nanonet.c) and of the device
-- (src/control_interface.c), one after the other.
pub mod Settings
use nano_net_ull.Base.{ℕ, ◌≡◌, ◌≢◌, refl, true, false, some}
use nano_net_ull.Config.{global_config}
use nano_net_ull.Conn.{no_connections}
use nano_net_ull.Conn.Clear.{clear_empties, clear-IsPlaced}
use nano_net_ull.Conn.Table.{IsValid, IsPlaced, no_connections-IsValid}
use nano_net_ull.Control.{
  Command, set_config, get_config, get_stats, reset_stats, clear_connections, other, check_config,
  ioctl,
}
use nano_net_ull.Control.Frame.{set_config_installs}
use nano_net_ull.Hook.{Globals, HookEnv, Hooked, hook}
use nano_net_ull.Hook.Valid.{hook-IsValid, hook-IsPlaced}
use nano_net_ull.Packet.{SkBuff}
use nano_net_ull.Pool.{Pool}

-- The globals as the module is loaded, with the pool that the initialisation has filled.
abbrev pub initial : Pool → Globals
initial pool = record { config = global_config; conns = no_connections; pool = pool }

module _ (jhash_3words : ℕ → ℕ → ℕ → ℕ → ℕ) where
  -- A run of the module in which every command satisfies `P`.
  pub data Run (P : Command → Type 0) : Globals → Globals → Type 0 where
    stop : {g : Globals} → Run P g g
    received :
        (env : HookEnv) (skb : SkBuff) {g g' : Globals} {r : Hooked}
        → hook jhash_3words env skb g ≡ some r
        → Run P r.globals g'
        → Run P g g'
    called :
        (command : Command) {g g' : Globals}
        → P command
        → Run P (ioctl command g).globals g'
        → Run P g g'

  ioctl-IsValid :
      (command : Command) (g : Globals)
      → command ≢ reset_stats
      → IsValid jhash_3words g.conns
      → IsValid jhash_3words (ioctl command g).globals.conns
  unfolding ioctl check_config
  ioctl-IsValid (set_config copied c) g ne v = rw (set_config_installs copied c g).0 v
  ioctl-IsValid (get_config true) g ne v = v
  ioctl-IsValid (get_config false) g ne v = v
  ioctl-IsValid (get_stats true) g ne v = v
  ioctl-IsValid (get_stats false) g ne v = v
  ioctl-IsValid reset_stats g ne v = absurd (ne refl)
  ioctl-IsValid clear_connections g ne v = (clear_empties jhash_3words v).0
  ioctl-IsValid (other cmd) g ne v = v

  Run-IsValid :
      {g g' : Globals}
      → Run (λ command. command ≢ reset_stats) g g'
      → IsValid jhash_3words g.conns
      → IsValid jhash_3words g'.conns
  Run-IsValid stop v = v
  Run-IsValid (received env skb {g} {g'} {r} h rest) v =
      Run-IsValid rest (hook-IsValid jhash_3words env skb g {r = r} v h)
  Run-IsValid (called command {g} ne rest) v = Run-IsValid rest (ioctl-IsValid command g ne v)

  -- From the load of the module on, whatever packets arrive and whatever commands but
  -- `NANONET_IOC_RESET_STATS` are given, in any order, the table stays well formed: each connection
  -- stands in the chain of its hash, none twice, and the counter of active connections is their
  -- number, modulo 2 ^ 64.
  pub initial-Run-IsValid :
      (pool : Pool) {g : Globals}
      → Run (λ command. command ≢ reset_stats) (initial pool) g
      → IsValid jhash_3words g.conns
  initial-Run-IsValid pool run = Run-IsValid run (no_connections-IsValid jhash_3words)

  ioctl-IsPlaced :
      (command : Command) (g : Globals)
      → IsPlaced jhash_3words g.conns
      → IsPlaced jhash_3words (ioctl command g).globals.conns
  unfolding ioctl
  ioctl-IsPlaced (set_config copied c) g v = rw (set_config_installs copied c g).0 v
  ioctl-IsPlaced (get_config true) g v = v
  ioctl-IsPlaced (get_config false) g v = v
  ioctl-IsPlaced (get_stats true) g v = v
  ioctl-IsPlaced (get_stats false) g v = v
  ioctl-IsPlaced reset_stats g v = record { width = v.width; placed = v.placed }
  ioctl-IsPlaced clear_connections g v = clear-IsPlaced jhash_3words g.conns v
  ioctl-IsPlaced (other cmd) g v = v

  Run-IsPlaced :
      {P : Command → Type 0} {g g' : Globals}
      → Run P g g'
      → IsPlaced jhash_3words g.conns
      → IsPlaced jhash_3words g'.conns
  Run-IsPlaced stop v = v
  Run-IsPlaced (received env skb {g} {g'} {r} h rest) v =
      Run-IsPlaced rest (hook-IsPlaced jhash_3words env skb g {r = r} v h)
  Run-IsPlaced (called command {g} p rest) v = Run-IsPlaced rest (ioctl-IsPlaced command g v)

  -- Whatever packets arrive and whatever commands are given, in any order, resets of the statistics
  -- included, there are 1024 chains, and each connection stands in the chain of its hash, none twice.
  pub initial-Run-IsPlaced :
      {P : Command → Type 0} (pool : Pool) {g : Globals}
      → Run P (initial pool) g
      → IsPlaced jhash_3words g.conns
  initial-Run-IsPlaced pool run =
      let v = no_connections-IsValid jhash_3words in
      Run-IsPlaced run (record { width = v.width; placed = v.placed })
