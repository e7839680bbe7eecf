-- ===== src/Control.antt =====
-- src/control_interface.c: the character device. What `copy_from_user` leaves in `global_config`, and
-- whether the copies are complete, are parameters.
pub mod Frame
pub mod Reset
pub mod Decode
use nano_net_ull.Base.{ℕ, Bool, Option, none, some, List, [], ◌∷◌, ◌++◌, if◌then◌else◌, ◌==◌}
use nano_net_ull.Config.{Config}
use nano_net_ull.Conn.{clear_tcp_connections}
use nano_net_ull.Debug.{
  Message, ioctl_command, config_refused, copy_in_failed, copy_config_failed, copy_stats_failed,
}
use nano_net_ull.Errno.{Code, is_error, success, efault, enotty}
use nano_net_ull.Hook.{Globals, with_stats}
use nano_net_ull.Layout.{Requests}
use nano_net_ull.Stats.{Stats, zeroed}
use nano_net_ull.Validate.{check_permissions, validate_config}

-- The commands, with what the copies of a call do; `other` is any number that is none of the five.
pub data Command : Type 0 where
  -- whether the copy is complete, and what it leaves in `global_config`
  set_config : Bool → Config → Command
  -- whether the copy is complete
  get_config get_stats : Bool → Command
  reset_stats clear_connections : Command
  other : ℕ → Command

-- What a complete copy has put into the memory of the caller.
pub data UserData : Type 0 where
  nothing : UserData
  config_data : Config → UserData
  stats_data : Stats → UserData

pub record Controlled : Type 0 where
  pub ret : Code
  pub globals : Globals
  pub log : List Message
  pub user : UserData

-- `capable` is the verdict of `capable(CAP_NET_ADMIN)`.
unfoldable pub nanonet_open : Bool → Code
unfolding check_permissions
nanonet_open capable = check_permissions capable

abbrev pub done : Code → Globals → List Message → Controlled
done ret g log = record { ret = ret; globals = g; log = log; user = nothing }

-- `NANONET_IOC_SET_CONFIG` after a complete copy.
unfoldable pub check_config : Globals → Controlled
check_config g =
    let (ret, log) = validate_config g.config in
    if is_error ret then done ret g (log ++ config_refused ret ∷ []) else done ret g log

unfoldable pub ioctl : Command → Globals → Controlled
unfolding check_config
ioctl (set_config copied c) g =
    let g' = record g { config = c } in
    if copied then check_config g' else done efault g' (copy_in_failed ∷ [])
ioctl (get_config copied) g =
    if copied
    then record (done success g []) { user = config_data g.config }
    else done efault g (copy_config_failed ∷ [])
ioctl (get_stats copied) g =
    if copied
    then record (done success g []) { user = stats_data g.conns.stats }
    else done efault g (copy_stats_failed ∷ [])
ioctl reset_stats g = done success (with_stats (λ s. zeroed) g) []
ioctl clear_connections g =
    done success (record g { conns = clear_tcp_connections g.conns.chains g.conns.stats }) []
ioctl (other cmd) g = done enotty g (ioctl_command cmd ∷ [])

-- The `switch` on the number of a command. What the copies do is `copied`, and `c` what the copy from
-- the caller leaves in `global_config`.
pub decode : Requests → ℕ → Bool → Config → Command
decode r cmd copied c =
    if cmd == r.set_config
    then set_config copied c
    else if cmd == r.get_config
    then get_config copied
    else if cmd == r.get_stats
    then get_stats copied
    else if cmd == r.reset_stats
    then reset_stats
    else if cmd == r.clear_connections
    then clear_connections
    else other cmd

unfoldable pub nanonet_ioctl : Requests → ℕ → Bool → Config → Globals → Controlled
nanonet_ioctl r cmd copied c g = ioctl (decode r cmd copied c) g
