-- ===== src/Control/Frame.antt =====
-- What each command changes, and when it succeeds.
use nano_net_ull.Base.{◌≡◌, ◌↔◌, Bool, true, arith}
use nano_net_ull.Config.{Config}
use nano_net_ull.Control.{set_config, check_config, ioctl}
use nano_net_ull.Errno.{success}
use nano_net_ull.Hook.{Globals}
use nano_net_ull.Validate.Exact.{IsUsable, validate_config_iff}

-- A new configuration is installed whether or not it is accepted: the call succeeds exactly where
-- the copy is complete and the configuration usable, and in every case `global_config` is what the
-- copy has left, with the connections, the statistics and the pool unchanged.
pub set_config_installs :
    (copied : Bool) (c : Config) (g : Globals)
    → ((ioctl (set_config copied c) g).globals ≡ record g { config = c })
      × (((ioctl (set_config copied c) g).ret ≡ success) ↔ ((copied ≡ true) × IsUsable c))
unfolding ioctl check_config
set_config_installs copied c g = ground (arith, validate_config_iff c)
