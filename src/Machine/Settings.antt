-- ===== src/Machine/Settings.antt =====
-- What traffic can change of the configuration.
use nano_net_ull.Base.{ℕ, ◌≢◌, ◌∙◌, refl, ap, Bool, true, false}
use nano_net_ull.Config.{Config}
use nano_net_ull.Control.{
  Command, set_config, get_config, get_stats, reset_stats, clear_connections, other, ioctl,
}
use nano_net_ull.Hook.{Globals}
use nano_net_ull.Hook.Only.{hook-IsSettled}
use nano_net_ull.Logic.Bidding.{IsSettled}
use nano_net_ull.Machine.{Run, stop, received, called}

IsSettled-trans : (c c' c'' : Config) → IsSettled c c' → IsSettled c' c'' → IsSettled c c''
IsSettled-trans c c' c'' h h' = h' ∙ ap (λ (x : Config). record x { seq_num = c''.seq_num }) h

-- Every command but `NANONET_IOC_SET_CONFIG`.
abbrev pub IsOther : Command → Type 0
IsOther command = (copied : Bool) (c : Config) → command ≢ set_config copied c

ioctl-IsSettled :
    (command : Command) (g : Globals)
    → IsOther command
    → IsSettled g.config (ioctl command g).globals.config
unfolding ioctl
ioctl-IsSettled (set_config copied c) g ne = absurd (ne copied c refl)
ioctl-IsSettled (get_config true) g ne = refl
ioctl-IsSettled (get_config false) g ne = refl
ioctl-IsSettled (get_stats true) g ne = refl
ioctl-IsSettled (get_stats false) g ne = refl
ioctl-IsSettled reset_stats g ne = refl
ioctl-IsSettled clear_connections g ne = refl
ioctl-IsSettled (other cmd) g ne = refl

module _ (jhash_3words : ℕ → ℕ → ℕ → ℕ → ℕ) where
  -- Whatever packets arrive, and whatever commands but `NANONET_IOC_SET_CONFIG` are given, in any
  -- order, the configuration stays as it was, but for its sequence number.
  pub Run-IsSettled :
      {g g' : Globals} → Run jhash_3words IsOther g g' → IsSettled g.config g'.config
  Run-IsSettled stop = refl
  Run-IsSettled (received env skb {g} {g'} {r} h rest) =
      IsSettled-trans g.config r.globals.config g'.config
        (hook-IsSettled jhash_3words env skb g {r = r} h) (Run-IsSettled rest)
  Run-IsSettled (called command {g} {g'} ne rest) =
      IsSettled-trans g.config (ioctl command g).globals.config g'.config
        (ioctl-IsSettled command g ne) (Run-IsSettled rest)
