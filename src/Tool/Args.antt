-- ===== src/Tool/Args.antt =====
-- Which configurations the command line of the tool can ask for.
use Prim.Native.String.{String}
use nano_net_ull.Base.{
  ℕ, ◌≡◌, ◌⊎◌, inl, inr, refl, arith, Option, none, some, List, [], ◌∷◌, Option-cases, length,
}
use nano_net_ull.Tool.{
  ToolConfig, arg, port_of, configured, crashed, base_config, config_multicast, config_target,
  config_args,
}

-- A disabled configuration without multicast, which answers from the address that it serves.
pub record IsUnicast (c : ToolConfig) : Type 0 where
  pub disabled : c.enabled ≡ 0
  pub answers : c.response_ip ≡ c.target_ip
  pub protocol : (c.protocol ≡ 6) ⊎ (c.protocol ≡ 17)
  pub single : c.multicast ≡ 0
  pub no_group : c.multicast_group ≡ 0

pub arg-length : (argv : List String) → arg argv (length argv) ≡ none
arg-length [] = refl
arg-length (a ∷ argv) = arg-length argv

module _ (inet_aton : String → Option ℕ) where
  -- The group is read from behind the last argument, so that it is never there.
  config_multicast-kept :
      (argv : List String) (proto : String) (c : ToolConfig) {c' : ToolConfig}
      → config_multicast inet_aton argv proto c ≡ configured c'
      → c' ≡ c
  unfolding config_multicast
  config_multicast-kept argv proto c h = ground (arith, arg-length argv)

  config_target-IsUnicast :
      (argv : List String) (ip port proto : String) {c : ToolConfig}
      → config_target inet_aton argv ip port proto ≡ configured c
      → IsUnicast c
  unfolding config_target
  config_target-IsUnicast argv ip port proto {c} h = elim (Option-cases (inet_aton ip)) [
    | inl e ↦ ground arith
    | inr (a, e) ↦ ground (
      arith,
      config_multicast-kept argv proto (base_config a (port_of port) 6) {c' = c},
      config_multicast-kept argv proto (base_config a (port_of port) 17) {c' = c},
    )
  ]

  -- Whatever the arguments of `config` are, a configuration that they give is disabled, has no
  -- multicast group, answers from the target address, and is for TCP or UDP.
  pub config_args-IsUnicast :
      (argv : List String) {c : ToolConfig}
      → config_args inet_aton argv ≡ configured c
      → IsUnicast c
  unfolding config_args
  config_args-IsUnicast [] h = ground arith
  config_args-IsUnicast (a ∷ []) h = ground arith
  config_args-IsUnicast (a ∷ b ∷ []) h = ground arith
  config_args-IsUnicast (a ∷ b ∷ c ∷ []) h = ground arith
  config_args-IsUnicast (a ∷ b ∷ c ∷ d ∷ []) h = ground arith
  config_args-IsUnicast (prog ∷ command ∷ ip ∷ port ∷ proto ∷ rest) {c} h = ground (
    arith,
    config_target-IsUnicast (prog ∷ command ∷ ip ∷ port ∷ proto ∷ rest) ip port proto {c = c},
  )

  -- The documented command line for a multicast group, with a valid address, gives the configuration
  -- without the group; without its last argument it crashes.
  pub config_args_multicast :
      (prog command ip port group : String) {a : ℕ}
      → inet_aton ip ≡ some a
      → (config_args inet_aton (prog ∷ command ∷ ip ∷ port ∷ "udp" ∷ "multicast" ∷ group ∷ [])
          ≡ configured (base_config a (port_of port) 17))
        × (config_args inet_aton (prog ∷ command ∷ ip ∷ port ∷ "udp" ∷ "multicast" ∷ []) ≡ crashed)
  unfolding config_args
  config_args_multicast prog command ip port group e =
      (rw (e, config_target) refl, rw (e, config_target) refl)
