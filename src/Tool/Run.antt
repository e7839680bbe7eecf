-- ===== src/Tool/Run.antt =====
-- What a run of the tool can do to the module.
use Prim.Native.String.{String}
use text.Mathlib.TextEquality.{eq_iff}
use nano_net_ull.Base.{ℕ, ◌≡◌, ◌⊎◌, refl, arith, true, Option, none, some, inl, inr, List, ◌∷◌}
use nano_net_ull.Control.{Controlled, ioctl, nanonet_ioctl}
use nano_net_ull.Control.Decode.{
  decode-set_config, decode-get_config, decode-get_stats, decode-reset_stats,
  decode-clear_connections,
}
use nano_net_ull.Errno.{is_error}
use nano_net_ull.Hook.{Globals}
use nano_net_ull.Layout.{tool_requests}
use nano_net_ull.Layout.Numbers.{IsIoc}
use nano_net_ull.Text.{codes}
use nano_net_ull.Tool.{ToolConfig, Configured, configured, rejected, crashed, config_args}
use nano_net_ull.Tool.Main.{
  System, Outcome, perform, simple, show_status, toggle, configure, run_command, tool_main,
}

-- The configuration and the pool of the module are as they were.
abbrev pub IsSpared : Globals → Globals → Type 0
IsSpared g g' = (g'.config ≡ g.config) × (g'.pool ≡ g.pool)

Configured-cases :
    (r : Configured)
    → ((c : ToolConfig) × (r ≡ configured c))
      ⊎ (((line : List ℕ) × (r ≡ rejected line)) ⊎ (r ≡ crashed))
Configured-cases (configured c) = inl (c, refl)
Configured-cases (rejected line) = inr (inl (line, refl))
Configured-cases crashed = inr (inr refl)

module _ (ioc : ℕ → ℕ → ℕ → ℕ → ℕ) (law : IsIoc ioc) (inet_aton : String → Option ℕ)
    (sys : System) where
  abbrev run : ℕ → ℕ → Option ToolConfig → Globals → Controlled
  run = perform ioc inet_aton sys

  -- A command that the module does not know changes nothing and is an error.
  perform-set_config :
      (i : ℕ) (c : Option ToolConfig) (g : Globals)
      → let r = run i ((tool_requests ioc).set_config) c g in
        (is_error r.ret ≡ true) × (r.globals ≡ g)
  unfolding perform nanonet_ioctl ioctl
  perform-set_config i c g =
      rw (decode-set_config ioc law (sys.call i).copied ((sys.call i).left c)) (refl, refl)

  perform-get_config :
      (i : ℕ) (c : Option ToolConfig) (g : Globals)
      → let r = run i ((tool_requests ioc).get_config) c g in
        (is_error r.ret ≡ true) × (r.globals ≡ g)
  unfolding perform nanonet_ioctl ioctl
  perform-get_config i c g =
      rw (decode-get_config ioc law (sys.call i).copied ((sys.call i).left c)) (refl, refl)

  perform-get_stats :
      (i : ℕ) (c : Option ToolConfig) (g : Globals)
      → (run i ((tool_requests ioc).get_stats) c g).globals ≡ g
  unfolding perform nanonet_ioctl ioctl
  perform-get_stats i c g =
      rw (decode-get_stats ioc law (sys.call i).copied ((sys.call i).left c)) (ground arith)

  perform-reset_stats :
      (i : ℕ) (c : Option ToolConfig) (g : Globals)
      → IsSpared g (run i ((tool_requests ioc).reset_stats) c g).globals
  unfolding perform nanonet_ioctl ioctl
  perform-reset_stats i c g =
      rw (decode-reset_stats ioc law (sys.call i).copied ((sys.call i).left c)) (refl, refl)

  perform-clear_connections :
      (i : ℕ) (c : Option ToolConfig) (g : Globals)
      → IsSpared g (run i ((tool_requests ioc).clear_connections) c g).globals
  unfolding perform nanonet_ioctl ioctl
  perform-clear_connections i c g =
      rw (decode-clear_connections ioc law (sys.call i).copied ((sys.call i).left c)) (refl, refl)

  -- The commands that configure the module fail and leave it as it was.
  abbrev IsRefused : Globals → Outcome → Type 0
  IsRefused g o = (o.status ≡ 1) × (o.globals ≡ g)

  show_status-IsRefused : (g : Globals) → IsRefused g (show_status ioc inet_aton sys g)
  unfolding show_status
  show_status-IsRefused g = ground (arith, perform-get_config 0 none g)

  toggle-IsRefused :
      (value : ℕ) (text line : List ℕ) (g : Globals)
      → IsRefused g (toggle ioc inet_aton sys value text line g)
  unfolding toggle
  toggle-IsRefused value text line g = ground (arith, perform-get_config 0 none g)

  configure-IsRefused :
      (argv : List String) (g : Globals) {o : Outcome}
      → configure ioc inet_aton sys argv g ≡ some o
      → IsRefused g o
  unfolding configure simple
  configure-IsRefused argv g h = elim (Configured-cases (config_args inet_aton argv)) [
    | inl (c, e) ↦ ground (arith, perform-set_config 0 (some c) g)
    | inr (inl (line, e)) ↦ ground arith
    | inr (inr e) ↦ absurd (ground arith)
  ]

  -- The other three, each by one system call.
  abbrev Maintains : String → Type 0
  Maintains command = (command ≡ "stats") ⊎ (command ≡ "reset") ⊎ (command ≡ "clear-connections")

  abbrev IsHarmless : String → Globals → Outcome → Type 0
  IsHarmless command g o = IsRefused g o ⊎ (Maintains command × IsSpared g o.globals)

  run_command-IsHarmless :
      (argv : List String) (prog command : String) (g : Globals) {o : Outcome}
      → run_command ioc inet_aton sys argv prog command g ≡ some o
      → IsHarmless command g o
  unfolding run_command simple
  run_command-IsHarmless argv prog command g {o} h = ground (
    arith,
    eq_iff command "stats",
    eq_iff command "reset",
    eq_iff command "clear-connections",
    show_status-IsRefused g,
    toggle-IsRefused 1 (codes "Failed to enable module") (codes "Module enabled") g,
    toggle-IsRefused 0 (codes "Failed to disable module") (codes "Module disabled") g,
    configure-IsRefused argv g {o = o},
    perform-get_stats 0 none g,
    perform-reset_stats 0 none g,
    perform-clear_connections 0 none g,
  )

  -- A run of the tool on a command that ends either has the status 1 and leaves the module as it was,
  -- or it was `stats`, `reset` or `clear-connections` and leaves the configuration and the buffers of
  -- the module alone. So `status`, `enable`, `disable` and `config` never succeed.
  pub tool_main_spares :
      (prog command : String) (rest : List String) (g : Globals) {o : Outcome}
      → tool_main ioc inet_aton sys (prog ∷ command ∷ rest) g ≡ some o
      → ((o.status ≡ 1) × (o.globals ≡ g)) ⊎ (Maintains command × IsSpared g o.globals)
  unfolding tool_main
  tool_main_spares prog command rest g {o} h =
      ground (arith, run_command-IsHarmless (prog ∷ command ∷ rest) prog command g {o = o})
