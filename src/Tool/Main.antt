-- ===== src/Tool/Main.antt =====
-- `main` of tools/nanonet_control.c. What the copies of each system call do is a parameter, and what
-- a complete `NANONET_IOC_GET_CONFIG` leaves in the structure of the tool.
use Prim.Native.String.{String}
use text.Mathlib.Text.{◌==◌ as str_eq}
use nano_net_ull.Base.{ℕ, Bool, Option, none, some, List, [], ◌∷◌, ◌++◌, if◌then◌else◌}
use nano_net_ull.Config.{Config}
use nano_net_ull.Control.{
  UserData, nothing, config_data, stats_data, Controlled, nanonet_open, nanonet_ioctl,
}
use nano_net_ull.Debug.{Message}
use nano_net_ull.Errno.{is_error}
use nano_net_ull.Hook.{Globals}
use nano_net_ull.Layout.{Requests, module_requests, tool_requests}
use nano_net_ull.Stats.{Stats}
use nano_net_ull.Text.{codes}
use nano_net_ull.Tool.{
  ToolConfig, configured, rejected, crashed, config_args, print_counters, print_status,
}

-- The copies of a system call: whether they are complete, and what a copy from the structure of the
-- caller, if it has filled one, leaves in that of the module, whose fields lie elsewhere.
pub record Call : Type 0 where
  pub copied : Bool
  pub left : Option ToolConfig → Config

pub record System : Type 0 where
  pub capable : Bool
  pub call : ℕ → Call
  pub got : ToolConfig
  pub stale : Stats

-- A run that ends: the status, the lines on the output, the texts given to `perror`, and the module.
pub record Outcome : Type 0 where
  pub status : ℕ
  pub lines : List (List ℕ)
  pub errors : List (List ℕ)
  pub globals : Globals
  pub log : List Message

-- `return 1` after `perror`.
abbrev pub failed : List ℕ → Controlled → List Message → Outcome
failed text r log = record {
  status = 1;
  lines = [];
  errors = text ∷ [];
  globals = r.globals;
  log = log ++ r.log;
}

abbrev succeeded : List (List ℕ) → Controlled → List Message → Outcome
succeeded lines r log = record {
  status = 0;
  lines = lines;
  errors = [];
  globals = r.globals;
  log = log ++ r.log;
}

-- `return 1` after `printf`.
abbrev printed : List (List ℕ) → Globals → Outcome
printed lines g = record { status = 1; lines = lines; errors = []; globals = g; log = [] }

-- The `stats` of the caller after a call.
abbrev stats_of : UserData → Stats → Stats
stats_of (stats_data s) stale = s
stats_of nothing stale = stale
stats_of (config_data c) stale = stale

abbrev pub usage : String → List (List ℕ)
usage prog =
    (codes "Usage: " ++ (codes prog ++ codes " <command> [options]"))
    ∷ codes "Commands:"
    ∷ codes "  status                    - Show current status"
    ∷ codes "  enable                    - Enable packet processing"
    ∷ codes "  disable                   - Disable packet processing"
    ∷ codes "  config <ip> <port> <proto> [multicast <group>]"
    ∷ codes "                            - Set target configuration"
    ∷ codes "  stats                     - Show statistics"
    ∷ codes "  reset                     - Reset statistics"
    ∷ codes "  clear-connections         - Clear TCP connections"
    ∷ []
    ∷ codes "Example:"
    ∷ (codes "  " ++ (codes prog ++ codes " config 192.168.1.100 8080 udp multicast 239.1.1.1"))
    ∷ []

module _ (ioc : ℕ → ℕ → ℕ → ℕ → ℕ) (inet_aton : String → Option ℕ) (sys : System) where
  abbrev T : Requests
  T = tool_requests ioc

  -- The system call number `i` of the run, with the configuration behind its argument, if there is one.
  unfoldable pub perform : ℕ → ℕ → Option ToolConfig → Globals → Controlled
  perform i cmd c g =
      nanonet_ioctl (module_requests ioc) cmd (sys.call i).copied ((sys.call i).left c) g

  -- One call, and what is printed after it.
  unfoldable pub simple :
      ℕ → Option ToolConfig → List ℕ → (Controlled → List (List ℕ)) → Globals → Outcome
  simple cmd c text lines g =
      let r = perform 0 cmd c g in
      if is_error r.ret then failed text r [] else succeeded (lines r) r []

  unfoldable pub show_status : Globals → Outcome
  show_status g =
      let r = perform 0 (T.get_config) none g in
      if is_error r.ret
      then failed (codes "Failed to get configuration") r []
      else (let r' = perform 1 (T.get_stats) none r.globals in
          if is_error r'.ret
          then failed (codes "Failed to get statistics") r' r.log
          else succeeded (print_status sys.got (stats_of r'.user sys.stale)) r' r.log)

  -- `enable` and `disable`, which write back the configuration that was read, with the one field set.
  unfoldable pub toggle : ℕ → List ℕ → List ℕ → Globals → Outcome
  toggle value text line g =
      let r = perform 0 (T.get_config) none g in
      if is_error r.ret
      then failed (codes "Failed to get configuration") r []
      else (let r' =
            perform 1 (T.set_config) (some (record sys.got { enabled = value })) r.globals in
          if is_error r'.ret then failed text r' r.log else succeeded (line ∷ []) r' r.log)

  unfoldable pub configure : List String → Globals → Option Outcome
  configure argv g = elim (config_args inet_aton argv) [
    | configured c ↦ some (
        simple (T.set_config) (some c) (codes "Failed to set configuration")
          (λ r. codes "Configuration updated" ∷ []) g)
    | rejected line ↦ some (printed (line ∷ []) g)
    | crashed ↦ none
  ]

  unfoldable pub run_command : List String → String → String → Globals → Option Outcome
  run_command argv prog command g =
      if str_eq command "status"
      then some (show_status g)
      else if str_eq command "enable"
      then some (toggle 1 (codes "Failed to enable module") (codes "Module enabled") g)
      else if str_eq command "disable"
      then some (toggle 0 (codes "Failed to disable module") (codes "Module disabled") g)
      else if str_eq command "config"
      then configure argv g
      else if str_eq command "stats"
      then some (
          simple (T.get_stats) none (codes "Failed to get statistics")
            (λ r. codes "Statistics:" ∷ print_counters (stats_of r.user sys.stale)) g)
      else if str_eq command "reset"
      then some (
          simple (T.reset_stats) none (codes "Failed to reset statistics")
            (λ r. codes "Statistics reset" ∷ []) g)
      else if str_eq command "clear-connections"
      then some (
          simple (T.clear_connections) none (codes "Failed to clear connections")
            (λ r. codes "TCP connections cleared" ∷ []) g)
      else some (printed ((codes "Unknown command: " ++ codes command) ∷ usage prog) g)

  unfoldable pub tool_main : List String → Globals → Option Outcome
  tool_main (prog ∷ command ∷ rest) g =
      if is_error (nanonet_open sys.capable)
      then some (record {
        status = 1;
        lines = [];
        errors = codes "Failed to open device" ∷ [];
        globals = g;
        log = [];
      })
      else run_command (prog ∷ command ∷ rest) prog command g
  tool_main (prog ∷ []) g = some (printed (usage prog) g)
  tool_main [] g = some (printed (usage "") g)
