-- ===== src/Tool.antt =====
-- tools/nanonet_control.c: the command line tool. Its system calls run the module: `nanonet_open` and
-- `nanonet_ioctl` of src/control_interface.c. `inet_aton` is the C library's, a parameter.
pub mod Args
pub mod Main
pub mod Run
use Prim.Native.String.{String}
use text.Mathlib.Text.{◌==◌ as str_eq}
use nano_net_ull.Base.{
  ℕ, ◌+◌, ◌-◌, ◌*◌, ◌%◌, ◌^◌, zero, suc, Bool, true, false, not, ◌&&◌, ◌||◌, Option, none, some,
  List, [], ◌∷◌, ◌++◌,
}
use nano_net_ull.Base.{length, ltb, leb, ◌==◌, if◌then◌else◌, swap16, u16}
use nano_net_ull.Stats.{Stats}
use nano_net_ull.Text.{codes, decimal, signed, dotted}

-- `struct ull_config` of the tool.
pub record ToolConfig : Type 0 where
  pub enabled : ℕ
  pub target_ip : ℕ
  pub target_port : ℕ
  pub protocol : ℕ
  pub response_ip : ℕ
  pub response_port : ℕ
  pub application_logic_type : ℕ
  pub multicast : ℕ
  pub multicast_group : ℕ

-- `argv[i]`, where the null pointer behind the last argument is `none`.
abbrev pub arg : List String → ℕ → Option String
arg [] i = none
arg (a ∷ argv) zero = some a
arg (a ∷ argv) (suc i) = arg argv i

abbrev is_space : ℕ → Bool
is_space c = c == b' ' || (leb 9 c && leb c 13)

-- The number at the start of a text.
abbrev digits : ℕ → List ℕ → ℕ
digits n [] = n
digits n (c ∷ text) =
    let rest = digits (n * 10 + (c - b'0')) text in if leb b'0' c && leb c b'9' then rest else n

abbrev signed_digits : List ℕ → ℕ
signed_digits [] = 0
signed_digits (c ∷ text) =
    if c == b'-'
    then (2 ^ 16 - u16 (digits 0 text)) % 2 ^ 16
    else if c == b'+'
    then u16 (digits 0 text)
    else u16 (digits 0 (c ∷ text))

abbrev atoi16 : List ℕ → ℕ
atoi16 [] = 0
atoi16 (c ∷ text) = let rest = atoi16 text in if is_space c then rest else signed_digits (c ∷ text)

-- `htons(atoi(text))`, for a number that an `int` holds.
unfoldable pub port_of : String → ℕ
port_of text = swap16 (atoi16 (codes text))

-- The result of the lines 143 to 176: a configuration, a message, or the crash of `inet_aton` on a
-- null pointer.
pub data Configured : Type 0 where
  configured : ToolConfig → Configured
  rejected : List ℕ → Configured
  crashed : Configured

abbrev config_usage : String → List ℕ
config_usage prog =
    codes "Usage: " ++ (codes prog ++ codes " config <ip> <port> <proto> [multicast <group>]")

-- `config`, after `memset`.
abbrev pub base_config : ℕ → ℕ → ℕ → ToolConfig
base_config ip port protocol = record {
  enabled = 0;
  target_ip = ip;
  target_port = port;
  protocol = protocol;
  response_ip = ip;
  response_port = swap16 9999;
  application_logic_type = 0;
  multicast = 0;
  multicast_group = 0;
}

module _ (inet_aton : String → Option ℕ) where
  -- Lines 169 to 176.
  pub config_multicast : List String → String → ToolConfig → Configured
  config_multicast argv proto c =
      if length argv == 6
        && (str_eq proto "udp"
            && elim (arg argv 5) [ none ↦ false | some a ↦ str_eq a "multicast" ])
      then elim (arg argv 6) [
        | none ↦ crashed
        | some group ↦ elim (inet_aton group) [
          | none ↦ rejected (codes "Invalid multicast group: " ++ codes group)
          | some a ↦ configured (record c { multicast = 1; multicast_group = a })
        ]
      ]
      else configured c

  -- Lines 149 to 167.
  pub config_target : List String → String → String → String → Configured
  unfolding config_multicast
  config_target argv ip port proto = elim (inet_aton ip) [
    | none ↦ rejected (codes "Invalid IP address: " ++ codes ip)
    | some a ↦
        if str_eq proto "tcp"
        then config_multicast argv proto (base_config a (port_of port) 6)
        else if str_eq proto "udp"
        then config_multicast argv proto (base_config a (port_of port) 17)
        else rejected (codes "Invalid protocol: " ++ (codes proto ++ codes " (use 'tcp' or 'udp')"))
  ]

  unfoldable pub config_args : List String → Configured
  unfolding config_target
  config_args (prog ∷ command ∷ ip ∷ port ∷ proto ∷ rest) =
      let argv = prog ∷ command ∷ ip ∷ port ∷ proto ∷ rest in
      if str_eq proto "multicast" && not (length argv == 6)
      then rejected (config_usage prog)
      else config_target argv ip port proto
  config_args (prog ∷ rest) = rejected (config_usage prog)
  config_args [] = rejected []

-- The nine lines of the statistics; the counters are `long long`.
unfoldable pub print_counters : Stats → List (List ℕ)
print_counters s =
    (codes "Packets Processed: " ++ signed s.packets_processed)
    ∷ (codes "Packets Bypassed: " ++ signed s.packets_bypassed)
    ∷ (codes "Responses Sent: " ++ signed s.responses_sent)
    ∷ (codes "Errors: " ++ signed s.errors)
    ∷ (codes "Active Connections: " ++ signed s.connections_active)
    ∷ (codes "Dropped Connections: " ++ signed s.connections_dropped)
    ∷ (codes "Min Process Time: " ++ (decimal s.min_process_time_ns ++ codes " ns"))
    ∷ (codes "Max Process Time: " ++ (decimal s.max_process_time_ns ++ codes " ns"))
    ∷ (codes "Avg Process Time: " ++ (decimal s.avg_process_time_ns ++ codes " ns"))
    ∷ []

unfoldable pub print_status : ToolConfig → Stats → List (List ℕ)
unfolding print_counters
print_status c s =
    codes "NanoNet Module Status:"
    ∷ (codes "Enabled: " ++ (if c.enabled == 0 then codes "No" else codes "Yes"))
    ∷ (codes "Target IP: " ++ dotted c.target_ip)
    ∷ (codes "Target Port: " ++ decimal (swap16 c.target_port))
    ∷ (codes "Protocol: " ++ (if c.protocol == 6 then codes "TCP" else codes "UDP"))
    ∷ (codes "Multicast: " ++ (if c.multicast == 0 then codes "No" else codes "Yes"))
    ∷ ((if c.multicast == 0
          then []
          else (codes "Multicast Group: " ++ dotted c.multicast_group) ∷ [])
        ++ ([] ∷ codes "Statistics:" ∷ print_counters s))
