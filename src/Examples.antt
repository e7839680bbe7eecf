-- ===== src/Examples.antt =====
-- Packets and settings on which the code runs, and the theorems applied to them.
mod Packets
mod Tables
mod Orders
mod Responses
mod Calls
mod Commands
mod Loads
mod Answers
mod Tools
use nano_net_ull.Base.{ℕ, ◌+◌, ◌*◌, Bool, true, false, none, some, List, [], ◌∷◌, ◌++◌}
use nano_net_ull.Config.{Config}
use nano_net_ull.Packet.{SkBuff}
use nano_net_ull.Text.{codes}

-- 10.0.0.1 and 10.0.38.185, as loaded.
abbrev pub sender : ℕ
sender = 10 + 1 * 16777216

abbrev pub receiver : ℕ
receiver = 10 + 38 * 65536 + 185 * 16777216

-- The ports 40000 and 12345, as loaded.
abbrev pub from_port : ℕ
from_port = 156 + 64 * 256

abbrev pub to_port : ℕ
to_port = 48 + 57 * 256

abbrev pub eth_bytes : List ℕ
eth_bytes = 2 ∷ 0 ∷ 0 ∷ 0 ∷ 0 ∷ 1 ∷ 2 ∷ 0 ∷ 0 ∷ 0 ∷ 0 ∷ 2 ∷ 8 ∷ 0 ∷ []

-- An IP header whose correct checksum happens to be 0.
abbrev pub ip_bytes : List ℕ
ip_bytes =
    69 ∷ 0 ∷ 0 ∷ 52 ∷ 0 ∷ 0 ∷ 64 ∷ 0 ∷ 64 ∷ 17 ∷ 0 ∷ 0 ∷ 10 ∷ 0 ∷ 0 ∷ 1 ∷ 10 ∷ 0 ∷ 38 ∷ 185 ∷ []

abbrev pub udp_bytes : List ℕ
udp_bytes = 156 ∷ 64 ∷ 48 ∷ 57 ∷ 0 ∷ 32 ∷ 0 ∷ 0 ∷ []

-- Market data at a price of 9999 in the order of the machine.
abbrev market_bytes : List ℕ
market_bytes =
    codes "AAPL    " ++ (15 ∷ 39 ∷ 0 ∷ 0 ∷ 100 ∷ 0 ∷ 0 ∷ 0 ∷ 1 ∷ 0 ∷ 0 ∷ 0 ∷ 0 ∷ 0 ∷ 0 ∷ 0 ∷ [])

abbrev pub packet : SkBuff
packet = record { bytes = eth_bytes ++ (ip_bytes ++ (udp_bytes ++ market_bytes)); dev = some 2 }

-- A configuration for this packet.
abbrev pub config : Config
config = record {
  enabled = true;
  target_ip = receiver;
  target_port = to_port;
  protocol = 17;
  response_ip = receiver;
  response_port = to_port;
  seq_num = 0;
  application_logic_type = 0;
  multicast = false;
  multicast_group = 0;
}
