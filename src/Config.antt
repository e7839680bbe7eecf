-- ===== src/Config.antt =====
-- include/nanonet.h: `struct ull_config`, and src/nanonet.c: the initial `global_config`. Addresses
-- and ports are raw, in network order.
use nano_net_ull.Base.{ℕ, Bool, false}
use nano_net_ull.Packet.{ipproto_udp}

pub record Config : Type 0 where
  pub enabled : Bool
  pub target_ip : ℕ
  pub target_port : ℕ
  pub protocol : ℕ
  pub response_ip : ℕ
  pub response_port : ℕ
  pub seq_num : ℕ
  pub application_logic_type : ℕ
  pub multicast : Bool
  pub multicast_group : ℕ

abbrev pub global_config : Config
global_config = record {
  enabled = false;
  target_ip = 0;
  target_port = 0;
  protocol = ipproto_udp;
  response_ip = 0;
  response_port = 0;
  seq_num = 0;
  application_logic_type = 0;
  multicast = false;
  multicast_group = 0;
}
