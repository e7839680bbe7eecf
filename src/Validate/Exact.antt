-- ===== src/Validate/Exact.antt =====
-- Which packets and configurations the checks let through.
use nano_net_ull.Base.{ℕ, ◌/◌, ◌%◌, ◌<◌, ◌≡◌, ◌≢◌, ◌↔◌, ◌⊎◌, Bool, true, false, arith, swap16}
use nano_net_ull.Config.{Config}
use nano_net_ull.Errno.{success}
use nano_net_ull.Packet.{IpHdr}
use nano_net_ull.Validate.{validate_packet, validate_config}

-- A packet from a nonzero address whose header states the total length `n` passes the check exactly
-- when the rate limit allows it and `n` is not a multiple of 256 below 5120: the bytes of the length
-- are compared unswapped.
pub validate_packet_iff :
    (allowed : Bool) (ip : IpHdr) (n : ℕ)
    → n < 65536
    → ip.tot_len ≡ swap16 n
    → ip.saddr ≢ 0
    → ((validate_packet allowed ip).0 ≡ success)
      ↔ ((allowed ≡ true) × ¬ ((n % 256 ≡ 0) × (n / 256 < 20)))
unfolding validate_packet
validate_packet_iff true ip n small raw src = ground arith
validate_packet_iff false ip n small raw src = ground arith

-- The configurations that the module can work with.
pub record IsUsable (c : Config) : Type 0 where
  pub target : c.target_ip ≢ 0
  pub target_port : c.target_port ≢ 0
  pub response : c.response_ip ≢ 0
  pub response_port : c.response_port ≢ 0
  pub protocol : (c.protocol ≡ 6) ⊎ (c.protocol ≡ 17)
  pub group : c.multicast ≡ true → c.multicast_group ≢ 0

-- The check of a configuration succeeds exactly on these.
pub validate_config_iff : (c : Config) → ((validate_config c).0 ≡ success) ↔ IsUsable c
unfolding validate_config
validate_config_iff c = ground arith
