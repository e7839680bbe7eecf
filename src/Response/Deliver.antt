-- ===== src/Response/Deliver.antt =====
-- What the receiver of a response reads in it.
use nano_net_ull.Base.{ℕ, ◌+◌, ◌^◌, ◌<◌, ◌≡◌, ◌⊎◌, List}
use nano_net_ull.Base.{length, drop, ◌==◌, if◌then◌else◌}
use nano_net_ull.Config.{Config}
use nano_net_ull.Frame.{Peer, frame}
use nano_net_ull.Packet.{raw16, raw32}
use nano_net_ull.Pool.{Pool}

module _ (c : Config) (peer : Peer) (body : List ℕ)
    (macs : (length peer.h_dest ≡ 6) × (length peer.h_source ≡ 6))
    (known : (c.protocol ≡ 6) ⊎ (c.protocol ≡ 17)) where
  abbrev bytes : List ℕ
  bytes = frame c peer body

-- The fields of a configuration have the width of their types.
pub record IsTyped (c : Config) : Type 0 where
  pub response_ip : c.response_ip < 2 ^ 32
  pub target_ip : c.target_ip < 2 ^ 32
  pub response_port : c.response_port < 2 ^ 16
  pub target_port : c.target_port < 2 ^ 16

-- The addresses and ports of a frame, at the offsets of an IP header without options, and behind the
-- headers the payload.
pub record IsAddressed (c : Config) (body f : List ℕ) : Type 0 where
  pub saddr : raw32 f 26 ≡ c.response_ip
  pub daddr : raw32 f 30 ≡ c.target_ip
  pub source : raw16 f 34 ≡ c.response_port
  pub dest : raw16 f 36 ≡ c.target_port
  pub payload : drop (34 + (if c.protocol == 6 then 20 else 8)) f ≡ body
