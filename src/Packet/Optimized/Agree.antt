-- ===== src/Packet/Optimized/Agree.antt =====
-- The parser without checksums against the one with them.
use nano_net_ull.Base.{
  ℕ, ◌+◌, ◌*◌, ◌/◌, ◌%◌, ◌≡◌, ◌<◌, refl, arith, Option, none, some, List, [], ◌∷◌,
}
use nano_net_ull.Base.{swap16, IsBytes, IsBytes-get_or}
use nano_net_ull.Debug.{Message, negative_payload}
use nano_net_ull.Errno.{success}
use nano_net_ull.Packet.{SkBuff, raw8}
use nano_net_ull.Packet.Parse.{
  Parsed, cleared, set_payload, parse_tcp, parse_udp, parse_transport, parse_ip, ull_parse_packet,
}
use nano_net_ull.Packet.Optimized.{
  Found, locate_payload, locate_tcp, locate_udp, locate_transport, parse_packet_optimized,
}

-- The two hand the same IP header and payload to their callers.
abbrev pub found : Parsed → Found
found out = record { ip_hdr = out.ip_hdr; payload = out.payload; payload_len = out.payload_len }

-- What the fast parser logs on a success.
abbrev pub payload_log : Option ℕ → List Message
payload_log none = negative_payload ∷ []
payload_log (some p) = []

module _ (skb : SkBuff) (o : Parsed) (f : Found) (same : f.ip_hdr ≡ o.ip_hdr) {out : Parsed} where
  locate_payload-found :
      (n t : ℕ)
      → set_payload skb n t o ≡ some (success, out)
      → locate_payload skb n t f ≡ some (success, found out, payload_log out.payload)
  unfolding set_payload locate_payload
  locate_payload-found n t e = ground arith

module _ (skb : SkBuff) (n : ℕ) (o : Parsed) (f : Found) (same : f.ip_hdr ≡ o.ip_hdr)
    {out : Parsed} where
  locate_tcp-found :
      parse_tcp skb n o ≡ some (success, out)
      → locate_tcp skb n f ≡ some (success, found out, payload_log out.payload)
  unfolding parse_tcp locate_tcp
  locate_tcp-found e =
      let o' = record o { tcp_hdr = some (14 + n) } in
      ground (
        arith,
        locate_payload-found skb o' f same {out = out} n (raw8 skb.bytes (14 + n + 12) / 16 * 4),
      )

  locate_udp-found :
      parse_udp skb n o ≡ some (success, out)
      → locate_udp skb n f ≡ some (success, found out, payload_log out.payload)
  unfolding parse_udp locate_udp
  locate_udp-found e =
      let o' = record o { udp_hdr = some (14 + n) } in
      ground (arith, locate_payload-found skb o' f same {out = out} n 8)

  locate_transport-found :
      (protocol : ℕ)
      → parse_transport skb protocol n o ≡ some (success, out)
      → locate_transport skb protocol n f ≡ some (success, found out, payload_log out.payload)
  unfolding parse_transport locate_transport
  locate_transport-found protocol e = ground (arith, locate_tcp-found, locate_udp-found)

-- `ntohs(h_proto) == ETH_P_IP` and `h_proto == htons(ETH_P_IP)`
ether_type_iff : (a b : ℕ) → a < 256 → b < 256 → swap16 (a + b * 256) ≡ 0x0800 → a + b * 256 ≡ 8
ether_type_iff a b p q h = omega arith

-- What the checking parser accepts, the fast one accepts with the same IP header, payload and length,
-- whatever the out parameters held before.
pub parse_packet_optimized-found :
    (skb : SkBuff) (start : Found) {out : Parsed}
    → IsBytes skb.bytes
    → ull_parse_packet skb ≡ some (success, out)
    → parse_packet_optimized skb start ≡ some (success, found out, payload_log out.payload)
unfolding ull_parse_packet parse_ip parse_packet_optimized
parse_packet_optimized-found skb start {out} bytes e =
    let o = record cleared { ip_hdr = some 14 } in
    let f = record start { ip_hdr = some 14 } in
    let n = raw8 skb.bytes 14 % 16 * 4 in
    ground (
      arith,
      ether_type_iff (raw8 skb.bytes 12) (raw8 skb.bytes 13),
      IsBytes-get_or skb.bytes 12,
      IsBytes-get_or skb.bytes 13,
      locate_transport-found skb n o f refl {out = out} (raw8 skb.bytes 23),
    )
