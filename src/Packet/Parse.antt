-- ===== src/Packet/Parse.antt =====
-- src/micro_stack.c: `ull_parse_packet`.
-- Line 85 reads `udp_hdr->check`, where `udp_hdr` is a pointer to the caller's pointer, which no
-- compiler accepts; the model reads it as `(*udp_hdr)->check`, the only reading that fits the types.
use nano_net_ull.Base.{ℕ, ◌+◌, ◌-◌, ◌*◌, ◌/◌, ◌%◌, Bool, true, not, Option, none, some}
use nano_net_ull.Base.{ltb, ◌==◌, if◌then◌else◌, swap16}
use nano_net_ull.Checksum.{validate_checksum}
use nano_net_ull.Errno.{Code, success, einval, eprotonosupport}
use nano_net_ull.Packet.{
  SkBuff, len, ◌>>=◌, load8, load16, load_udp, region, sizeof_ethhdr, sizeof_iphdr, sizeof_tcphdr,
  sizeof_udphdr, eth_p_ip, ipproto_tcp, ipproto_udp,
}

-- What the out parameters hold on return; `none` is the null pointer.
pub record Parsed : Type 0 where
  pub ip_hdr : Option ℕ
  pub tcp_hdr : Option ℕ
  pub udp_hdr : Option ℕ
  pub payload : Option ℕ
  pub payload_len : ℕ

abbrev pub cleared : Parsed
cleared = record { ip_hdr = none; tcp_hdr = none; udp_hdr = none; payload = none; payload_len = 0 }

abbrev Reply : Type 0
Reply = Option (Code × Parsed)

-- Lines 94 to 102. The difference of the lengths is negative as an `int` where it would wrap.
unfoldable pub set_payload : SkBuff → ℕ → ℕ → Parsed → Reply
set_payload skb ip_hdr_len transport_hdr_len out =
    let headers = sizeof_ethhdr + ip_hdr_len + transport_hdr_len in
    if ltb (len skb) headers
    then some (success, record out { payload = none; payload_len = 0 })
    else some (success, record out { payload = some headers; payload_len = len skb - headers })

-- `case IPPROTO_TCP`
unfoldable pub parse_tcp : SkBuff → ℕ → Parsed → Reply
unfolding load8
parse_tcp skb ip_hdr_len out =
    let transport_hdr = sizeof_ethhdr + ip_hdr_len in
    if ltb (len skb) (sizeof_ethhdr + ip_hdr_len + sizeof_tcphdr)
    then some (einval, out)
    else load8 skb.bytes (transport_hdr + 12) >>= λ offset.
        let out' = record out { tcp_hdr = some transport_hdr } in
        let transport_hdr_len = offset / 16 * 4 in
        if ltb transport_hdr_len sizeof_tcphdr
        then some (einval, out')
        else set_payload skb ip_hdr_len transport_hdr_len out'

-- The check of a UDP datagram against its own checksum field, if that is not 0.
unfoldable pub udp_checksum_ok : SkBuff → ℕ → Option Bool
udp_checksum_ok skb transport_hdr = do
  udp ← load_udp skb.bytes transport_hdr
  if udp.check == 0
      then some true
      else region skb.bytes transport_hdr (swap16 udp.length) >>= λ datagram.
          some (validate_checksum datagram udp.check)

-- `case IPPROTO_UDP`
unfoldable pub parse_udp : SkBuff → ℕ → Parsed → Reply
parse_udp skb ip_hdr_len out =
    let transport_hdr = sizeof_ethhdr + ip_hdr_len in
    if ltb (len skb) (sizeof_ethhdr + ip_hdr_len + sizeof_udphdr)
    then some (einval, out)
    else udp_checksum_ok skb transport_hdr >>= λ good.
        let out' = record out { udp_hdr = some transport_hdr } in
        if good then set_payload skb ip_hdr_len sizeof_udphdr out' else some (einval, out')

-- The `switch` on the protocol.
unfoldable pub parse_transport : SkBuff → ℕ → ℕ → Parsed → Reply
parse_transport skb protocol ip_hdr_len out =
    if protocol == ipproto_tcp
    then parse_tcp skb ip_hdr_len out
    else if protocol == ipproto_udp
    then parse_udp skb ip_hdr_len out
    else some (eprotonosupport, out)

-- Lines 49 to 92, from the pointer to the IP header on.
unfoldable pub parse_ip : SkBuff → Reply
unfolding load8 load16
parse_ip skb = do
  version_ihl ← load8 skb.bytes sizeof_ethhdr
  let out = record cleared { ip_hdr = some sizeof_ethhdr }
  let ip_hdr_len = version_ihl % 16 * 4
  if not (version_ihl / 16 == 4)
      then some (eprotonosupport, out)
      else if ltb ip_hdr_len sizeof_iphdr
      then some (einval, out)
      else region skb.bytes sizeof_ethhdr ip_hdr_len >>= λ header.
          load16 skb.bytes (sizeof_ethhdr + 10) >>= λ check.
          load8 skb.bytes (sizeof_ethhdr + 9) >>= λ protocol.
          if validate_checksum header check
          then parse_transport skb protocol ip_hdr_len out
          else some (einval, out)

unfoldable pub ull_parse_packet : SkBuff → Reply
unfolding load16
ull_parse_packet skb =
    if ltb (len skb) sizeof_ethhdr
    then some (einval, cleared)
    else load16 skb.bytes 12 >>= λ h_proto.
        if not (swap16 h_proto == eth_p_ip)
        then some (eprotonosupport, cleared)
        else if ltb (len skb) (sizeof_ethhdr + sizeof_iphdr)
        then some (einval, cleared)
        else parse_ip skb
