-- ===== src/Packet/Optimized.antt =====
-- src/optimizations.c: `nanonet_parse_packet_optimized`. The prefetches have no effect on the result.
pub mod Agree
use nano_net_ull.Base.{ℕ, ◌+◌, ◌-◌, ◌*◌, ◌/◌, ◌%◌, not, Option, none, some, List, [], ◌∷◌}
use nano_net_ull.Base.{ltb, ◌==◌, if◌then◌else◌, swap16}
use nano_net_ull.Debug.{
  Message, packet_size, tcp_packet_size, udp_packet_size, ip_header_length, tcp_header_length,
  ether_type, transport_protocol, negative_payload,
}
use nano_net_ull.Errno.{Code, success, einval, eprotonosupport}
use nano_net_ull.Packet.{
  SkBuff, len, ◌>>=◌, load8, load16, sizeof_ethhdr, sizeof_iphdr, sizeof_tcphdr, sizeof_udphdr,
  eth_p_ip, ipproto_tcp, ipproto_udp,
}

-- The out parameters, which the function does not clear on entry.
pub record Found : Type 0 where
  pub ip_hdr : Option ℕ
  pub payload : Option ℕ
  pub payload_len : ℕ

abbrev Outcome : Type 0
Outcome = Option (Code × Found × List Message)

unfoldable pub locate_payload : SkBuff → ℕ → ℕ → Found → Outcome
locate_payload skb ip_hdr_len transport_hdr_len out =
    let headers = sizeof_ethhdr + ip_hdr_len + transport_hdr_len in
    if ltb (len skb) headers
    then some (success, record out { payload = none; payload_len = 0 }, negative_payload ∷ [])
    else some (success, record out { payload = some headers; payload_len = len skb - headers }, [])

unfoldable pub locate_tcp : SkBuff → ℕ → Found → Outcome
unfolding load8
locate_tcp skb ip_hdr_len out =
    if ltb (len skb) (sizeof_ethhdr + ip_hdr_len + sizeof_tcphdr)
    then some (einval, out, tcp_packet_size (len skb) ∷ [])
    else load8 skb.bytes (sizeof_ethhdr + ip_hdr_len + 12) >>= λ offset.
        let transport_hdr_len = offset / 16 * 4 in
        if ltb transport_hdr_len sizeof_tcphdr
        then some (einval, out, tcp_header_length transport_hdr_len ∷ [])
        else locate_payload skb ip_hdr_len transport_hdr_len out

unfoldable pub locate_udp : SkBuff → ℕ → Found → Outcome
locate_udp skb ip_hdr_len out =
    if ltb (len skb) (sizeof_ethhdr + ip_hdr_len + sizeof_udphdr)
    then some (einval, out, udp_packet_size (len skb) ∷ [])
    else locate_payload skb ip_hdr_len sizeof_udphdr out

-- From the test of the protocol on.
unfoldable pub locate_transport : SkBuff → ℕ → ℕ → Found → Outcome
locate_transport skb protocol ip_hdr_len out =
    if protocol == ipproto_tcp
    then locate_tcp skb ip_hdr_len out
    else if protocol == ipproto_udp
    then locate_udp skb ip_hdr_len out
    else some (eprotonosupport, out, transport_protocol protocol ∷ [])

unfoldable pub parse_packet_optimized : SkBuff → Found → Outcome
unfolding load8 load16
parse_packet_optimized skb out =
    if ltb (len skb) (sizeof_ethhdr + sizeof_iphdr)
    then some (einval, out, packet_size (len skb) ∷ [])
    else load16 skb.bytes 12 >>= λ h_proto.
        if not (h_proto == swap16 eth_p_ip)
        then some (eprotonosupport, out, ether_type (swap16 h_proto) ∷ [])
        else load8 skb.bytes sizeof_ethhdr >>= λ version_ihl.
            let out' = record out { ip_hdr = some sizeof_ethhdr } in
            let ip_hdr_len = version_ihl % 16 * 4 in
            if ltb ip_hdr_len sizeof_iphdr
            then some (einval, out', ip_header_length ip_hdr_len ∷ [])
            else load8 skb.bytes (sizeof_ethhdr + 9) >>= λ protocol.
                locate_transport skb protocol ip_hdr_len out'
