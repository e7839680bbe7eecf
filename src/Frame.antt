-- ===== src/Frame.antt =====
-- src/response_sender.c: the frame that `nanonet_create_response_packet` builds, header by header.
-- `none` is a load outside the original packet.
use nano_net_ull.Base.{
  ℕ, ◌+◌, ◌*◌, ◌/◌, ◌%◌, Bool, true, false, Option, none, some, List, [], ◌∷◌, ◌++◌,
}
use nano_net_ull.Base.{length, ◌==◌, if◌then◌else◌, replicate, swap16, swap32, u16, u32}
use nano_net_ull.Checksum.{compute_checksum}
use nano_net_ull.Config.{Config}
use nano_net_ull.Order.{store16, store32}
use nano_net_ull.Packet.{
  SkBuff, ◌>>=◌, load8, load16, load32, region, sizeof_ethhdr, sizeof_iphdr, sizeof_tcphdr,
  sizeof_udphdr, eth_p_ip, ipproto_tcp,
}

-- What the headers take from the packet that is answered, or from the configuration.
pub record Peer : Type 0 where
  pub h_dest : List ℕ
  pub h_source : List ℕ
  pub daddr : ℕ
  pub port : ℕ
  pub ack_seq : ℕ
  pub ack : Bool

unfoldable pub peer_of : Config → Option SkBuff → Option Peer
unfolding region load8 load16 load32
peer_of c none = some (record {
  h_dest = replicate 6 0;
  h_source = replicate 6 0;
  daddr = c.target_ip;
  port = c.target_port;
  ack_seq = 0;
  ack = false;
})
peer_of c (some orig) = do
  h_source ← region orig.bytes 6 6
  h_dest ← region orig.bytes 0 6
  saddr ← load32 orig.bytes (sizeof_ethhdr + 12)
  version_ihl ← load8 orig.bytes sizeof_ethhdr
  let transport : ℕ = sizeof_ethhdr + version_ihl % 16 * 4
  source ← load16 orig.bytes transport
  seq ← (if c.protocol == ipproto_tcp then load32 orig.bytes (transport + 4) else some 0)
  some (record {
    h_dest = h_source;
    h_source = h_dest;
    daddr = saddr;
    port = source;
    ack_seq = if c.protocol == ipproto_tcp then swap32 (u32 (swap32 seq + 1)) else 0;
    ack = true;
  })

unfoldable pub eth_header : Peer → List ℕ
eth_header peer = peer.h_dest ++ (peer.h_source ++ store16 (swap16 eth_p_ip))

-- The header before its check field, and behind it.
unfoldable pub ip_front : ℕ → ℕ → List ℕ
ip_front total protocol =
    0x45 ∷ 0 ∷ store16 (swap16 (u16 total))
    ++ (0 ∷ 0 ∷ store16 (swap16 0x4000) ++ (64 ∷ protocol % 256 ∷ []))

unfoldable pub ip_back : ℕ → ℕ → List ℕ
ip_back saddr daddr = store32 saddr ++ store32 daddr

-- The header is summed with a check field of 0, and then the sum is stored in it.
unfoldable pub ip_header : ℕ → ℕ → ℕ → ℕ → List ℕ
ip_header total protocol saddr daddr =
    let front = ip_front total protocol in
    let back = ip_back saddr daddr in
    let check = compute_checksum (front ++ 0 ∷ 0 ∷ back) in
    front ++ check % 256 ∷ check / 256 ∷ back

-- `psh` is set, and `ack` where a segment is answered; the checksum stays 0.
unfoldable pub tcp_header : Config → Peer → List ℕ
tcp_header c peer =
    store16 c.response_port
    ++ (store16 peer.port
        ++ (store32 (swap32 c.seq_num)
            ++ (store32 peer.ack_seq
                ++ (0x50 ∷ (if peer.ack then 0x18 else 0x08) ∷ 0xff ∷ 0xff ∷ 0 ∷ 0 ∷ 0 ∷ 0 ∷ []))))

unfoldable pub udp_header : Config → Peer → ℕ → List ℕ
udp_header c peer n =
    store16 c.response_port
    ++ (store16 peer.port ++ (store16 (swap16 (u16 (sizeof_udphdr + n))) ++ (0 ∷ 0 ∷ [])))

-- The frame of a response to `peer` with the payload `body`.
unfoldable pub frame : Config → Peer → List ℕ → List ℕ
frame c peer body =
    if c.protocol == ipproto_tcp
    then eth_header peer
      ++ (ip_header (sizeof_iphdr + sizeof_tcphdr + length body) c.protocol c.response_ip peer.daddr
          ++ (tcp_header c peer ++ body))
    else eth_header peer
      ++ (ip_header (sizeof_iphdr + sizeof_udphdr + length body) c.protocol c.response_ip peer.daddr
          ++ (udp_header c peer (length body) ++ body))
