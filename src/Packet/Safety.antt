-- ===== src/Packet/Safety.antt =====
-- Which loads of `ull_parse_packet` stay inside the packet, and what it has located on success.
use nano_net_ull.Base.{
  ℕ, ◌+◌, ◌*◌, ◌/◌, ◌%◌, ◌≤◌, ◌<◌, ◌≡◌, refl, ◌∙◌, ◌≢◌, ◌⊎◌, inl, inr, arith, none, some,
}
use nano_net_ull.Base.{ltb, swap16, Bool-cases, some_of_ne_none}
use nano_net_ull.Errno.{Code, success}
use nano_net_ull.Packet.{SkBuff, len, raw8, raw16, load_udp, region, sizeof_tcphdr, sizeof_udphdr}
use nano_net_ull.Packet.Parse.{
  Parsed, cleared, set_payload, parse_tcp, udp_checksum_ok, parse_udp, parse_transport, parse_ip,
  ull_parse_packet,
}

-- The payload is empty and its pointer may be null, or it is a part of the packet up to its end.
abbrev PayloadInside : SkBuff → Parsed → Type 0
PayloadInside skb out =
    ((out.payload ≡ none) × (out.payload_len ≡ 0))
    ⊎ ((p : ℕ) × (out.payload ≡ some p) × (p + out.payload_len ≡ len skb))

-- A transport header of one of the two protocols, its fixed part inside the packet, and no other.
abbrev OneTransport : SkBuff → Parsed → Type 0
OneTransport skb out =
    ((t : ℕ) × (out.tcp_hdr ≡ some t) × (out.udp_hdr ≡ none) × (t + sizeof_tcphdr ≤ len skb))
    ⊎ ((t : ℕ) × (out.udp_hdr ≡ some t) × (out.tcp_hdr ≡ none) × (t + sizeof_udphdr ≤ len skb))

pub record IsLocated (skb : SkBuff) (out : Parsed) : Type 0 where
  pub ip : out.ip_hdr ≡ some 14
  pub ip_inside : 34 ≤ len skb
  pub transport : OneTransport skb out
  pub payload : PayloadInside skb out

set_payload-inside :
    (skb : SkBuff) (n t : ℕ) (out : Parsed) {out' : Parsed}
    → set_payload skb n t out ≡ some (success, out')
    → PayloadInside skb out'
      × (out'.ip_hdr ≡ out.ip_hdr)
      × (out'.tcp_hdr ≡ out.tcp_hdr)
      × (out'.udp_hdr ≡ out.udp_hdr)
unfolding set_payload
set_payload-inside skb n t out e = ground arith

module _ (skb : SkBuff) (n : ℕ) (out : Parsed) {out' : Parsed} (start : out.ip_hdr ≡ some 14)
    (no_tcp : out.tcp_hdr ≡ none) (no_udp : out.udp_hdr ≡ none) (enough : 34 ≤ len skb) where
  -- A success of the last step, after a transport header has been found.
  set_payload-IsLocated :
      (out₁ : Parsed)
      → (t : ℕ) → out₁.ip_hdr ≡ some 14
      → OneTransport skb out₁
      → set_payload skb n t out₁ ≡ some (success, out')
      → IsLocated skb out'
  set_payload-IsLocated out₁ t ip one e =
      let (inside, ip', tcp', udp') = set_payload-inside skb n t out₁ e in
      record {
        ip = ip' ∙ ip;
        ip_inside = enough;
        transport = rw (tcp', udp') one;
        payload = inside;
      }

  parse_tcp-IsLocated : parse_tcp skb n out ≡ some (success, out') → IsLocated skb out'
  unfolding parse_tcp
  parse_tcp-IsLocated e =
      let out₁ = record out { tcp_hdr = some (14 + n) } in
      elim (Bool-cases (ltb (len skb) (14 + n + 20))) [
        | inl short ↦ cc
        | inr fits ↦
            set_payload-IsLocated out₁ (raw8 skb.bytes (14 + n + 12) / 16 * 4) start
              (inl (14 + n, refl, no_udp, ground arith)) (ground arith)
      ]

  parse_udp-IsLocated : parse_udp skb n out ≡ some (success, out') → IsLocated skb out'
  unfolding parse_udp
  parse_udp-IsLocated e =
      let out₁ = record out { udp_hdr = some (14 + n) } in
      elim (Bool-cases (ltb (len skb) (14 + n + 8))) [
        | inl short ↦ ground arith
        | inr fits ↦
            set_payload-IsLocated out₁ 8 start (inr (14 + n, refl, no_tcp, ground arith))
              (ground arith)
      ]

  parse_transport-IsLocated :
      (protocol : ℕ)
      → parse_transport skb protocol n out ≡ some (success, out')
      → IsLocated skb out'
  unfolding parse_transport
  parse_transport-IsLocated protocol e = ground (arith, parse_tcp-IsLocated, parse_udp-IsLocated)

parse_ip-IsLocated :
    (skb : SkBuff) {out : Parsed}
    → 34 ≤ len skb
    → parse_ip skb ≡ some (success, out)
    → IsLocated skb out
unfolding parse_ip
parse_ip-IsLocated skb {out} enough e =
    let start = record cleared { ip_hdr = some 14 } in
    let n = raw8 skb.bytes 14 % 16 * 4 in
    ground (
      arith,
      parse_transport-IsLocated skb n start {out' = out} refl refl refl enough (raw8 skb.bytes 23),
    )

-- A successful parse has found the IP header at offset 14 in a packet of at least 34 bytes, exactly
-- one transport header, whose fixed part (20 bytes of TCP or 8 of UDP) lies inside the packet, and a
-- payload that ends where the packet ends, or an empty one.
pub ull_parse_packet-IsLocated :
    (skb : SkBuff) {out : Parsed} → ull_parse_packet skb ≡ some (success, out) → IsLocated skb out
unfolding ull_parse_packet
ull_parse_packet-IsLocated skb {out} e = ground (arith, parse_ip-IsLocated skb {out = out})

abbrev pub header_len : SkBuff → ℕ
header_len skb = raw8 skb.bytes 14 % 16 * 4

abbrev pub udp_offset : SkBuff → ℕ
udp_offset skb = 14 + header_len skb

-- The datagram length that a UDP header states stays inside the packet.
abbrev pub DatagramFits : SkBuff → Type 0
DatagramFits skb = udp_offset skb + swap16 (raw16 skb.bytes (udp_offset skb + 4)) ≤ len skb

set_payload_ne : (skb : SkBuff) (n t : ℕ) (out : Parsed) → set_payload skb n t out ≢ none
unfolding set_payload
set_payload_ne skb n t out = ground arith

parse_tcp_ne : (skb : SkBuff) (n : ℕ) (out : Parsed) → parse_tcp skb n out ≢ none
unfolding parse_tcp
parse_tcp_ne skb n out = grind (arith, set_payload_ne)

udp_checksum_ok_ne :
    (skb : SkBuff) (t : ℕ)
    → t + 8 ≤ len skb
    → t + swap16 (raw16 skb.bytes (t + 4)) ≤ len skb
    → udp_checksum_ok skb t ≢ none
unfolding udp_checksum_ok load_udp region
udp_checksum_ok_ne skb t h fits = ground arith

parse_udp_ne :
    (skb : SkBuff) (n : ℕ) (out : Parsed)
    → 14 + n + swap16 (raw16 skb.bytes (14 + n + 4)) ≤ len skb
    → parse_udp skb n out ≢ none
unfolding parse_udp
parse_udp_ne skb n out fits = grind (arith, set_payload_ne, udp_checksum_ok_ne skb (14 + n))

parse_transport_ne :
    (skb : SkBuff) (protocol n : ℕ) (out : Parsed)
    → (protocol ≡ 17 → 14 + n + swap16 (raw16 skb.bytes (14 + n + 4)) ≤ len skb)
    → parse_transport skb protocol n out ≢ none
unfolding parse_transport
parse_transport_ne skb protocol n out fits =
    ground (arith, parse_tcp_ne skb n out, parse_udp_ne skb n out)

parse_ip_ne :
    (skb : SkBuff)
    → 34 ≤ len skb
    → udp_offset skb ≤ len skb
    → (raw8 skb.bytes 23 ≡ 17 → DatagramFits skb)
    → parse_ip skb ≢ none
unfolding parse_ip region
parse_ip_ne skb a b c =
    let start = record cleared { ip_hdr = some 14 } in
    ground (arith, parse_transport_ne skb (raw8 skb.bytes 23) (header_len skb) start)

-- Where the IP header lies inside the packet, and the length that a UDP header states does too, no
-- load of the parser leaves the packet: it returns a code.
pub ull_parse_packet_total :
    (skb : SkBuff)
    → udp_offset skb ≤ len skb
    → (raw8 skb.bytes 23 ≡ 17 → DatagramFits skb)
    → (r : Code × Parsed) × (ull_parse_packet skb ≡ some r)
unfolding ull_parse_packet
ull_parse_packet_total skb a b = some_of_ne_none _ (λ e. ground (arith, parse_ip_ne skb))

parse_ip_fault :
    (skb : SkBuff)
    → 34 ≤ len skb
    → raw8 skb.bytes 14 / 16 ≡ 4
    → 20 ≤ header_len skb
    → len skb < 14 + header_len skb
    → parse_ip skb ≡ none
unfolding parse_ip region
parse_ip_fault skb a b c d = ground arith

-- An IPv4 packet of at least 34 bytes whose IP header length runs past its end is not refused: its
-- header checksum is computed over bytes behind the packet.
pub ull_parse_packet_overread :
    (skb : SkBuff)
    → 34 ≤ len skb
    → swap16 (raw16 skb.bytes 12) ≡ 0x0800
    → raw8 skb.bytes 14 / 16 ≡ 4
    → 20 ≤ header_len skb
    → len skb < 14 + header_len skb
    → ull_parse_packet skb ≡ none
unfolding ull_parse_packet
ull_parse_packet_overread skb a ip b c d = ground (arith, parse_ip_fault skb)
