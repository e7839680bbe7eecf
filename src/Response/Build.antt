-- ===== src/Response/Build.antt =====
-- The frames that are built, as the parsers read them.
use nano_net_ull.Base.{
  ℕ, ◌+◌, ◌^◌, ◌<◌, ◌≡◌, ◌≢◌, ◌⊎◌, inl, inr, refl, ap, ◌∙◌, none, some, List, [], ◌∷◌, ◌++◌, arith,
}
use mathlib.Core.List.{append_assoc}
use nano_net_ull.Base.{
  length, length-append, get_or, get_or-append_right, get_or-append_left, true, drop,
  drop-append_self, IsBytes, ◌==◌, if◌then◌else◌, Bool-cases,
}
use nano_net_ull.Checksum.{compute_checksum}
use nano_net_ull.Checksum.Sum.{IsEven}
use nano_net_ull.Checksum.Verify.{with_check, compute_checksum-own}
use nano_net_ull.Config.{Config}
use nano_net_ull.Errno.{success, einval}
use nano_net_ull.Packet.{SkBuff, raw8}
use nano_net_ull.Packet.Checked.{ull_parse_packet-rejects}
use nano_net_ull.Packet.Parse.{cleared, ull_parse_packet}
use nano_net_ull.Packet.Optimized.{
  Found, locate_payload, locate_tcp, locate_udp, locate_transport, parse_packet_optimized,
}
use nano_net_ull.Frame.{
  Peer, eth_header, ip_front, ip_back, ip_header, tcp_header, udp_header, frame,
}

-- The IP header of every response carries a correct checksum: it sums to 0.
ip_header-checked :
    (total protocol saddr daddr : ℕ) → compute_checksum (ip_header total protocol saddr daddr) ≡ 0
unfolding ip_header
ip_header-checked total protocol saddr daddr =
    compute_checksum-own (ip_front total protocol) (ip_back saddr daddr) even bytes short
  where
    even : IsEven (ip_front total protocol)
    even = unfold ip_front in refl

    bytes : IsBytes (ip_front total protocol) × IsBytes (ip_back saddr daddr)
    bytes = unfold ip_front ip_back in omega arith

    short : length (ip_front total protocol) + 2 + length (ip_back saddr daddr) < 2 ^ 16
    short = unfold ip_front ip_back in omega arith

-- The transport header of the protocol.
abbrev pub transport : Config → Peer → List ℕ → List ℕ
transport c peer body =
    if c.protocol == 6 then tcp_header c peer else udp_header c peer (length body)

abbrev transport_len : Config → ℕ
transport_len c = if c.protocol == 6 then 20 else 8

module _ (c : Config) (peer : Peer) (body : List ℕ)
    (macs : (length peer.h_dest ≡ 6) × (length peer.h_source ≡ 6))
    (known : (c.protocol ≡ 6) ⊎ (c.protocol ≡ 17)) where
  abbrev skb : SkBuff
  skb = record { bytes = frame c peer body; dev = none }

  abbrev ip : List ℕ
  ip = ip_header (20 + transport_len c + length body) c.protocol c.response_ip peer.daddr

  frame_parts : frame c peer body ≡ eth_header peer ++ (ip ++ (transport c peer body ++ body))
  unfolding frame
  frame_parts = elim (Bool-cases (c.protocol == 6)) [ inl e ↦ rw e | inr e ↦ rw e ]

  length-eth : length (eth_header peer) ≡ 14
  unfolding eth_header
  length-eth = omega (
    arith,
    length-append peer.h_dest (peer.h_source ++ 8 ∷ 0 ∷ []),
    length-append peer.h_source (8 ∷ 0 ∷ []),
  )

  pub length-ip : length ip ≡ 20
  unfolding ip_header ip_front ip_back
  length-ip = refl

  length-transport : length (transport c peer body) ≡ transport_len c
  unfolding tcp_header udp_header
  length-transport = ground arith

  pub length-frame : length (frame c peer body) ≡ 34 + transport_len c + length body
  length-frame = rw frame_parts (
      omega (
        arith,
        length-append (eth_header peer) (ip ++ (transport c peer body ++ body)),
        length-append ip (transport c peer body ++ body),
        length-append (transport c peer body) body,
        length-eth,
        length-ip,
        length-transport,
      ))

  abbrev after_eth : List ℕ
  after_eth = ip ++ (transport c peer body ++ body)

  eth_byte :
      (i j : ℕ)
      → i ≡ 12 + j
      → j < 2
      → get_or (frame c peer body) i 0 ≡ get_or {A = ℕ} (8 ∷ 0 ∷ []) j 0
  eth_byte i j e h =
      let tail : List ℕ = 8 ∷ 0 ∷ [] in
      ap (λ (l : List ℕ). get_or l i 0) frame_parts
      ∙ get_or-append_left (eth_header peer) after_eth i 0 (omega (arith, length-eth))
      ∙ (unfold eth_header in
          get_or-append_right peer.h_dest (peer.h_source ++ tail) i (6 + j) 0 (omega arith)
          ∙ get_or-append_right peer.h_source tail (6 + j) j 0 (omega arith))

  pub ip_byte : (i j : ℕ) → i ≡ 14 + j → get_or (frame c peer body) i 0 ≡ get_or after_eth j 0
  ip_byte i j e =
      ap (λ (l : List ℕ). get_or l i 0) frame_parts
      ∙ get_or-append_right (eth_header peer) after_eth i j 0 (omega (arith, length-eth))

  version_byte : raw8 (frame c peer body) 14 ≡ 0x45
  version_byte = ip_byte 14 0 (omega arith) ∙ (unfold ip_header ip_front in refl)

  protocol_byte : raw8 (frame c peer body) 23 ≡ c.protocol
  protocol_byte = ip_byte 23 9 (omega arith) ∙ (unfold ip_header ip_front in omega arith)

  offset_byte : c.protocol ≡ 6 → raw8 (frame c peer body) 46 ≡ 0x50
  unfolding tcp_header
  offset_byte e =
      let tcp : (c.protocol == 6) ≡ true = ground arith in
      ip_byte 46 32 (omega arith)
      ∙ get_or-append_right ip (transport c peer body ++ body) 32 12 0 (omega (arith, length-ip))
      ∙ rw tcp

  pub drop_headers : drop (34 + transport_len c) (frame c peer body) ≡ body
  drop_headers =
      let front = eth_header peer ++ (ip ++ transport c peer body) in
      let regroup : frame c peer body ≡ front ++ body = frame_parts ∙ simp append_assoc in
      let size : length front ≡ 34 + transport_len c = omega (
        arith,
        length-append (eth_header peer) (ip ++ transport c peer body),
        length-append ip (transport c peer body),
        length-eth,
        length-ip,
        length-transport,
      ) in
      rw regroup (drop-append_self (34 + transport_len c) front body size)

  -- The fast parser takes the frame of a response apart again: it finds the IP header and, behind the
  -- transport header, a payload of the length of the body, which is the body.
  pub parse-frame :
      (start : Found)
      → (parse_packet_optimized skb start
          ≡ some (
            success,
            record {
              ip_hdr = some 14;
              payload = some (34 + transport_len c);
              payload_len = length body;
            },
            [],
          ))
        × (drop (34 + transport_len c) (frame c peer body) ≡ body)
  unfolding parse_packet_optimized locate_transport locate_tcp locate_udp locate_payload
  parse-frame start = (
    ground (
      arith,
      length-frame,
      eth_byte 12 0,
      eth_byte 13 1,
      version_byte,
      protocol_byte,
      offset_byte,
    ),
    drop_headers,
  )

  -- The parser with checksums refuses the same frame, unless its header checksum is 0.
  pub ull_parse_packet-frame :
      compute_checksum (
          with_check
            (ip_front (20 + transport_len c + length body) c.protocol)
            (ip_back c.response_ip peer.daddr)
            0)
        ≢ 0
      → ull_parse_packet skb ≡ some (einval, record cleared { ip_hdr = some 14 })
  unfolding ip_header
  ull_parse_packet-frame ne =
      let front = ip_front (20 + transport_len c + length body) c.protocol in
      let back = ip_back c.response_ip peer.daddr in
      ull_parse_packet-rejects skb (eth_header peer) front back (transport c peer body ++ body)
        frame_parts length-eth (unfold ip_front in refl) (unfold ip_back in omega arith)
        (unfold ip_back in omega (arith, version_byte)) (unfold ip_front ip_back in omega arith)
        (omega (arith, eth_byte 12 0 refl (omega arith), eth_byte 13 1 refl (omega arith)))
        (omega (arith, version_byte)) ne
