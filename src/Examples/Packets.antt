-- ===== src/Examples/Packets.antt =====
-- Checksums and parsers.
use nano_net_ull.Base.{ℕ, ◌≡◌, ◌≢◌, refl, none, some, List, [], ◌∷◌, ◌++◌, arith, replicate}
use nano_net_ull.Checksum.{compute_checksum, validate_checksum}
use nano_net_ull.Checksum.Verify.{with_check, compute_checksum-own, compute_checksum-odd}
use nano_net_ull.Errno.{Code, success, einval}
use nano_net_ull.Examples.{packet, eth_bytes}
use nano_net_ull.Packet.{SkBuff, region, load_udp}
use nano_net_ull.Packet.Checked.{ull_parse_packet-rejects}
use nano_net_ull.Packet.Optimized.{Found, parse_packet_optimized}
use nano_net_ull.Packet.Optimized.Agree.{found, payload_log, parse_packet_optimized-found}
use nano_net_ull.Packet.Parse.{
  Parsed, cleared, ull_parse_packet, parse_ip, parse_transport, parse_udp, udp_checksum_ok,
  set_payload,
}
use nano_net_ull.Packet.Safety.{
  IsLocated, ull_parse_packet-IsLocated, ull_parse_packet_total, ull_parse_packet_overread,
}

abbrev front : List ℕ
front = 69 ∷ 0 ∷ 0 ∷ 28 ∷ 0 ∷ 0 ∷ 64 ∷ 0 ∷ 64 ∷ 17 ∷ []

abbrev back : List ℕ
back = 10 ∷ 0 ∷ 0 ∷ 1 ∷ 10 ∷ 0 ∷ 0 ∷ 2 ∷ []

compute_checksum-own_example :
    compute_checksum (with_check front back (compute_checksum (with_check front back 0))) ≡ 0
compute_checksum-own_example = compute_checksum-own front back refl (omega arith) (omega arith)

compute_checksum-odd_example :
    (compute_checksum ((1 ∷ 2 ∷ []) ++ 3 ∷ []) ≡ compute_checksum ((1 ∷ 2 ∷ []) ++ 0 ∷ 3 ∷ []))
    × (◌≢◌ {A = ℕ} 3 0
        → compute_checksum ((1 ∷ 2 ∷ []) ++ 3 ∷ []) ≢ compute_checksum ((1 ∷ 2 ∷ []) ++ 3 ∷ 0 ∷ []))
compute_checksum-odd_example =
    compute_checksum-odd (1 ∷ 2 ∷ []) 3 refl (omega arith) (omega arith) (omega arith)

abbrev located : Parsed
located = record {
  ip_hdr = some 14;
  tcp_hdr = none;
  udp_hdr = some 34;
  payload = some 42;
  payload_len = 24;
}

packet_parsed : ull_parse_packet packet ≡ some (success, located)
unfolding ull_parse_packet parse_ip parse_transport parse_udp udp_checksum_ok set_payload region
    load_udp validate_checksum
packet_parsed = refl

ull_parse_packet-IsLocated_example : IsLocated packet located
ull_parse_packet-IsLocated_example = ull_parse_packet-IsLocated packet packet_parsed

ull_parse_packet_total_example : (r : Code × Parsed) × (ull_parse_packet packet ≡ some r)
ull_parse_packet_total_example = ull_parse_packet_total packet (omega arith) (λ e. omega arith)

-- A header length of 60 in a packet of 34 bytes.
abbrev cut : SkBuff
cut = record { bytes = eth_bytes ++ (79 ∷ replicate 19 1); dev = none }

ull_parse_packet_overread_example : ull_parse_packet cut ≡ none
ull_parse_packet_overread_example =
    ull_parse_packet_overread cut (omega arith) (omega arith) (omega arith) (omega arith)
      (omega arith)

-- A packet that consists of its headers.
abbrev whole : SkBuff
whole = record {
  bytes =
      eth_bytes
      ++ (with_check front back (compute_checksum (with_check front back 0)) ++ replicate 8 0);
  dev = none;
}

whole_check : compute_checksum (with_check front back 0) ≡ 53030
unfolding compute_checksum
whole_check = refl

ull_parse_packet-rejects_example :
    ull_parse_packet whole ≡ some (einval, record cleared { ip_hdr = some 14 })
ull_parse_packet-rejects_example =
    ull_parse_packet-rejects whole eth_bytes front back (replicate 8 0) refl refl refl (omega arith)
      refl (omega arith) refl refl (omega (arith, whole_check))

abbrev start : Found
start = record { ip_hdr = none; payload = some 1; payload_len = 5 }

parse_packet_optimized-found_example :
    parse_packet_optimized packet start ≡ some (success, found located, payload_log located.payload)
parse_packet_optimized-found_example =
    parse_packet_optimized-found packet start (omega arith) packet_parsed
