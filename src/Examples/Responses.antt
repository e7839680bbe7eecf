-- ===== src/Examples/Responses.antt =====
-- Frames of responses, and their way to the driver.
use nano_net_ull.Base.{
  ℕ, ◌≡◌, inl, inr, refl, true, false, none, some, List, [], ◌∷◌, arith, length, replicate, drop,
}
use nano_net_ull.Checksum.{compute_checksum}
use nano_net_ull.Checksum.Verify.{with_check}
use nano_net_ull.Config.{Config}
use nano_net_ull.Errno.{success, einval}
use nano_net_ull.Examples.{config}
use nano_net_ull.Packet.Optimized.{Found, parse_packet_optimized}
use nano_net_ull.Packet.Parse.{cleared, ull_parse_packet}
use nano_net_ull.Pool.{Pool, get_response_skb}
use nano_net_ull.Frame.{Peer, frame, ip_front, ip_back, ip_header, eth_header, udp_header, peer_of}
use nano_net_ull.Response.{SendEnv, net_xmit, take_buffer, send_response}
use nano_net_ull.Response.Build.{parse-frame, ull_parse_packet-frame}
use nano_net_ull.Response.Send.{IsReady, send_response-double_free}

abbrev zeros : List ℕ
zeros = replicate 6 0

abbrev peer : Peer
peer = record {
  h_dest = zeros;
  h_source = zeros;
  daddr = config.target_ip;
  port = config.target_port;
  ack_seq = 0;
  ack = false;
}

abbrev body : List ℕ
body = 1 ∷ 2 ∷ 3 ∷ []

abbrev start : Found
start = record { ip_hdr = none; payload = none; payload_len = 0 }

abbrev tcp_config : Config
tcp_config = record config { protocol = 6 }

parse-frame_example :
    (parse_packet_optimized (record { bytes = frame tcp_config peer body; dev = none }) start
      ≡ some
          (success, record { ip_hdr = some 14; payload = some 54; payload_len = length body }, []))
    × (drop 54 (frame tcp_config peer body) ≡ body)
parse-frame_example = parse-frame tcp_config peer body (refl, refl) (inl refl) start

frame_check :
    compute_checksum (with_check (ip_front 31 17) (ip_back config.response_ip config.target_ip) 0)
    ≡ 23769
unfolding compute_checksum ip_front ip_back
frame_check = refl

ull_parse_packet-frame_example :
    ull_parse_packet (record { bytes = frame config peer body; dev = none })
    ≡ some (einval, record cleared { ip_hdr = some 14 })
ull_parse_packet-frame_example =
    ull_parse_packet-frame config peer body (refl, refl) (inr refl) (omega (arith, frame_check))

-- A pool with two buffers left.
abbrev pool : Pool
pool = record { slots = some 4096 ∷ some 8192 ∷ replicate 254 none; head = 0; tail = 0 }

abbrev sends : SendEnv
sends = record { alloc = none; net_ip_align = 0; eth0 = some 2; xmit = net_xmit 0; consumes = true }

abbrev fails : SendEnv
fails = record sends { xmit = net_xmit 1 }

ready_to_fail : IsReady fails none config pool peer body
unfolding peer_of take_buffer get_response_skb
ready_to_fail = record {
  target = omega arith;
  port = omega arith;
  known = inr refl;
  peer_found = refl;
  buffer = 4096;
  size = 1500;
  pool_after = record pool { slots = none ∷ some 8192 ∷ replicate 254 none; head = 1 };
  log_before = [];
  taken = refl;
  room = unfold frame eth_header ip_header ip_front ip_back udp_header in omega arith;
  dev = 2;
  dev_found = refl;
}

-- `alloc_skb` has memory too.
abbrev spare : SendEnv
spare = record sends { alloc = some 65536 }

send_response-double_free_example : send_response fails none body config pool ≡ none
send_response-double_free_example = send_response-double_free ready_to_fail refl refl
