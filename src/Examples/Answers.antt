-- ===== src/Examples/Answers.antt =====
-- The packet of `packet`, answered by the hook.
use nano_net_ull.Base.{
  ◌*◌, ◌≡◌, ◌⊎◌, inl, inr, refl, false, some, none, [], ◌∷◌, arith, replicate, lt_wf, dec_lt,
}
use nano_net_ull.Text.{decimal, snprintf}
use nano_net_ull.Examples.{packet, config, sender, receiver, from_port, to_port}
use nano_net_ull.Examples.Calls.{
  logic, hash, env, pool, globals, of_hook, ran, ran-some, front, generated, located, met, met_lem,
}
use nano_net_ull.Generator.Mismatch.{hook-market_packet}
use nano_net_ull.Hook.Total.{hook_total}
use nano_net_ull.Logic.Total.{IsCalm}
use nano_net_ull.Hook.Only.{IsSending, hook-IsSending}
use nano_net_ull.Frame.{Peer, frame, eth_header, ip_header, ip_front, ip_back, udp_header, peer_of}
use nano_net_ull.Hook.{Hooked, hook, load_headers, is_addressed}
use nano_net_ull.Hook.Answer.{IsOffer, IsAnswered, answer, hook-answers}
use nano_net_ull.Checksum.{compute_checksum, validate_checksum}
use nano_net_ull.Order.{order_bytes, cl_ord_id}
use nano_net_ull.Order.Decide.{IsBid, symbol, offered}
use nano_net_ull.Packet.{UdpHdr, region, load_ip, load_udp}
use nano_net_ull.Packet.Parse.{
  ull_parse_packet, parse_ip, parse_transport, parse_udp, udp_checksum_ok, set_payload,
}
use nano_net_ull.Pool.{get_response_skb}
use nano_net_ull.Response.{take_buffer}
use nano_net_ull.Response.Send.{IsReady}

abbrev datagram : UdpHdr
datagram = record { source = from_port; dest = to_port; length = 32 * 256; check = 0 }

offer : IsOffer hash env packet globals
unfolding ull_parse_packet parse_ip parse_transport parse_udp udp_checksum_ok set_payload region
    load_udp validate_checksum load_headers load_ip is_addressed compute_checksum
offer = record {
  small = omega arith;
  dev = 2;
  has_dev = refl;
  enabled = refl;
  out = record {
    ip_hdr = some 14;
    tcp_hdr = none;
    udp_hdr = some 34;
    payload = some 42;
    payload_len = 24;
  };
  parsed = refl;
  ip = record {
    version_ihl = 69;
    tot_len = 52 * 256;
    protocol = 17;
    check = 0;
    saddr = sender;
    daddr = receiver;
  };
  headers = (none, some datagram);
  loaded = refl;
  allowed = refl;
  source = omega arith;
  long = omega arith;
  addressed = refl;
  conns = globals.conns;
  log = [];
  segment = inl (datagram, refl, refl, refl, refl, refl);
  market = refl;
  p = 42;
  payload = refl;
  enough = omega arith;
  low = omega arith;
  memory = replicate 41 0;
  block = refl;
  whole = refl;
  taken = refl;
}

abbrev peer : Peer
peer = record {
  h_dest = replicate 6 0;
  h_source = replicate 6 0;
  daddr = config.target_ip;
  port = config.target_port;
  ack_seq = 0;
  ack = false;
}

able : IsReady env.logic.send none config pool peer (answer env packet offer)
unfolding peer_of take_buffer get_response_skb order_bytes cl_ord_id snprintf decimal lt_wf dec_lt
    offer
able = record {
  target = omega arith;
  port = omega arith;
  known = inr refl;
  peer_found = refl;
  buffer = 4096;
  size = 1500;
  pool_after = record pool { slots = none ∷ some 8192 ∷ replicate 254 none; head = 1 };
  log_before = [];
  taken = refl;
  room = unfold frame eth_header ip_header ip_front ip_back udp_header in omega arith;
  dev = 2;
  dev_found = refl;
}

hook-answers_example :
    (r : Hooked) × (hook hash env packet globals ≡ some r)
    × IsAnswered hash env packet globals offer peer able r
    × IsBid (symbol packet 42) (offered packet 42) (answer env packet offer)
unfolding offer
hook-answers_example = hook-answers hash env packet globals offer peer able

hook-IsSending_example :
    ((of_hook ran).frames ≡ []) ⊎ IsSending env packet globals (of_hook ran).frames
hook-IsSending_example = hook-IsSending hash env packet globals ran-some

hook-market_packet_example : (of_hook met).frames ≡ []
hook-market_packet_example =
    hook-market_packet hash env generated globals front [] 1700000000 7 located refl (met_lem.0)
      refl (met_lem.1)

calm : IsCalm logic
calm = record { whole = λ memory e. ground (arith, e); room = omega arith; driver = inl refl }

hook_total_example : (r : Hooked) × (hook hash env packet globals ≡ some r)
hook_total_example =
    hook_total hash env calm packet (omega arith) (λ e. omega arith) globals (omega arith)
