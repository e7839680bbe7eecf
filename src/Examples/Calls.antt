-- ===== src/Examples/Calls.antt =====
-- Runs of the hook.
use nano_net_ull.Base.{
  ℕ, ◌+◌, ◌≡◌, refl, true, Option, none, some, List, [], ◌∷◌, ◌++◌, replicate, lt_wf, dec_lt,
}
use nano_net_ull.Conn.{no_connections}
use nano_net_ull.Errno.{success}
use nano_net_ull.Examples.{packet, config, eth_bytes, ip_bytes, udp_bytes}
use nano_net_ull.Generator.{market_packet}
use nano_net_ull.Hook.{
  Globals, HookEnv, Hooked, stolen, hook, process, process_udp, dispatch, admit, handle,
  is_addressed, load_headers, ports,
}
use nano_net_ull.Hook.Gates.{IsAdmitted, hook-IsAdmitted}
use nano_net_ull.Logic.{LogicEnv, Done, code, process_application_logic, finish, deliver}
use nano_net_ull.Logic.Result.{IsReturned, process_application_logic-IsReturned}
use nano_net_ull.Order.{process_market_data, place_order, order_bytes, cl_ord_id}
use nano_net_ull.Packet.{SkBuff, region, load_udp, load_ip}
use nano_net_ull.Packet.Parse.{
  Parsed, ull_parse_packet, parse_ip, parse_transport, parse_udp, udp_checksum_ok, set_payload,
}
use nano_net_ull.Checksum.{compute_checksum, validate_checksum}
use nano_net_ull.Stats.{record_time}
use nano_net_ull.Text.{decimal, snprintf}
use nano_net_ull.Validate.{validate_packet}
use nano_net_ull.Pool.{Pool, get_response_skb}
use nano_net_ull.Frame.{peer_of, frame, eth_header, ip_header, ip_front, ip_back, udp_header}
use nano_net_ull.Response.{
  net_xmit, send_response, create_response_packet, take_buffer, fill_buffer, transmit,
}

abbrev pub hash : ℕ → ℕ → ℕ → ℕ → ℕ
hash a b c d = a + b + c + d

abbrev pub pool : Pool
pool = record { slots = some 4096 ∷ some 8192 ∷ replicate 254 none; head = 0; tail = 0 }

abbrev pub logic : LogicEnv
logic = record {
  order = record { block = some (replicate 41 0); timestamp = 1700000000123456789 };
  send = record {
    alloc = none;
    net_ip_align = 0;
    eth0 = some 2;
    xmit = net_xmit 0;
    consumes = true;
  };
}

abbrev pub env : HookEnv
env = record {
  start_time = 1000;
  end_time = 1400;
  allowed = true;
  track = record { jiffies = 100; memory = true };
  logic = logic;
}

abbrev pub globals : Globals
globals = record { config = config; conns = no_connections; pool = pool }

abbrev stopped : Hooked
stopped = record {
  verdict = nano_net_ull.Hook.accept;
  globals = globals;
  log = [];
  frames = [];
  traces = [];
}

abbrev pub of_hook : Option Hooked → Hooked
of_hook none = stopped
of_hook (some r) = r

abbrev of_logic : Option Done → Done
of_logic none = record {
  result = code success;
  config = config;
  pool = pool;
  log = [];
  frames = [];
}
of_logic (some done) = done

-- The market data of the packet, and the order that answers it.
abbrev answered : Option Done
answered = process_application_logic logic packet (some 42) 24 config pool

answered-some : answered ≡ some (of_logic answered)
unfolding process_application_logic process_market_data place_order order_bytes cl_ord_id snprintf
    decimal lt_wf dec_lt finish deliver send_response create_response_packet take_buffer
    get_response_skb fill_buffer peer_of frame eth_header ip_header ip_front ip_back udp_header
    compute_checksum transmit
answered-some = refl

process_application_logic-IsReturned_example :
    IsReturned logic (of_logic answered).frames (of_logic answered).result
process_application_logic-IsReturned_example =
    process_application_logic-IsReturned logic config pool packet (some 42) 24 answered-some

abbrev pub ran : Option Hooked
ran = hook hash env packet globals

ran_lem : (ran ≡ some (of_hook ran)) × ((of_hook ran).verdict ≡ stolen)
unfolding hook handle ull_parse_packet parse_ip parse_transport parse_udp udp_checksum_ok
    set_payload region load_udp validate_checksum load_headers load_ip admit validate_packet
    is_addressed dispatch process_udp process ports record_time process_application_logic
    process_market_data place_order order_bytes cl_ord_id snprintf decimal lt_wf dec_lt finish
    deliver send_response create_response_packet take_buffer get_response_skb fill_buffer peer_of
    frame eth_header ip_header ip_front ip_back udp_header compute_checksum transmit
ran_lem = (refl, refl)

pub ran-some : ran ≡ some (of_hook ran)
ran-some = ran_lem.0

-- The same with a datagram of the generator.
abbrev pub front : List ℕ
front = eth_bytes ++ (ip_bytes ++ udp_bytes)

abbrev pub generated : SkBuff
generated = record { bytes = front ++ (market_packet 1700000000 7 ++ []); dev = some 2 }

abbrev pub located : Parsed
located = record {
  ip_hdr = some 14;
  tcp_hdr = none;
  udp_hdr = some 34;
  payload = some 42;
  payload_len = 24;
}

abbrev pub met : Option Hooked
met = hook hash env generated globals

pub met_lem : (ull_parse_packet generated ≡ some (success, located)) × (met ≡ some (of_hook met))
unfolding hook handle ull_parse_packet parse_ip parse_transport parse_udp udp_checksum_ok
    set_payload region load_udp validate_checksum load_headers load_ip admit validate_packet
    is_addressed dispatch process_udp process ports record_time process_application_logic
    process_market_data finish compute_checksum market_packet
met_lem = (refl, refl)

hook-IsAdmitted_example : IsAdmitted packet globals
hook-IsAdmitted_example = hook-IsAdmitted hash env packet globals ran-some ran_lem.1
