-- ===== src/Hook.antt =====
-- src/nanonet.c: `nanonet_hook`, the netfilter hook. `none` is a fault.
pub mod Account
pub mod Preserve
pub mod Valid
pub mod Gates
pub mod Answer
pub mod Taken
pub mod Only
pub mod Total
use nano_net_ull.Base.{
  ℕ, ◌+◌, Bool, true, false, not, ◌&&◌, ◌||◌, Option, none, some, List, [], ◌∷◌, ◌++◌,
}
use nano_net_ull.Base.{◌==◌, if◌then◌else◌, swap16, u64, inc64, ◌-◌, ◌^◌}
use nano_net_ull.Config.{Config}
use nano_net_ull.Conn.{Connections, TrackEnv, track_tcp_connection}
use nano_net_ull.Debug.{Message, parsing_failed, logic_failed}
use nano_net_ull.Errno.{Code, is_error}
use nano_net_ull.Logic.{Return, code, positive, LogicEnv, Done, process_application_logic}
use nano_net_ull.Packet.{
  SkBuff, IpHdr, TcpHdr, UdpHdr, ◌>>=◌, load_ip, load_tcp, load_udp, ipproto_tcp, ipproto_udp,
}
use nano_net_ull.Packet.Parse.{Parsed, ull_parse_packet}
use nano_net_ull.Pool.{Pool}
use nano_net_ull.Stats.{Stats, bypassed, failed, record_time}
use nano_net_ull.Validate.{validate_packet}

-- The globals that the hook reads and writes; `conns` holds the statistics too.
pub record Globals : Type 0 where
  pub config : Config
  pub conns : Connections
  pub pool : Pool

pub record HookEnv : Type 0 where
  pub start_time : ℕ
  pub end_time : ℕ
  pub allowed : Bool
  pub track : TrackEnv
  pub logic : LogicEnv

-- `NF_ACCEPT` and `NF_STOLEN`
pub data Verdict : Type 0 where
  accept stolen : Verdict

-- The trace event, with the ports in the order of the machine.
pub record Trace : Type 0 where
  pub src_ip : ℕ
  pub src_port : ℕ
  pub dst_ip : ℕ
  pub dst_port : ℕ
  pub process_time_ns : ℕ
  pub result : Return

pub record Hooked : Type 0 where
  pub verdict : Verdict
  pub globals : Globals
  pub log : List Message
  pub frames : List (List ℕ)
  pub traces : List Trace

abbrev pub with_stats : (Stats → Stats) → Globals → Globals
with_stats f g = record g { conns = record (g.conns) { stats = f g.conns.stats } }

-- A return with `NF_ACCEPT`.
abbrev let_through : Globals → List Message → Hooked
let_through g log = record { verdict = accept; globals = g; log = log; frames = []; traces = [] }

abbrev bypass : Globals → List Message → Hooked
bypass g log = let_through (with_stats bypassed g) log

abbrev drop_error : Globals → List Message → Hooked
drop_error g log = let_through (with_stats failed g) log

-- The two transport headers that the parser may have found, as loaded.
abbrev pub Headers : Type 0
Headers = Option TcpHdr × Option UdpHdr

abbrev load_found {ℓ} : {A : Type ℓ} → (ℕ → Option A) → Option ℕ → Option (Option A)
load_found load none = some none
load_found load (some p) = load p >>= λ a. some (some a)

-- The pointers of the parser followed. A null pointer to the IP header is a fault.
unfoldable pub load_headers : SkBuff → Parsed → Option (IpHdr × Headers)
load_headers skb out = elim (out.ip_hdr) [
  | none ↦ none
  | some p ↦ load_ip skb.bytes p >>= λ ip. load_found (load_tcp skb.bytes) out.tcp_hdr >>= λ tcp.
      load_found (load_udp skb.bytes) out.udp_hdr >>= λ udp. some (ip, (tcp, udp))
]

-- The ports of the trace event; without a transport header the load is a fault.
unfoldable pub ports : Headers → Option (ℕ × ℕ)
ports (some tcp, udp) = some (swap16 tcp.source, swap16 tcp.dest)
ports (none, some udp) = some (swap16 udp.source, swap16 udp.dest)
ports (none, none) = none

abbrev count_result : Return → Stats → Stats
count_result (code c) s = if is_error c then failed s else s
count_result (positive n) s = record s { responses_sent = inc64 s.responses_sent }

abbrev result_log : Return → List Message
result_log (code c) = if is_error c then logic_failed c ∷ [] else []
result_log (positive n) = []

-- From the application logic on, which ends with `NF_STOLEN`.
unfoldable pub process :
    HookEnv → SkBuff → Parsed → IpHdr → Headers → List Message → Globals → Option Hooked
process env skb out ip headers log g =
    process_application_logic env.logic skb out.payload out.payload_len g.config g.pool >>= λ done.
    let counted = count_result done.result g.conns.stats in
    record_time env.start_time env.end_time counted >>= λ timed. ports headers >>= λ p.
    some (record {
      verdict = stolen;
      globals = record {
        config = done.config;
        conns = record (g.conns) { stats = timed };
        pool = done.pool;
      };
      log = log ++ (done.log ++ result_log done.result);
      frames = done.frames;
      traces =
          record {
            src_ip = ip.saddr;
            src_port = p.0;
            dst_ip = ip.daddr;
            dst_port = p.1;
            process_time_ns = timed.last_process_time_ns;
            result = done.result;
          }
          ∷ [];
    })

-- The destination test, false for a packet that is bypassed.
unfoldable pub is_addressed : Config → IpHdr → Bool
is_addressed c ip = ip.daddr == c.target_ip || (c.multicast && ip.daddr == c.multicast_group)

module _ (jhash_3words : ℕ → ℕ → ℕ → ℕ → ℕ) where
  -- `global_config.protocol == IPPROTO_TCP && tcp_hdr`
  pub process_tcp : HookEnv → SkBuff → Parsed → IpHdr → TcpHdr → Headers → Globals → Option Hooked
  process_tcp env skb out ip tcp headers g =
      if not (tcp.dest == g.config.target_port)
      then some (bypass g [])
      else (let (result, conns, log) = track_tcp_connection jhash_3words env.track ip tcp g.conns in
          let g' = record g { conns = conns } in
          if is_error result
          then some (drop_error g' log)
          else process env skb out ip headers log g')

  -- `global_config.protocol == IPPROTO_UDP && udp_hdr`
  unfoldable pub process_udp :
      HookEnv → SkBuff → Parsed → IpHdr → UdpHdr → Headers → Globals → Option Hooked
  process_udp env skb out ip udp headers g =
      if not (udp.dest == g.config.target_port)
      then some (bypass g [])
      else process env skb out ip headers [] g

  -- The choice between the two; a packet of another protocol than the configured one meets no test.
  unfoldable pub dispatch : HookEnv → SkBuff → Parsed → IpHdr → Headers → Globals → Option Hooked
  dispatch env skb out ip headers g =
      if g.config.protocol == ipproto_tcp
      then elim (headers.0) [
        | some tcp ↦ process_tcp env skb out ip tcp headers g
        | none ↦ process env skb out ip headers [] g
      ]
      else if g.config.protocol == ipproto_udp
      then elim (headers.1) [
        | some udp ↦ process_udp env skb out ip udp headers g
        | none ↦ process env skb out ip headers [] g
      ]
      else process env skb out ip headers [] g

  -- The check of the packet and of its destination.
  unfoldable pub admit : HookEnv → SkBuff → Parsed → IpHdr → Headers → Globals → Option Hooked
  admit env skb out ip headers g =
      let (checked, log) = validate_packet env.allowed ip in
      if is_error checked
      then some (drop_error g log)
      else if not (is_addressed g.config ip)
      then some (bypass g log)
      else dispatch env skb out ip headers g

  -- A packet of a device, with the module enabled.
  unfoldable pub handle : HookEnv → SkBuff → Globals → Option Hooked
  handle env skb g = ull_parse_packet skb >>= λ parsed.
      let (result, out) = parsed in
      if is_error result
      then some (drop_error g (parsing_failed result ∷ []))
      else load_headers skb out >>= λ headers. admit env skb out headers.0 headers.1 g

  unfoldable pub hook : HookEnv → SkBuff → Globals → Option Hooked
  hook env skb g = elim (skb.dev) [
    | none ↦ some (bypass g [])
    | some dev ↦ if not g.config.enabled then some (bypass g []) else handle env skb g
  ]
