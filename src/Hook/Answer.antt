-- ===== src/Hook/Answer.antt =====
-- The way of a market data packet through the hook, from its arrival to the frame of the order.
use nano_net_ull.Base.{
  ℕ, ◌^◌, ◌+◌, ◌≤◌, ◌<◌, ◌≡◌, ◌≢◌, refl, ◌∙◌, true, none, some, List, [], ◌∷◌, ◌++◌, arith, length,
  u32, inc64, ◌⊎◌, inl, inr, ap, some_of_ne_none,
}
use nano_net_ull.Config.{Config}
use nano_net_ull.Conn.{Connections, track_tcp_connection}
use nano_net_ull.Conn.Track.{track-counters}
use nano_net_ull.Debug.{Message}
use nano_net_ull.Errno.{success}
use nano_net_ull.Frame.{Peer, frame}
use nano_net_ull.Hook.{
  Globals, HookEnv, stolen, Hooked, Headers, process, process_tcp, process_udp, dispatch, admit,
  handle, hook, load_headers, is_addressed, ports,
}
use nano_net_ull.Hook.Account.{Counters, counters}
use nano_net_ull.Logic.{LogicEnv, Done, code, deliver, finish, process_application_logic}
use nano_net_ull.Order.{order_bytes}
use nano_net_ull.Order.Decide.{IsBid, symbol, offered, process_market_data-place}
use nano_net_ull.Packet.{SkBuff, IpHdr, TcpHdr, UdpHdr, len, raw32}
use nano_net_ull.Packet.Parse.{Parsed, ull_parse_packet}
use nano_net_ull.Packet.Safety.{ull_parse_packet-IsLocated}
use nano_net_ull.Pool.{Pool}
use nano_net_ull.Response.{is_sent}
use nano_net_ull.Response.Send.{IsReady, send_response-sends_all}
use nano_net_ull.Stats.Timing.{record_time_total}
use nano_net_ull.Validate.{validate_packet}

-- A datagram for the port of the module, or a segment for it of a connection that the tracking has
-- found or opened; `conns` and `log` are what the tracking leaves.
abbrev IsSegment :
    (ℕ → ℕ → ℕ → ℕ → ℕ) → HookEnv → IpHdr → Headers → Globals → Connections → List Message → Type 0
IsSegment jhash_3words env ip headers g conns log =
    ((udp : UdpHdr) × (headers ≡ (none, some udp))
      × (g.config.protocol ≡ 17)
      × (udp.dest ≡ g.config.target_port)
      × (conns ≡ g.conns)
      × (log ≡ []))
    ⊎ ((tcp : TcpHdr) × (headers ≡ (some tcp, none))
        × (g.config.protocol ≡ 6)
        × (tcp.dest ≡ g.config.target_port)
        × (track_tcp_connection jhash_3words env.track ip tcp g.conns ≡ (success, conns, log)))

-- A packet for the module that carries market data at a low price, and a kernel that can answer; the
-- counter of processed packets does not wrap.
pub record IsOffer (jhash_3words : ℕ → ℕ → ℕ → ℕ → ℕ) (env : HookEnv) (skb : SkBuff) (g : Globals)
    : Type 0 where
  pub small : g.conns.stats.packets_processed + 1 < 2 ^ 64
  pub dev : ℕ
  pub has_dev : skb.dev ≡ some dev
  pub enabled : g.config.enabled ≡ true
  pub out : Parsed
  pub parsed : ull_parse_packet skb ≡ some (success, out)
  pub ip : IpHdr
  pub headers : Headers
  pub loaded : load_headers skb out ≡ some (ip, headers)
  pub allowed : env.allowed ≡ true
  pub source : ip.saddr ≢ 0
  pub long : 20 ≤ ip.tot_len
  pub addressed : is_addressed g.config ip ≡ true
  pub conns : Connections
  pub log : List Message
  pub segment : IsSegment jhash_3words env ip headers g conns log
  pub market : g.config.application_logic_type ≡ 0
  pub p : ℕ
  pub payload : out.payload ≡ some p
  pub enough : 24 ≤ out.payload_len
  pub low : raw32 skb.bytes (p + 8) < 10000
  pub memory : List ℕ
  pub block : env.logic.order.block ≡ some memory
  pub whole : length memory ≡ 41
  pub taken : is_sent env.logic.send.xmit ≡ true

module _ (env : LogicEnv) (skb : SkBuff) (p n : ℕ) (c : Config) (pool : Pool) (peer : Peer)
    (inside : p + n ≤ len skb) (enough : 24 ≤ n) (memory : List ℕ)
    (block : env.order.block ≡ some memory) (whole : length memory ≡ 41)
    (low : raw32 skb.bytes (p + 8) < 10000) (market : c.application_logic_type ≡ 0)
    (ok : is_sent env.send.xmit ≡ true) where
  abbrev order : List ℕ
  order = order_bytes memory (symbol skb p) (offered skb p) env.order.timestamp

  logic-answers :
      (ready : IsReady env.send none c pool peer order)
      → process_application_logic env skb (some p) n c pool
        ≡ some (record {
          result = code success;
          config = record c { seq_num = u32 (c.seq_num + 41) };
          pool = ready.pool_after;
          log = [] ++ ((ready.log_before ++ []) ++ []);
          frames = frame c peer order ∷ [];
        })
  unfolding process_application_logic finish deliver
  logic-answers ready =
      let placed =
        process_market_data-place env.order skb p n inside enough memory block whole low in
      let sent = send_response-sends_all order ready (omega (arith, placed.1.size)) ok in
      ground (arith, placed.0, placed.1.size, sent)

abbrev pub answer :
    {jhash_3words : ℕ → ℕ → ℕ → ℕ → ℕ} (env : HookEnv) (skb : SkBuff) {g : Globals}
    → IsOffer jhash_3words env skb g
    → List ℕ
answer env skb o = order_bytes o.memory (symbol skb o.p) (offered skb o.p) env.logic.order.timestamp

module _ (jhash_3words : ℕ → ℕ → ℕ → ℕ → ℕ) (env : HookEnv) (skb : SkBuff) (g : Globals)
    (o : IsOffer jhash_3words env skb g) (peer : Peer)
    (ready : IsReady env.logic.send none g.config g.pool peer (answer env skb o)) where
  payload_inside : o.p + o.out.payload_len ≤ len skb
  payload_inside =
      let located = ull_parse_packet-IsLocated skb o.parsed in
      ground (arith, located.payload, o.payload)

  abbrev done : Done
  done = record {
    result = code success;
    config = record (g.config) { seq_num = u32 (g.config.seq_num + 41) };
    pool = ready.pool_after;
    log = [] ++ ((ready.log_before ++ []) ++ []);
    frames = frame g.config peer (answer env skb o) ∷ [];
  }

  done_lem :
      process_application_logic env.logic skb o.out.payload o.out.payload_len g.config g.pool
      ≡ some done
  done_lem = rw (o.payload) (
      logic-answers env.logic skb o.p o.out.payload_len g.config g.pool peer payload_inside o.enough
        o.memory o.block o.whole o.low o.market o.taken ready)

  abbrev pub IsAnswered : Hooked → Type 0
  IsAnswered r =
      (r.verdict ≡ stolen)
      × (r.frames ≡ frame g.config peer (answer env skb o) ∷ [])
      × (r.globals.config ≡ record (g.config) { seq_num = u32 (g.config.seq_num + 41) })
      × (counters r.globals
          ≡ record (counters g) { processed = inc64 g.conns.stats.packets_processed })

  -- The globals as the tracking leaves them.
  abbrev tracked : Globals
  tracked = record g { conns = o.conns }

  counters-tracked : counters tracked ≡ counters g
  counters-tracked = elim o.segment [
    | inl (udp, headers, protocol, port, same, silent) ↦ rw same refl
    | inr (tcp, headers, protocol, port, run) ↦
        let t = track-counters jhash_3words env.track o.ip tcp g.conns in ground (arith, t.0, run)
  ]

  has_ports : ports o.headers ≢ none
  unfolding ports
  has_ports e = elim o.segment [
    | inl (udp, headers, protocol, port, same, silent) ↦ ground (arith, headers)
    | inr (tcp, headers, protocol, port, run) ↦ ground (arith, headers)
  ]

  process_answers :
      (r : Hooked) × (process env skb o.out o.ip o.headers o.log tracked ≡ some r) × IsAnswered r
  unfolding process
  process_answers =
      let (p, found) = some_of_ne_none _ has_ports in
      let same = counters-tracked in
      let (s', timed, moved, bypassed, responses, errors) =
        record_time_total env.start_time env.end_time o.conns.stats
          (omega (arith, o.small, ap (λ (c : Counters). c.processed) same)) in
      rw (done_lem, timed, found)
        (_, refl, (refl, refl, refl, ground (arith, same, moved, bypassed, responses, errors)))

  hook-process : hook jhash_3words env skb g ≡ process env skb o.out o.ip o.headers o.log tracked
  unfolding hook handle admit dispatch process_udp process_tcp validate_packet
  hook-process = elim o.segment [
    | inl (udp, headers, protocol, port, same, silent) ↦ ground (
      arith, o.has_dev, o.enabled, o.parsed, o.loaded, o.allowed, o.source, o.long, o.addressed,
      headers, protocol, port, same, silent,
    )
    | inr (tcp, headers, protocol, port, run) ↦ ground (
      arith, o.has_dev, o.enabled, o.parsed, o.loaded, o.allowed, o.source, o.long, o.addressed,
      headers, protocol, port, run,
    )
  ]

  -- A packet of the configured protocol that is parsed, allowed, addressed to the module and its
  -- port, is UDP or a segment that the tracking accepts, and carries 24 bytes or more of market data
  -- with a price below 10000, is answered, where memory, buffer, device and driver are there and the
  -- counter of processed packets is below 2 ^ 64 - 1: the
  -- hook takes it, the driver is given one frame, which holds the bid for its symbol one cent higher,
  -- the sequence number grows by the 41 bytes of the order, and the packet counts as processed and as
  -- nothing else.
  pub hook-answers :
      (r : Hooked) × (hook jhash_3words env skb g ≡ some r)
      × IsAnswered r
      × IsBid (symbol skb o.p) (offered skb o.p) (answer env skb o)
  hook-answers =
      let (r, run, answered) = process_answers in
      let placed =
        process_market_data-place env.logic.order skb o.p o.out.payload_len payload_inside o.enough
          o.memory o.block o.whole o.low in
      (r, hook-process ∙ run, answered, placed.1)
