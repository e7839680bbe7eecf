-- ===== src/Hook/Total.antt =====
-- When a call of the hook meets no fault.
use nano_net_ull.Base.{
  ℕ, ap, ◌<◌, ◌^◌, ◌+◌, ◌≤◌, ◌≡◌, ◌≢◌, inl, inr, refl, arith, none, some, List, [], Option-cases,
  Bool-cases, some_of_ne_none,
}
use nano_net_ull.Conn.{track_tcp_connection}
use nano_net_ull.Debug.{Message}
use nano_net_ull.Errno.{is_error}
use nano_net_ull.Hook.{
  Globals, HookEnv, Hooked, Headers, process, process_tcp, process_udp, dispatch, admit, handle,
  hook, load_headers, ports, count_result,
}
use nano_net_ull.Hook.Gates.{success_of_not_error}
use nano_net_ull.Stats.{Stats}
use nano_net_ull.Stats.Timing.{record_time_total}
use nano_net_ull.Conn.Track.{track-counters}
use nano_net_ull.Logic.{Return, code, positive, process_application_logic}
use nano_net_ull.Logic.Total.{IsCalm, process_application_logic_ne}
use nano_net_ull.Packet.{SkBuff, IpHdr, TcpHdr, UdpHdr, len, load_ip, load_tcp, load_udp, raw8}
use nano_net_ull.Packet.Parse.{Parsed}
use nano_net_ull.Packet.Safety.{
  IsLocated, ull_parse_packet-IsLocated, ull_parse_packet_total, udp_offset, DatagramFits,
}

module _ (skb : SkBuff) (i : ℕ) where
  load_ip_ne : i + 20 ≤ len skb → load_ip skb.bytes i ≢ none
  unfolding load_ip
  load_ip_ne h e = ground arith

  load_tcp_ne : i + 20 ≤ len skb → load_tcp skb.bytes i ≢ none
  unfolding load_tcp
  load_tcp_ne h e = ground arith

  load_udp_ne : i + 8 ≤ len skb → load_udp skb.bytes i ≢ none
  unfolding load_udp
  load_udp_ne h e = ground arith

-- The headers that the parser has located can be loaded, and one of them has ports.
load_headers_total :
    (skb : SkBuff) (out : Parsed)
    → IsLocated skb out
    → (found : IpHdr × Headers) × (load_headers skb out ≡ some found) × (ports found.1 ≢ none)
unfolding load_headers ports
load_headers_total skb out at =
    let (ip, has_ip) = some_of_ne_none _ (load_ip_ne skb 14 at.ip_inside) in
    elim at.transport [
      | inl (t, tcp, udp, inside) ↦
          let (hdr, has_hdr) = some_of_ne_none _ (load_tcp_ne skb t inside) in
          ((ip, (some hdr, none)), rw (at.ip, tcp, udp, has_ip, has_hdr) refl, λ e. cc)
      | inr (t, udp, tcp, inside) ↦
          let (hdr, has_hdr) = some_of_ne_none _ (load_udp_ne skb t inside) in
          ((ip, (none, some hdr)), rw (at.ip, tcp, udp, has_ip, has_hdr) refl, λ e. cc)
    ]

-- The result of the application logic leaves the counter of processed packets alone.
count_result-processed :
    (r : Return) (s : Stats) → (count_result r s).packets_processed ≡ s.packets_processed
count_result-processed (code c) s = ground arith
count_result-processed (positive n) s = refl

module _ (jhash_3words : ℕ → ℕ → ℕ → ℕ → ℕ) (env : HookEnv) (calm : IsCalm env.logic) (skb : SkBuff)
    (out : Parsed) (at : IsLocated skb out) (ip : IpHdr) (headers : Headers)
    (has_ports : ports headers ≢ none) where
  process_ne :
      (log : List Message) (g : Globals)
      → g.conns.stats.packets_processed + 1 < 2 ^ 64
      → process env skb out ip headers log g ≢ none
  unfolding process
  process_ne log g small e =
      let inside : (p : ℕ) → out.payload ≡ some p → p + out.payload_len ≤ len skb =
        λ p q. ground (arith, at.payload) in
      elim (Option-cases
        (process_application_logic env.logic skb out.payload out.payload_len g.config g.pool)) [
          | inl q ↦
              process_application_logic_ne env.logic skb out.payload out.payload_len g.config g.pool
                calm inside q
          | inr (done, q) ↦ elim (Option-cases (ports headers)) [
            | inl r ↦ has_ports r
            | inr (p, r) ↦
                let counted = count_result done.result g.conns.stats in
                let same = count_result-processed done.result g.conns.stats in
                let (s, timed, moved, bypassed, responses, errors) =
                  record_time_total env.start_time env.end_time counted
                    (omega (arith, small, same)) in
                let ends : process env skb out ip headers log g ≢ none =
                  rw (q, timed, r) (λ w. cc) in
                ends e
          ]
        ]

  process_tcp_ne :
      (tcp : TcpHdr) (g : Globals)
      → g.conns.stats.packets_processed + 1 < 2 ^ 64
      → process_tcp jhash_3words env skb out ip tcp headers g ≢ none
  unfolding process_tcp
  process_tcp_ne tcp g small e =
      let (result, conns, log) = track_tcp_connection jhash_3words env.track ip tcp g.conns in
      let t = track-counters jhash_3words env.track ip tcp g.conns in
      let same : conns.stats.packets_processed ≡ g.conns.stats.packets_processed =
        ap (λ (s : Stats). s.packets_processed) t.0 in
      let run = process_ne log (record g { conns = conns }) (omega (arith, same, small)) in
      ground (arith, run)

  process_udp_ne :
      (udp : UdpHdr) (g : Globals)
      → g.conns.stats.packets_processed + 1 < 2 ^ 64
      → process_udp jhash_3words env skb out ip udp headers g ≢ none
  unfolding process_udp
  process_udp_ne udp g small e = ground (arith, process_ne [] g small)

  dispatch_ne :
      (g : Globals)
      → g.conns.stats.packets_processed + 1 < 2 ^ 64
      → dispatch jhash_3words env skb out ip headers g ≢ none
  unfolding dispatch
  dispatch_ne g small e = grind (arith, process_ne [] g small, process_tcp_ne, process_udp_ne)

  admit_ne :
      (g : Globals)
      → g.conns.stats.packets_processed + 1 < 2 ^ 64
      → admit jhash_3words env skb out ip headers g ≢ none
  unfolding admit
  admit_ne g small e = ground (arith, dispatch_ne g small)

module _ (jhash_3words : ℕ → ℕ → ℕ → ℕ → ℕ) (env : HookEnv) (calm : IsCalm env.logic) (skb : SkBuff)
    (header : udp_offset skb ≤ len skb) (datagram : raw8 skb.bytes 23 ≡ 17 → DatagramFits skb)
    (g : Globals) (small : g.conns.stats.packets_processed + 1 < 2 ^ 64) where
  handle_ne : handle jhash_3words env skb g ≢ none
  unfolding handle
  handle_ne e =
      let ((result, out), parsed) = ull_parse_packet_total skb header datagram in
      elim (Bool-cases (is_error result)) [
        | inl bad ↦ ground arith
        | inr good ↦
            let at =
              ull_parse_packet-IsLocated skb {out = out}
                (let ok = success_of_not_error result good in cc) in
            let ((ip, headers), loaded, has_ports) = load_headers_total skb out at in
            let run = admit_ne jhash_3words env calm skb out at ip headers has_ports g small in
            ground (arith, run)
      ]

  -- A call of the hook returns, without a load outside the packet, an overrun of a response buffer, the
  -- second release of one or a division by 0, for every configuration and table, where the counter of
  -- processed packets is below 2 ^ 64 - 1, the lengths that the IP and the UDP header state lie inside the packet, `kmalloc` gives the 41 bytes of an order,
  -- `NET_IP_ALIGN` is at most 1405, and the driver does not fail with a buffer that it has taken.
  pub hook_total : (r : Hooked) × (hook jhash_3words env skb g ≡ some r)
  unfolding hook
  hook_total = some_of_ne_none _ (λ e. ground (arith, handle_ne))
