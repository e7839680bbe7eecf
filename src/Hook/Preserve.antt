-- ===== src/Hook/Preserve.antt =====
-- What a call of the hook preserves of the table of connections.
use nano_net_ull.Base.{ℕ, ◌≡◌, arith, some, List, [], inl, inr, Option-cases}
use nano_net_ull.Conn.{Connections, TrackEnv, track_tcp_connection}
use nano_net_ull.Debug.{Message}
use nano_net_ull.Hook.{
  Globals, HookEnv, Hooked, Headers, process, process_tcp, process_udp, dispatch, admit, handle,
  hook, load_headers, with_stats, is_addressed,
}
use nano_net_ull.Logic.{process_application_logic}
use nano_net_ull.Logic.Result.{Return-cases}
use nano_net_ull.Packet.{SkBuff, IpHdr, TcpHdr, UdpHdr}
use nano_net_ull.Packet.Parse.{Parsed, ull_parse_packet}
use nano_net_ull.Stats.{bypassed, failed, record_time}
use nano_net_ull.Validate.{validate_packet}

-- The table and the counter of its entries are what they were.
pub record SameTable (t t' : Connections) : Type 0 where
  pub chains : t'.chains ≡ t.chains
  pub active : t'.stats.connections_active ≡ t.stats.connections_active

-- A property of the table that a call of the hook preserves: it depends on the chains and the counter
-- of their entries only, and tracking a segment preserves it.
pub record IsPreserved (jhash_3words : ℕ → ℕ → ℕ → ℕ → ℕ) (P : Connections → Type 0) : Type 0 where
  pub same : (t t' : Connections) → SameTable t t' → P t → P t'
  pub track :
      (env : TrackEnv) (ip : IpHdr) (tcp : TcpHdr) (t : Connections)
      → P t
      → P (track_tcp_connection jhash_3words env ip tcp t).1

module _ (env : HookEnv) (skb : SkBuff) (out : Parsed) (ip : IpHdr) (headers : Headers)
    {r : Hooked} where
  process-SameTable :
      (log : List Message) (g : Globals)
      → process env skb out ip headers log g ≡ some r
      → SameTable g.conns r.globals.conns
  unfolding process record_time
  process-SameTable log g h =
      elim (Option-cases
        (process_application_logic env.logic skb out.payload out.payload_len g.config g.pool)) [
          | inl e ↦ ground arith
          | inr (done, e) ↦ elim (Return-cases done.result) [
            | inl (c, q) ↦ ground arith
            | inr (k, q) ↦ ground arith
          ]
        ]

module _ (jhash_3words : ℕ → ℕ → ℕ → ℕ → ℕ) (P : Connections → Type 0)
    (kept : IsPreserved jhash_3words P) where
  bypassed_preserves : (g : Globals) → P g.conns → P (with_stats bypassed g).conns
  bypassed_preserves g v = kept.same g.conns (with_stats bypassed g).conns (ground arith) v

  failed_preserves : (g : Globals) → P g.conns → P (with_stats failed g).conns
  failed_preserves g v = kept.same g.conns (with_stats failed g).conns (ground arith) v

  module _ (env : HookEnv) (skb : SkBuff) (out : Parsed) (ip : IpHdr) (headers : Headers)
      (g : Globals) {r : Hooked} (v : P g.conns) where
    process_preserves :
        (log : List Message) (g' : Globals)
        → P g'.conns
        → process env skb out ip headers log g' ≡ some r
        → P r.globals.conns
    process_preserves log g' v' h =
        kept.same g'.conns r.globals.conns
          (process-SameTable env skb out ip headers {r = r} log g' h) v'

    process_tcp_preserves :
        (tcp : TcpHdr)
        → process_tcp jhash_3words env skb out ip tcp headers g ≡ some r
        → P r.globals.conns
    unfolding process_tcp
    process_tcp_preserves tcp h =
        let (result, conns, log) = track_tcp_connection jhash_3words env.track ip tcp g.conns in
        let g' = record g { conns = conns } in
        let v' = kept.track env.track ip tcp g.conns v in
        ground (arith, bypassed_preserves g v, failed_preserves g' v', process_preserves log g' v')

    process_udp_preserves :
        (udp : UdpHdr)
        → process_udp jhash_3words env skb out ip udp headers g ≡ some r
        → P r.globals.conns
    unfolding process_udp
    process_udp_preserves udp h = ground (arith, bypassed_preserves g v, process_preserves [] g v)

    dispatch_preserves : dispatch jhash_3words env skb out ip headers g ≡ some r → P r.globals.conns
    unfolding dispatch
    dispatch_preserves h =
        let other = process_preserves [] g v in
        elim (Option-cases (headers.0)) [
          | inl e ↦ elim (Option-cases (headers.1)) [
            | inl e' ↦ ground (arith, other)
            | inr (udp, e') ↦ ground (arith, other, process_udp_preserves udp)
          ]
          | inr (tcp, e) ↦ elim (Option-cases (headers.1)) [
            | inl e' ↦ ground (arith, other, process_tcp_preserves tcp)
            | inr (udp, e') ↦
                ground (arith, other, process_tcp_preserves tcp, process_udp_preserves udp)
          ]
        ]

    admit_preserves : admit jhash_3words env skb out ip headers g ≡ some r → P r.globals.conns
    unfolding admit validate_packet is_addressed
    admit_preserves h =
        ground (arith, dispatch_preserves, bypassed_preserves g v, failed_preserves g v)

  module _ (env : HookEnv) (skb : SkBuff) (g : Globals) {r : Hooked} (v : P g.conns) where
    handle_preserves : handle jhash_3words env skb g ≡ some r → P r.globals.conns
    unfolding handle
    handle_preserves h = elim (Option-cases (ull_parse_packet skb)) [
      | inl e ↦ ground arith
      | inr (parsed, e) ↦ elim (Option-cases (load_headers skb parsed.1)) [
        | inl q ↦ ground (arith, failed_preserves g v)
        | inr (found, q) ↦ ground (
          arith,
          failed_preserves g v,
          admit_preserves env skb parsed.1 found.0 found.1 g {r = r} v,
        )
      ]
    ]

    -- A call of the hook that returns preserves `P`.
    pub hook_preserves : hook jhash_3words env skb g ≡ some r → P r.globals.conns
    unfolding hook
    hook_preserves h = elim (Option-cases (skb.dev)) [
      | inl e ↦ ground (arith, bypassed_preserves g v)
      | inr (dev, e) ↦ ground (arith, bypassed_preserves g v, handle_preserves)
    ]
