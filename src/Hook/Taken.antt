-- ===== src/Hook/Taken.antt =====
-- The two ways of a packet through the hook: it is let through, or the application logic runs.
use nano_net_ull.Base.{
  ℕ, ◌≡◌, ◌⊎◌, refl, sym, ◌∙◌, inl, inr, arith, some, List, [], Option-cases, Bool-cases, ◌==◌,
}
use nano_net_ull.Conn.{Connections, track_tcp_connection}
use nano_net_ull.Debug.{Message}
use nano_net_ull.Errno.{is_error, success}
use nano_net_ull.Hook.{
  Globals, HookEnv, Hooked, Headers, process, process_tcp, process_udp, dispatch, admit, handle,
  hook, load_headers, is_addressed,
}
use nano_net_ull.Hook.Gates.{success_of_not_error}
use nano_net_ull.Packet.{SkBuff, IpHdr, TcpHdr, UdpHdr}
use nano_net_ull.Packet.Parse.{Parsed, ull_parse_packet}
use nano_net_ull.Validate.{validate_packet}

-- Nothing is sent and the configuration stays.
abbrev IsQuiet : Globals → Hooked → Type 0
IsQuiet g r = (r.frames ≡ []) × (r.globals.config ≡ g.config)

-- The last part of the hook has run, with the table as the tracking has left it.
pub record IsTaken (env : HookEnv) (skb : SkBuff) (out : Parsed) (g : Globals) (r : Hooked)
    : Type 0 where
  pub ip : IpHdr
  pub headers : Headers
  pub log : List Message
  pub conns : Connections
  pub ran : process env skb out ip headers log (record g { conns = conns }) ≡ some r

module _ (jhash_3words : ℕ → ℕ → ℕ → ℕ → ℕ) (env : HookEnv) (skb : SkBuff) (out : Parsed)
    (ip : IpHdr) (headers : Headers) where
  abbrev IsQuietOr : Globals → Hooked → Type 0
  IsQuietOr g r = IsQuiet g r ⊎ IsTaken env skb out g r

  process-IsTaken :
      (log : List Message) (conns : Connections) (g : Globals) {r : Hooked}
      → process env skb out ip headers log (record g { conns = conns }) ≡ some r
      → IsQuietOr g r
  process-IsTaken log conns g h =
      inr (record { ip = ip; headers = headers; log = log; conns = conns; ran = h })

  process_tcp-IsQuietOr :
      (tcp : TcpHdr) (g : Globals) {r : Hooked}
      → process_tcp jhash_3words env skb out ip tcp headers g ≡ some r
      → IsQuietOr g r
  unfolding process_tcp
  process_tcp-IsQuietOr tcp g {r} h =
      let (result, conns, log) = track_tcp_connection jhash_3words env.track ip tcp g.conns in
      elim (Bool-cases (is_error result)) [
        | inl bad ↦ inl (ground arith, ground arith)
        | inr good ↦ elim (Bool-cases (tcp.dest == g.config.target_port)) [
          | inl same ↦ process-IsTaken log conns g {r = r} (ground arith)
          | inr other ↦ inl (ground arith, ground arith)
        ]
      ]

  process_udp-IsQuietOr :
      (udp : UdpHdr) (g : Globals) {r : Hooked}
      → process_udp jhash_3words env skb out ip udp headers g ≡ some r
      → IsQuietOr g r
  unfolding process_udp
  process_udp-IsQuietOr udp g {r} h = elim (Bool-cases (udp.dest == g.config.target_port)) [
    | inl same ↦ process-IsTaken [] g.conns g {r = r} (ground arith)
    | inr other ↦ inl (ground arith, ground arith)
  ]

  dispatch-IsQuietOr :
      (g : Globals) {r : Hooked}
      → dispatch jhash_3words env skb out ip headers g ≡ some r
      → IsQuietOr g r
  unfolding dispatch
  dispatch-IsQuietOr g {r} h = elim (Bool-cases (g.config.protocol == 6)) [
    | inl tcp_protocol ↦ elim (Option-cases headers.0) [
      | inl e ↦ process-IsTaken [] g.conns g {r = r} (ground arith)
      | inr (tcp, e) ↦ process_tcp-IsQuietOr tcp g {r = r} (ground arith)
    ]
    | inr no_tcp ↦ elim (Bool-cases (g.config.protocol == 17)) [
      | inl udp_protocol ↦ elim (Option-cases headers.1) [
        | inl e ↦ process-IsTaken [] g.conns g {r = r} (ground arith)
        | inr (udp, e) ↦ process_udp-IsQuietOr udp g {r = r} (ground arith)
      ]
      | inr no_udp ↦ process-IsTaken [] g.conns g {r = r} (ground arith)
    ]
  ]

  admit-IsQuietOr :
      (g : Globals) {r : Hooked}
      → admit jhash_3words env skb out ip headers g ≡ some r
      → IsQuietOr g r
  unfolding admit
  admit-IsQuietOr g {r} h =
      let (checked, log) = validate_packet env.allowed ip in
      elim (Bool-cases (is_error checked)) [
        | inl bad ↦ inl (ground arith, ground arith)
        | inr good ↦ elim (Bool-cases (is_addressed g.config ip)) [
          | inl meant ↦ dispatch-IsQuietOr g {r = r} (ground arith)
          | inr other ↦ inl (ground arith, ground arith)
        ]
      ]

-- The packet was parsed with success, and then taken.
pub record IsProcessed (env : HookEnv) (skb : SkBuff) (g : Globals) (r : Hooked) : Type 0 where
  pub out : Parsed
  pub parsed : ull_parse_packet skb ≡ some (success, out)
  pub taken : IsTaken env skb out g r

module _ (jhash_3words : ℕ → ℕ → ℕ → ℕ → ℕ) (env : HookEnv) (skb : SkBuff) (g : Globals)
    {r : Hooked} where
  handle-IsProcessed :
      handle jhash_3words env skb g ≡ some r → IsQuiet g r ⊎ IsProcessed env skb g r
  unfolding handle
  handle-IsProcessed h = elim (Option-cases (ull_parse_packet skb)) [
    | inl e ↦ absurd (ground arith)
    | inr (parsed, e) ↦ elim (Bool-cases (is_error (parsed.0))) [
      | inl bad ↦ inl (ground arith, ground arith)
      | inr good ↦ elim (Option-cases (load_headers skb parsed.1)) [
        | inl q ↦ absurd (ground arith)
        | inr (found, q) ↦
            elim (admit-IsQuietOr jhash_3words env skb parsed.1 found.0 found.1 g {r = r}
              (ground arith)) [
                | inl quiet ↦ inl quiet
                | inr taken ↦ inr (record {
                  out = parsed.1;
                  parsed = e ∙ rw (sym (success_of_not_error parsed.0 good)) refl;
                  taken = taken;
                })
              ]
      ]
    ]
  ]

  pub hook-IsProcessed :
      hook jhash_3words env skb g ≡ some r → IsQuiet g r ⊎ IsProcessed env skb g r
  unfolding hook
  hook-IsProcessed h = elim (Option-cases (skb.dev)) [
    | inl e ↦ inl (ground arith, ground arith)
    | inr (dev, e) ↦ elim (Bool-cases (g.config.enabled)) [
      | inl on ↦ handle-IsProcessed (ground arith)
      | inr off ↦ inl (ground arith, ground arith)
    ]
  ]
