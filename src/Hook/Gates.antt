-- ===== src/Hook/Gates.antt =====
-- Which packets the hook takes.
use nano_net_ull.Base.{
  ℕ, ◌≡◌, ◌≢◌, ◌⊎◌, refl, sym, ◌∙◌, true, false, some, inl, inr, arith, Option-cases, Bool-cases,
}
use nano_net_ull.Config.{Config}
use nano_net_ull.Errno.{
  Code, success, einval, eprotonosupport, enomem, ebusy, eperm, eio, efault, enotty, enodev,
  enetdown, is_error,
}
use nano_net_ull.Hook.{
  Globals, HookEnv, stolen, Hooked, Headers, process_tcp, process_udp, dispatch, admit, handle,
  hook, load_headers, is_addressed,
}
use nano_net_ull.Packet.{SkBuff, IpHdr, TcpHdr, UdpHdr}
use nano_net_ull.Packet.Parse.{Parsed, ull_parse_packet}
use nano_net_ull.Validate.{validate_packet}

pub success_of_not_error : (c : Code) → is_error c ≡ false → c ≡ success
success_of_not_error success h = refl
success_of_not_error einval h = cc
success_of_not_error eprotonosupport h = cc
success_of_not_error enomem h = cc
success_of_not_error ebusy h = cc
success_of_not_error eperm h = cc
success_of_not_error eio h = cc
success_of_not_error efault h = cc
success_of_not_error enotty h = cc
success_of_not_error enodev h = cc
success_of_not_error enetdown h = cc

-- A header of the configured protocol names the configured port.
abbrev PortMatches : Config → Headers → Type 0
PortMatches c headers =
    (c.protocol ≡ 6 → (tcp : TcpHdr) → headers.0 ≡ some tcp → tcp.dest ≡ c.target_port)
    × (c.protocol ≡ 17 → (udp : UdpHdr) → headers.1 ≡ some udp → udp.dest ≡ c.target_port)

-- What lets a packet in, by its headers.
abbrev IsMeant : Config → IpHdr → Headers → Type 0
IsMeant c ip headers =
    (ip.saddr ≢ 0)
    × ((ip.daddr ≡ c.target_ip) ⊎ ((c.multicast ≡ true) × (ip.daddr ≡ c.multicast_group)))
    × PortMatches c headers

pub record IsAdmitted (skb : SkBuff) (g : Globals) : Type 0 where
  pub enabled : g.config.enabled ≡ true
  pub out : Parsed
  pub parsed : ull_parse_packet skb ≡ some (success, out)
  pub ip : IpHdr
  pub headers : Headers
  loaded : load_headers skb out ≡ some (ip, headers)
  meant : IsMeant g.config ip headers

module _ (jhash_3words : ℕ → ℕ → ℕ → ℕ → ℕ) (env : HookEnv) (skb : SkBuff) (out : Parsed)
    (ip : IpHdr) (headers : Headers) (g : Globals) {r : Hooked} where
  dispatch-PortMatches :
      dispatch jhash_3words env skb out ip headers g ≡ some r
      → r.verdict ≡ stolen
      → PortMatches g.config headers
  unfolding dispatch process_tcp process_udp
  dispatch-PortMatches h taken = elim (Option-cases (headers.0)) [
    | inl e ↦ elim (Option-cases (headers.1)) [
      | inl e' ↦ ground arith
      | inr (udp, e') ↦ ground arith
    ]
    | inr (tcp, e) ↦ elim (Option-cases (headers.1)) [
      | inl e' ↦ ground arith
      | inr (udp, e') ↦ ground arith
    ]
  ]

  admit-IsMeant :
      admit jhash_3words env skb out ip headers g ≡ some r
      → r.verdict ≡ stolen
      → IsMeant g.config ip headers
  unfolding admit validate_packet is_addressed
  admit-IsMeant h taken = ground (arith, dispatch-PortMatches)

module _ (jhash_3words : ℕ → ℕ → ℕ → ℕ → ℕ) (env : HookEnv) (skb : SkBuff) (g : Globals)
    {r : Hooked} where
  handle-IsAdmitted :
      handle jhash_3words env skb g ≡ some r
      → r.verdict ≡ stolen
      → g.config.enabled ≡ true
      → IsAdmitted skb g
  unfolding handle
  handle-IsAdmitted h taken on = elim (Option-cases (ull_parse_packet skb)) [
    | inl e ↦ absurd (ground arith)
    | inr (parsed, e) ↦ elim (Bool-cases (is_error (parsed.0))) [
      | inl bad ↦ absurd (ground arith)
      | inr good ↦ elim (Option-cases (load_headers skb parsed.1)) [
        | inl q ↦ absurd (ground arith)
        | inr (found, q) ↦ record {
          enabled = on;
          out = parsed.1;
          parsed = e ∙ rw (sym (success_of_not_error parsed.0 good)) refl;
          ip = found.0;
          headers = found.1;
          loaded = q;
          meant =
              admit-IsMeant jhash_3words env skb parsed.1 found.0 found.1 g {r = r} (ground arith)
                taken;
        }
      ]
    ]
  ]

  -- A packet that the hook takes arrives while the module is enabled, is parsed with success, comes
  -- from a nonzero address, is sent to the target address or, where multicast is configured, to the
  -- group, and, where it is of the configured protocol, to the configured port.
  pub hook-IsAdmitted : hook jhash_3words env skb g ≡ some r → r.verdict ≡ stolen → IsAdmitted skb g
  unfolding hook
  hook-IsAdmitted h taken = elim (Option-cases (skb.dev)) [
    | inl e ↦ absurd (ground arith)
    | inr (dev, e) ↦ elim (Bool-cases (g.config.enabled)) [
      | inl on ↦ handle-IsAdmitted (ground arith) taken on
      | inr off ↦ absurd (ground arith)
    ]
  ]
