-- ===== src/Hook/Only.antt =====
-- The only frames that the hook sends, and what it leaves of the configuration.
use nano_net_ull.Base.{ℕ, ◌≡◌, ◌⊎◌, inl, inr, refl, arith, some, List, [], Option-cases}
use nano_net_ull.Debug.{Message}
use nano_net_ull.Errno.{success}
use nano_net_ull.Hook.{Globals, HookEnv, Hooked, Headers, process, hook, ports}
use nano_net_ull.Hook.Taken.{hook-IsProcessed}
use nano_net_ull.Logic.{Done, process_application_logic}
use nano_net_ull.Logic.Bidding.{IsBidding, logic-IsBidding, IsSettled, logic-IsSettled}
use nano_net_ull.Packet.{SkBuff, IpHdr}
use nano_net_ull.Packet.Parse.{Parsed, ull_parse_packet}

module _ (env : HookEnv) (skb : SkBuff) (out : Parsed) (ip : IpHdr) (headers : Headers)
    (log : List Message) (g : Globals) {r : Hooked} where
  -- The call of the application logic, whose frames and configuration the hook passes on.
  process-Done :
      process env skb out ip headers log g ≡ some r
      → (done : Done) × (process_application_logic env.logic skb out.payload out.payload_len
            g.config g.pool
          ≡ some done)
        × (r.frames ≡ done.frames)
        × (r.globals.config ≡ done.config)
  unfolding process
  process-Done h =
      elim (Option-cases
        (process_application_logic env.logic skb out.payload out.payload_len g.config g.pool)) [
          | inl e ↦ absurd (ground arith)
          | inr (done, e) ↦ elim (Option-cases (ports headers)) [
            | inl q ↦ absurd (ground arith)
            | inr (p, q) ↦ (done, e, ground arith, ground arith)
          ]
        ]

-- A packet that was parsed, and the frame for its payload.
pub record IsSending (env : HookEnv) (skb : SkBuff) (g : Globals) (frames : List (List ℕ))
    : Type 0 where
  pub out : Parsed
  pub parsed : ull_parse_packet skb ≡ some (success, out)
  pub bidding : IsBidding env.logic skb out.payload out.payload_len g.config frames

module _ (jhash_3words : ℕ → ℕ → ℕ → ℕ → ℕ) (env : HookEnv) (skb : SkBuff) (g : Globals)
    {r : Hooked} where
  -- A call of the hook that returns has given the driver no frame, or exactly one: then the packet was
  -- parsed with success, its payload has 24 bytes or more and a price below 10000, `kmalloc` gave a
  -- block, and the frame holds the order for this payload, for the peer of the configuration.
  pub hook-IsSending :
      hook jhash_3words env skb g ≡ some r → (r.frames ≡ []) ⊎ IsSending env skb g r.frames
  hook-IsSending h = elim (hook-IsProcessed jhash_3words env skb g {r = r} h) [
    | inl (quiet, same) ↦ inl quiet
    | inr p ↦
        let t = p.taken in
        let (done, run, frames, config) =
          process-Done env skb p.out t.ip t.headers t.log (record g { conns = t.conns }) {r = r}
            t.ran in
        elim (logic-IsBidding env.logic g.config g.pool {done = done} skb p.out.payload
          p.out.payload_len run) [
            | inl quiet ↦ inl (rw frames quiet)
            | inr bidding ↦
                inr (record { out = p.out; parsed = p.parsed; bidding = rw frames bidding })
          ]
  ]

  pub hook-IsSettled : hook jhash_3words env skb g ≡ some r → IsSettled g.config r.globals.config
  hook-IsSettled h = elim (hook-IsProcessed jhash_3words env skb g {r = r} h) [
    | inl (quiet, same) ↦ rw same refl
    | inr p ↦
        let t = p.taken in
        let (done, run, frames, config) =
          process-Done env skb p.out t.ip t.headers t.log (record g { conns = t.conns }) {r = r}
            t.ran in
        rw config (
          logic-IsSettled env.logic g.config g.pool {done = done} skb p.out.payload
            p.out.payload_len run)
  ]
