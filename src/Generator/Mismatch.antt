-- ===== src/Generator/Mismatch.antt =====
-- The generator's packets as the module reads them.
use nano_net_ull.Base.{ℕ, ◌+◌, ◌≡◌, inl, inr, arith, some, List, [], ◌++◌, length}
use nano_net_ull.Base.{get_or, get_or-append_right, get_or-append_left, ◌∙◌, refl, ◌<◌}
use nano_net_ull.Generator.{market_packet}
use nano_net_ull.Errno.{success}
use nano_net_ull.Hook.{Globals, HookEnv, Hooked, hook}
use nano_net_ull.Hook.Only.{hook-IsSending}
use nano_net_ull.Order.Decide.{offered}
use nano_net_ull.Packet.{SkBuff}
use nano_net_ull.Packet.Parse.{Parsed, ull_parse_packet}

length-market_packet : (seconds i : ℕ) → length (market_packet seconds i) ≡ 24
unfolding market_packet
length-market_packet seconds i = refl

byte_of_price :
    (front back : List ℕ) (seconds i j k : ℕ)
    → j ≡ length front + k
    → k < 24
    → get_or (front ++ (market_packet seconds i ++ back)) j 0 ≡ get_or (market_packet seconds i) k 0
byte_of_price front back seconds i j k e h =
    get_or-append_right front (market_packet seconds i ++ back) j k 0 e
    ∙ get_or-append_left (market_packet seconds i) back k 0
        (omega (arith, length-market_packet seconds i))

price_bytes :
    (seconds i : ℕ)
    → (get_or (market_packet seconds i) 8 0 ≡ 0)
      × (get_or (market_packet seconds i) 9 0 ≡ 0)
      × (get_or (market_packet seconds i) 10 0 ≡ 39)
      × (get_or (market_packet seconds i) 11 0 ≡ 15)
unfolding market_packet
price_bytes seconds i = (refl, refl, refl, refl)

-- The price as the module reads it, wherever the datagram stands in the packet.
price-market_packet :
    (skb : SkBuff) (front back : List ℕ) (seconds i : ℕ)
    → skb.bytes ≡ front ++ (market_packet seconds i ++ back)
    → offered skb (length front) ≡ 254214144
price-market_packet skb front back seconds i e =
    let p = length front in
    let b = price_bytes seconds i in
    rw e (
      omega (
        arith,
        b,
        byte_of_price front back seconds i (p + 8) 8 refl (omega arith),
        byte_of_price front back seconds i (p + 8 + 1) 9 (omega arith) (omega arith),
        byte_of_price front back seconds i (p + 8 + 2) 10 (omega arith) (omega arith),
        byte_of_price front back seconds i (p + 8 + 2 + 1) 11 (omega arith) (omega arith),
      ))

module _ (jhash_3words : ℕ → ℕ → ℕ → ℕ → ℕ) (env : HookEnv) (skb : SkBuff) (g : Globals) where
  -- No datagram of the generator is answered, whatever headers and settings it arrives with: where the
  -- payload that the parser finds begins with one, and the hook returns, no frame has been sent. The
  -- price of 9999 is in network order, and the module reads it as 254214144.
  pub hook-market_packet :
      (front back : List ℕ) (seconds i : ℕ) (out : Parsed) {r : Hooked}
      → skb.bytes ≡ front ++ (market_packet seconds i ++ back)
      → ull_parse_packet skb ≡ some (success, out)
      → out.payload ≡ some (length front)
      → hook jhash_3words env skb g ≡ some r
      → r.frames ≡ []
  hook-market_packet front back seconds i out {r} e parsed at h =
      elim (hook-IsSending jhash_3words env skb g {r = r} h) [
        | inl quiet ↦ quiet
        | inr sending ↦
            let high = price-market_packet skb front back seconds i e in
            let low = sending.bidding.placed.low in
            let same : sending.out ≡ out = cc in
            let place : sending.bidding.p ≡ length front = cc in
            let same_price : offered skb sending.bidding.p ≡ offered skb (length front) =
              rw place refl in
            absurd (omega (arith, high, low, same_price))
      ]
