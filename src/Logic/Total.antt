-- ===== src/Logic/Total.antt =====
-- When the application logic meets no fault.
use nano_net_ull.Base.{
  ℕ, ◌+◌, ◌≤◌, ◌≡◌, ◌≢◌, ◌⊎◌, inl, inr, refl, arith, true, false, Option, none, some, List,
  Option-cases, length,
}
use nano_net_ull.Config.{Config}
use nano_net_ull.Debug.{Message}
use nano_net_ull.Logic.{LogicEnv, deliver, finish, process_application_logic}
use nano_net_ull.Order.{Decision, place, ignore, fail, process_market_data}
use nano_net_ull.Order.Decide.{process_market_data-IsPlacedFor, process_market_data-place}
use nano_net_ull.Packet.{SkBuff, len}
use nano_net_ull.Pool.{Pool}
use nano_net_ull.Response.{is_sent, send_response}
use nano_net_ull.Response.Total.{IsSafe, send_response_ne}

-- What the code relies on: `kmalloc` gives the bytes that it is asked for, `NET_IP_ALIGN` leaves room
-- in the buffers of the pool, and the driver does not fail with a buffer that it has taken over.
pub record IsCalm (env : LogicEnv) : Type 0 where
  pub whole : (memory : List ℕ) → env.order.block ≡ some memory → length memory ≡ 41
  pub room : 95 + env.send.net_ip_align ≤ 1500
  pub driver : (is_sent env.send.xmit ≡ true) ⊎ (env.send.consumes ≡ false)

module _ (env : LogicEnv) (calm : IsCalm env) (skb : SkBuff) (p n : ℕ) (inside : p + n ≤ len skb)
    (c : Config) (pool : Pool) where
  market_ne : process_market_data env.order skb (some p) n ≢ none
  unfolding process_market_data
  market_ne e = ground arith

  placed-size :
      (order : List ℕ) (log : List Message)
      → process_market_data env.order skb (some p) n ≡ some (place order, log)
      → length order ≡ 41
  placed-size order log e =
      let placed = process_market_data-IsPlacedFor env.order skb p n order e in
      let bid =
        process_market_data-place env.order skb p n inside placed.enough placed.memory placed.block
          (calm.whole placed.memory placed.block) placed.low in
      rw placed.same bid.1.size

  deliver_ne :
      (log : List Message) (order : List ℕ)
      → length order ≡ 41
      → deliver env c pool log order ≢ none
  unfolding deliver
  deliver_ne log order size e =
      let safe : IsSafe env.send order = record {
        room = omega (arith, calm.room, size);
        driver = calm.driver;
      } in
      elim (Option-cases (send_response env.send none order c pool)) [
        | inl q ↦ send_response_ne env.send order c pool safe q
        | inr (sent, q) ↦ ground arith
      ]

  finish_ne :
      (decision : Decision) (log : List Message)
      → process_market_data env.order skb (some p) n ≡ some (decision, log)
      → finish env c pool (decision, log) ≢ none
  unfolding finish
  finish_ne (place order) log q e = deliver_ne log order (placed-size order log q) e
  finish_ne ignore log q e = cc
  finish_ne (fail code) log q e = cc

  logic_ne : process_application_logic env skb (some p) n c pool ≢ none
  unfolding process_application_logic
  logic_ne e = elim (Option-cases (process_market_data env.order skb (some p) n)) [
    | inl q ↦ market_ne q
    | inr ((decision, log), q) ↦ let done = finish_ne decision log q in ground (arith, done)
  ]

pub process_application_logic_ne :
    (env : LogicEnv) (skb : SkBuff) (payload : Option ℕ) (n : ℕ) (c : Config) (pool : Pool)
    → IsCalm env
    → ((p : ℕ) → payload ≡ some p → p + n ≤ len skb)
    → process_application_logic env skb payload n c pool ≢ none
unfolding process_application_logic
process_application_logic_ne env skb none n c pool calm inside e = cc
process_application_logic_ne env skb (some p) n c pool calm inside e =
    logic_ne env calm skb p n (inside p refl) c pool e
