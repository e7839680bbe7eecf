-- ===== src/Logic/Bidding.antt =====
-- What the application logic can have given to the driver.
use nano_net_ull.Base.{
  ℕ, ◌≡◌, ◌⊎◌, inl, inr, refl, arith, Option, none, some, List, [], ◌∷◌, Option-cases, Bool-cases,
  ◌==◌,
}
use nano_net_ull.Config.{Config}
use nano_net_ull.Debug.{Message}
use nano_net_ull.Frame.{Peer, peer_of, frame}
use nano_net_ull.Logic.{LogicEnv, Done, deliver, finish, process_application_logic}
use nano_net_ull.Order.{Decision, place, ignore, fail, process_market_data}
use nano_net_ull.Order.Decide.{IsPlacedFor, process_market_data-IsPlacedFor}
use nano_net_ull.Packet.{SkBuff}
use nano_net_ull.Pool.{Pool}
use nano_net_ull.Response.{Sent, create_response_packet, transmit, send_response}
use nano_net_ull.Response.Given.{IsGiven, send_response-IsGiven}

-- One frame, with the order that the payload at `payload` has led to, for the peer of the
-- configuration.
pub record IsBidding (env : LogicEnv) (skb : SkBuff) (payload : Option ℕ) (n : ℕ) (c : Config)
    (frames : List (List ℕ)) : Type 0 where
  pub p : ℕ
  pub at : payload ≡ some p
  pub order : List ℕ
  pub placed : IsPlacedFor env.order skb p n order
  pub peer : Peer
  pub known : peer_of c none ≡ some peer
  pub given : frames ≡ frame c peer order ∷ []

module _ (env : LogicEnv) (c : Config) (pool : Pool) {done : Done} where
  deliver-IsGiven :
      (log : List Message) (order : List ℕ)
      → deliver env c pool log order ≡ some done
      → IsGiven env.send none order c done.frames
  unfolding deliver
  deliver-IsGiven log order h = elim (Option-cases (send_response env.send none order c pool)) [
    | inl e ↦ absurd (ground arith)
    | inr (sent, e) ↦
        let given = send_response-IsGiven env.send none c pool {sent = sent} order e in
        let same : done.frames ≡ sent.frames = ground arith in rw same given
  ]

  finish-IsBidding :
      (skb : SkBuff) (p n : ℕ) (decision : Decision) (log : List Message)
      → process_market_data env.order skb (some p) n ≡ some (decision, log)
      → finish env c pool (decision, log) ≡ some done
      → (done.frames ≡ []) ⊎ IsBidding env skb (some p) n c done.frames
  unfolding finish
  finish-IsBidding skb p n (place order) log e h = elim (deliver-IsGiven log order h) [
    | inl quiet ↦ inl quiet
    | inr (peer, known, given) ↦ inr (record {
      p = p;
      at = refl;
      order = order;
      placed = process_market_data-IsPlacedFor env.order skb p n order e;
      peer = peer;
      known = known;
      given = given;
    })
  ]
  finish-IsBidding skb p n ignore log e h = inl (ground arith)
  finish-IsBidding skb p n (fail code) log e h = inl (ground arith)

  pub logic-IsBidding :
      (skb : SkBuff) (payload : Option ℕ) (n : ℕ)
      → process_application_logic env skb payload n c pool ≡ some done
      → (done.frames ≡ []) ⊎ IsBidding env skb payload n c done.frames
  unfolding process_application_logic
  logic-IsBidding skb none n h = inl (ground arith)
  logic-IsBidding skb (some p) n h =
      elim (Option-cases (process_market_data env.order skb (some p) n)) [
        | inl e ↦ inl (ground arith)
        | inr ((decision, log), e) ↦ elim (Bool-cases (n == 0)) [
          | inl empty ↦ inl (ground arith)
          | inr full ↦ elim (Bool-cases (c.application_logic_type == 0)) [
            | inl market ↦ finish-IsBidding skb p n decision log e (ground arith)
            | inr other ↦ inl (ground arith)
          ]
        ]
      ]

-- All of the configuration but the sequence number.
abbrev pub IsSettled : Config → Config → Type 0
IsSettled c c' = c' ≡ record c { seq_num = c'.seq_num }

module _ (env : LogicEnv) (c : Config) (pool : Pool) where
  send_response-IsSettled :
      (order : List ℕ) {sent : Sent}
      → send_response env.send none order c pool ≡ some sent
      → IsSettled c sent.config
  unfolding send_response transmit
  send_response-IsSettled [] h = ground arith
  send_response-IsSettled (b ∷ order) h =
      elim (Option-cases (create_response_packet env.send none (b ∷ order) c pool)) [
        | inl e ↦ absurd (ground arith)
        | inr ((made, left, log), e) ↦ elim (Option-cases made) [
          | inl q ↦ ground arith
          | inr (r, q) ↦ ground arith
        ]
      ]

  finish-IsSettled :
      (decision : Decision) (log : List Message) {done : Done}
      → finish env c pool (decision, log) ≡ some done
      → IsSettled c done.config
  unfolding finish deliver
  finish-IsSettled (place order) log {done} h =
      elim (Option-cases (send_response env.send none order c pool)) [
        | inl e ↦ absurd (ground arith)
        | inr (sent, e) ↦
            let same : done.config ≡ sent.config = ground arith in
            rw same (send_response-IsSettled order {sent = sent} e)
      ]
  finish-IsSettled ignore log h = ground arith
  finish-IsSettled (fail code) log h = ground arith

  pub logic-IsSettled :
      {done : Done} (skb : SkBuff) (payload : Option ℕ) (n : ℕ)
      → process_application_logic env skb payload n c pool ≡ some done
      → IsSettled c done.config
  unfolding process_application_logic
  logic-IsSettled skb none n h = ground arith
  logic-IsSettled {done} skb (some p) n h =
      elim (Option-cases (process_market_data env.order skb (some p) n)) [
        | inl e ↦ ground arith
        | inr ((decision, log), e) ↦
            let settled = finish-IsSettled decision log {done = done} in ground (arith, settled)
      ]
