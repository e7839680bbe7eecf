-- ===== src/Logic/Result.antt =====
-- What the application logic can return.
use nano_net_ull.Base.{
  ◌⊎◌, inl, inr, refl, ℕ, ◌≡◌, ◌≢◌, Option, none, some, List, [], ◌∷◌, arith, ap, Option-cases,
  Bool-cases, ◌==◌, if◌then◌else◌,
}
use nano_net_ull.Config.{Config}
use nano_net_ull.Debug.{Message}
use nano_net_ull.Errno.{Code, success, einval, eio}
use nano_net_ull.Logic.{
  Return, code, positive, LogicEnv, Done, deliver, finish, process_application_logic,
}
use nano_net_ull.Order.{Decision, place, ignore, fail, process_market_data}
use nano_net_ull.Packet.{SkBuff, ◌>>=◌}
use nano_net_ull.Pool.{Pool}
use nano_net_ull.Response.{Sent, is_sent, create_response_packet, transmit, send_response}

pub Return-cases : (r : Return) → ((c : Code) × (r ≡ code c)) ⊎ ((k : ℕ) × (r ≡ positive k))
Return-cases (code c) = inl (c, refl)
Return-cases (positive k) = inr (k, refl)

module _ (env : LogicEnv) (c : Config) (pool : Pool) {done : Done} where
  deliver-code :
      (log : List Message) (order : List ℕ)
      → deliver env c pool log order ≡ some done
      → (k : ℕ) → done.result ≢ positive k
  unfolding deliver
  deliver-code log order h k = ground arith

  finish-code :
      (m : Option (Decision × List Message))
      → (m >>= λ d. finish env c pool d) ≡ some done
      → (k : ℕ) → done.result ≢ positive k
  unfolding finish
  finish-code none h k = cc
  finish-code (some (place order, log)) h k = deliver-code log order h k
  finish-code (some (ignore, log)) h k = ground arith
  finish-code (some (fail e, log)) h k = ground arith

  -- The application logic never returns a positive number.
  pub process_application_logic-code :
      (skb : SkBuff) (payload : Option ℕ) (n : ℕ)
      → process_application_logic env skb payload n c pool ≡ some done
      → (k : ℕ) → done.result ≢ positive k
  unfolding process_application_logic
  process_application_logic-code skb none n h k = ground arith
  process_application_logic-code skb (some p) n h k = ground (
    arith,
    λ (e : (process_market_data env.order skb (some p) n >>= λ d. finish env c pool d) ≡ some done).
        finish-code (process_market_data env.order skb (some p) n) e k,
  )

-- Nothing was sent and the result is a code, or one frame was, and the result is 0 where the driver has
-- taken it, and the code of an I/O error where it has not.
abbrev pub IsReturned : LogicEnv → List (List ℕ) → Return → Type 0
IsReturned env frames result =
    ((frames ≡ []) × ((e : Code) × (result ≡ code e)))
    ⊎ ((f : List ℕ) × (frames ≡ f ∷ [])
        × (result ≡ code (if is_sent env.send.xmit then success else eio)))

module _ (env : LogicEnv) (c : Config) (pool : Pool) where
  send_response-IsReturned :
      (order : List ℕ) {sent : Sent}
      → send_response env.send none order c pool ≡ some sent
      → IsReturned env sent.frames (code sent.code)
  unfolding send_response transmit
  send_response-IsReturned [] h = inl (ground arith, (_, refl))
  send_response-IsReturned (b ∷ order) {sent} h =
      elim (Option-cases (create_response_packet env.send none (b ∷ order) c pool)) [
        | inl e ↦ absurd (ground arith)
        | inr ((made, left, log), e) ↦ elim (Option-cases made) [
          | inl q ↦ inl (ground arith, (_, refl))
          | inr (r, q) ↦ inr (r.bytes, ground arith, ap code (ground arith))
        ]
      ]

  finish-IsReturned :
      (decision : Decision) (log : List Message) {done : Done}
      → finish env c pool (decision, log) ≡ some done
      → IsReturned env done.frames done.result
  unfolding finish deliver
  finish-IsReturned (place order) log {done} h =
      elim (Option-cases (send_response env.send none order c pool)) [
        | inl e ↦ absurd (ground arith)
        | inr (sent, e) ↦
            let frames : done.frames ≡ sent.frames = ground arith in
            let result : done.result ≡ code sent.code = ground arith in
            rw (frames, result) (send_response-IsReturned order {sent = sent} e)
      ]
  finish-IsReturned ignore log h = inl (ground arith, (success, ground arith))
  finish-IsReturned (fail e) log h = inl (ground arith, (e, ground arith))

  -- A call of the application logic that has sent nothing returns a code; one that has sent an order
  -- returns 0 where the driver has taken the frame, and -EIO where it has not. So it never returns a
  -- positive number, which the hook would count as a response.
  pub process_application_logic-IsReturned :
      {done : Done} (skb : SkBuff) (payload : Option ℕ) (n : ℕ)
      → process_application_logic env skb payload n c pool ≡ some done
      → IsReturned env done.frames done.result
  unfolding process_application_logic
  process_application_logic-IsReturned skb none n h = inl (ground arith, (success, ground arith))
  process_application_logic-IsReturned {done} skb (some p) n h = elim (Bool-cases (n == 0)) [
    | inl empty ↦ inl (ground arith, (success, ground arith))
    | inr full ↦ elim (Bool-cases (c.application_logic_type == 0)) [
      | inr other ↦ inl (ground arith, (einval, ground arith))
      | inl market ↦ elim (Option-cases (process_market_data env.order skb (some p) n)) [
        | inl e ↦ absurd (ground arith)
        | inr ((decision, log), e) ↦ finish-IsReturned decision log {done = done} (ground arith)
      ]
    ]
  ]
