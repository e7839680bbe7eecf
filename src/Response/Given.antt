-- ===== src/Response/Given.antt =====
-- What a call of `nanonet_send_response` can have given to the driver.
use nano_net_ull.Base.{
  ℕ, ◌≡◌, ◌⊎◌, inl, inr, arith, Option, some, List, [], ◌∷◌, Option-cases, length,
}
use nano_net_ull.Config.{Config}
use nano_net_ull.Debug.{Message}
use nano_net_ull.Frame.{Peer, peer_of, frame}
use nano_net_ull.Packet.{SkBuff}
use nano_net_ull.Pool.{Pool}
use nano_net_ull.Response.{
  SendEnv, Response, Sent, take_buffer, fill_buffer, create_response_packet, transmit,
  send_response,
}
use nano_net_ull.Response.Send.{total_len}

module _ (env : SendEnv) (orig : Option SkBuff) (body : List ℕ) (c : Config) where
  -- The bytes are the frame for the peer.
  abbrev IsFrame : List ℕ → Type 0
  IsFrame bytes = (peer : Peer) × (peer_of c orig ≡ some peer) × (bytes ≡ frame c peer body)

  fill_buffer-IsFrame :
      (buffer : ℕ × ℕ) (pool pool' : Pool) (log log' : List Message) {made : Response}
      → fill_buffer env orig body c buffer pool log ≡ some (some made, pool', log')
      → IsFrame made.bytes
  unfolding fill_buffer
  fill_buffer-IsFrame buffer pool pool' log log' h = elim (Option-cases (peer_of c orig)) [
    | inl e ↦ absurd (ground arith)
    | inr (peer, e) ↦ (peer, e, ground arith)
  ]

  create-IsFrame :
      (pool pool' : Pool) (log : List Message) {made : Response}
      → create_response_packet env orig body c pool ≡ some (some made, pool', log)
      → IsFrame made.bytes
  unfolding create_response_packet
  create-IsFrame pool pool' log {made} h =
      let (taken, left, log') = take_buffer env (total_len c body) pool in
      elim (Option-cases taken) [
        | inl e ↦ absurd (ground arith)
        | inr (buffer, e) ↦
            fill_buffer-IsFrame buffer left pool' log' log {made = made} (ground arith)
      ]

  transmit-frames :
      (n : ℕ) (pool : Pool) (log : List Message) (r : Response) {sent : Sent}
      → transmit env n c pool log r ≡ some sent
      → sent.frames ≡ r.bytes ∷ []
  unfolding transmit
  transmit-frames n pool log r h = ground arith

  -- No frame, or the frame for the peer.
  abbrev pub IsGiven : List (List ℕ) → Type 0
  IsGiven frames =
      (frames ≡ [])
      ⊎ ((peer : Peer) × (peer_of c orig ≡ some peer) × (frames ≡ frame c peer body ∷ []))

module _ (env : SendEnv) (orig : Option SkBuff) (c : Config) (pool : Pool) {sent : Sent} where
  pub send_response-IsGiven :
      (body : List ℕ)
      → send_response env orig body c pool ≡ some sent
      → IsGiven env orig body c sent.frames
  unfolding send_response
  send_response-IsGiven [] h = inl (ground arith)
  send_response-IsGiven (b ∷ body) h =
      elim (Option-cases (create_response_packet env orig (b ∷ body) c pool)) [
        | inl e ↦ absurd (ground arith)
        | inr ((made, left, log), e) ↦ elim (Option-cases made) [
          | inl none_made ↦ inl (ground arith)
          | inr (r, made_r) ↦
              let (peer, known, same) =
                create-IsFrame env orig (b ∷ body) c pool left log {made = r} (ground arith) in
              let given =
                transmit-frames env orig (b ∷ body) c (length (b ∷ body)) left log r {sent = sent}
                  (ground arith) in
              inr (peer, known, ground (arith, same, given))
        ]
      ]
