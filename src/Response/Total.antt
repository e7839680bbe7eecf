-- ===== src/Response/Total.antt =====
-- When a response without an original packet meets no fault.
use nano_net_ull.Base.{
  ℕ, ◌+◌, ◌≤◌, ◌≡◌, ◌≢◌, ◌⊎◌, inl, inr, refl, arith, true, false, none, some, List, [], ◌∷◌,
  Option-cases, Bool-cases, length, ◌==◌, ◌||◌, replicate,
}
use nano_net_ull.Config.{Config}
use nano_net_ull.Debug.{Message}
use nano_net_ull.Frame.{Peer, peer_of, frame}
use nano_net_ull.Pool.{Pool}
use nano_net_ull.Response.{
  SendEnv, Response, is_sent, take_buffer, fill_buffer, create_response_packet, transmit,
  send_response,
}
use nano_net_ull.Response.Build.{length-frame}
use nano_net_ull.Response.Send.{total_len}

-- What `peer_of` gives without an original packet.
abbrev pub default_peer : Config → Peer
default_peer c = record {
  h_dest = replicate 6 0;
  h_source = replicate 6 0;
  daddr = c.target_ip;
  port = c.target_port;
  ack_seq = 0;
  ack = false;
}

-- The room before a frame that the buffers of the pool leave, and a driver that does not fail with a
-- buffer that it has taken over.
pub record IsSafe (env : SendEnv) (body : List ℕ) : Type 0 where
  pub room : 54 + length body + env.net_ip_align ≤ 1500
  pub driver : (is_sent env.xmit ≡ true) ⊎ (env.consumes ≡ false)

module _ (env : SendEnv) (body : List ℕ) (c : Config) (pool : Pool) (log : List Message) where
  fill_buffer_ne :
      (buffer : ℕ × ℕ)
      → env.net_ip_align + length (frame c (default_peer c) body) ≤ buffer.1
      → fill_buffer env none body c buffer pool log ≢ none
  unfolding fill_buffer peer_of
  fill_buffer_ne buffer room e = ground arith

module _ (env : SendEnv) (body : List ℕ) (c : Config) (pool : Pool) (safe : IsSafe env body)
    (known : (c.protocol ≡ 6) ⊎ (c.protocol ≡ 17)) where
  pub taken_size :
      (buffer : ℕ × ℕ)
      → (take_buffer env (total_len c body) pool).0 ≡ some buffer
      → env.net_ip_align + length (frame c (default_peer c) body) ≤ buffer.1
  unfolding take_buffer
  taken_size buffer e =
      let size = length-frame c (default_peer c) body (refl, refl) known in
      ground (arith, size, safe.room)

module _ (env : SendEnv) (body : List ℕ) (c : Config) (pool : Pool) (safe : IsSafe env body) where
  create_ne : create_response_packet env none body c pool ≢ none
  unfolding create_response_packet
  create_ne e =
      let (taken, left, log) = take_buffer env (total_len c body) pool in
      elim (Bool-cases (c.protocol == 6 || c.protocol == 17)) [
        | inr other ↦ ground arith
        | inl protocol ↦ elim (Option-cases taken) [
          | inl q ↦ ground arith
          | inr (buffer, q) ↦
              let known : (c.protocol ≡ 6) ⊎ (c.protocol ≡ 17) = ground arith in
              let filled =
                fill_buffer_ne env body c left log buffer
                  (taken_size env body c pool safe known buffer q) in
              ground (arith, filled)
        ]
      ]

  transmit_ne : (n : ℕ) (log : List Message) (r : Response) → transmit env n c pool log r ≢ none
  unfolding transmit
  transmit_ne n log r e = ground (arith, safe.driver)

pub send_response_ne :
    (env : SendEnv) (body : List ℕ) (c : Config) (pool : Pool)
    → IsSafe env body
    → send_response env none body c pool ≢ none
unfolding send_response
send_response_ne env [] c pool safe e = cc
send_response_ne env (b ∷ body) c pool safe e =
    elim (Option-cases (create_response_packet env none (b ∷ body) c pool)) [
      | inl q ↦ create_ne env (b ∷ body) c pool safe q
      | inr ((made, left, log), q) ↦ elim (Option-cases made) [
        | inl none_made ↦ ground arith
        | inr (r, made_r) ↦
            let sent = transmit_ne env (b ∷ body) c left safe (length (b ∷ body)) log r in
            ground (arith, sent)
      ]
    ]
