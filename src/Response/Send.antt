-- ===== src/Response/Send.antt =====
-- What a call of `nanonet_send_response` leaves, by what the driver does.
use nano_net_ull.Base.{
  ℕ, ◌+◌, ◌≤◌, ◌<◌, ◌≡◌, ◌≢◌, ◌⊎◌, true, false, Option, none, some, List, [], ◌∷◌, ◌++◌, arith,
  length, u32, ◌==◌, if◌then◌else◌,
}
use nano_net_ull.Config.{Config}
use nano_net_ull.Debug.{Message}
use nano_net_ull.Errno.{success}
use nano_net_ull.Packet.{SkBuff}
use nano_net_ull.Pool.{Pool}
use nano_net_ull.Frame.{Peer, peer_of, frame}
use nano_net_ull.Response.{
  SendEnv, Response, create_response_packet, take_buffer, fill_buffer, device, transmit, is_sent,
  send_response,
}

-- The length of the frame, as the code computes it.
abbrev pub total_len : Config → List ℕ → ℕ
total_len c body = 14 + 20 + (if c.protocol == 6 then 20 else 8) + length body

-- The frame reaches the driver: the target is set, the protocol is known, a buffer with room and a
-- device are at hand.
pub record IsReady (env : SendEnv) (orig : Option SkBuff) (c : Config) (pool : Pool) (peer : Peer)
    (body : List ℕ) : Type 0 where
  pub target : c.response_ip ≢ 0
  pub port : c.response_port ≢ 0
  pub known : (c.protocol ≡ 6) ⊎ (c.protocol ≡ 17)
  pub peer_found : peer_of c orig ≡ some peer
  pub buffer : ℕ
  pub size : ℕ
  pub pool_after : Pool
  pub log_before : List Message
  pub taken :
      take_buffer env (total_len c body) pool ≡ (some (buffer, size), pool_after, log_before)
  pub room : env.net_ip_align + length (frame c peer body) ≤ size
  pub dev : ℕ
  pub dev_found : device env orig ≡ some dev

module _ {env : SendEnv} {orig : Option SkBuff} {c : Config} {pool : Pool} {peer : Peer} {b : ℕ}
    {body : List ℕ} (ready : IsReady env orig c pool peer (b ∷ body)) where
  abbrev made : Response
  made = record { buffer = ready.buffer; bytes = frame c peer (b ∷ body); dev = ready.dev }

  fill_buffer-made :
      fill_buffer env orig (b ∷ body) c (ready.buffer, ready.size) ready.pool_after ready.log_before
      ≡ some (some made, ready.pool_after, ready.log_before)
  unfolding fill_buffer
  fill_buffer-made = rw (ready.peer_found) (ground (arith, ready.room, ready.dev_found))

  create-made :
      create_response_packet env orig (b ∷ body) c pool
      ≡ some (some made, ready.pool_after, ready.log_before)
  unfolding create_response_packet
  create-made = ground (arith, ready.target, ready.port, ready.known, ready.taken, fill_buffer-made)

  -- Where the driver takes the frame, the call succeeds, the driver has been given the frame of the
  -- configuration, and the sequence number has grown by the length of the body, modulo 2 ^ 32.
  send_response-sends :
      is_sent env.xmit ≡ true
      → send_response env orig (b ∷ body) c pool
        ≡ some (record {
          code = success;
          config = record c { seq_num = u32 (c.seq_num + length (b ∷ body)) };
          pool = ready.pool_after;
          log = ready.log_before ++ [];
          frames = frame c peer (b ∷ body) ∷ [];
        })
  unfolding send_response transmit
  send_response-sends ok = rw (create-made) (ground arith)

  -- Where the driver reports a failure and, as the kernel documents for every result, has taken the
  -- buffer over, the call releases the buffer a second time.
  pub send_response-double_free :
      is_sent env.xmit ≡ false
      → env.consumes ≡ true
      → send_response env orig (b ∷ body) c pool ≡ none
  unfolding send_response transmit
  send_response-double_free bad gone = rw (create-made) (ground arith)

-- The same for any body that is not empty.
pub send_response-sends_all :
    {env : SendEnv} {orig : Option SkBuff} {c : Config} {pool : Pool} {peer : Peer} (body : List ℕ)
    (ready : IsReady env orig c pool peer body)
    → 0 < length body
    → is_sent env.xmit ≡ true
    → send_response env orig body c pool
      ≡ some (record {
        code = success;
        config = record c { seq_num = u32 (c.seq_num + length body) };
        pool = ready.pool_after;
        log = ready.log_before ++ [];
        frames = frame c peer body ∷ [];
      })
send_response-sends_all [] ready long ok = absurd (omega arith)
send_response-sends_all (b ∷ body) ready long ok = send_response-sends ready ok
