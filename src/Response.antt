-- ===== src/Response.antt =====
-- src/response_sender.c, and `nanonet_raw_send` of src/optimizations.c.
-- `none` is a fault: a load outside the original packet, the panic of `skb_put` where the buffer has
-- no room, or the second release of a buffer.
pub mod Build
pub mod Send
pub mod Given
pub mod Total
pub mod Deliver
use nano_net_ull.Base.{
  ℕ, ◌+◌, ◌*◌, ◌/◌, ◌%◌, ◌^◌, Bool, true, false, not, Option, none, some, List, [], ◌∷◌, ◌++◌,
}
use nano_net_ull.Base.{
  length, leb, ltb, ◌==◌, ◌||◌, if◌then◌else◌, replicate, swap16, swap32, u16, u32,
}
use nano_net_ull.Checksum.{compute_checksum}
use nano_net_ull.Config.{Config}
use nano_net_ull.Debug.{
  Message, bad_response, bad_response_target, response_protocol, skb_alloc_failed, no_device,
  xmit_failed, xmit_refused, bad_raw_send,
}
use nano_net_ull.Errno.{Code, is_error, success, einval, eio, enomem}
use nano_net_ull.Order.{store16, store32}
use nano_net_ull.Packet.{
  SkBuff, ◌>>=◌, load8, load16, load32, region, sizeof_ethhdr, sizeof_iphdr, sizeof_tcphdr,
  sizeof_udphdr, eth_p_ip, ipproto_tcp, ipproto_udp,
}
use nano_net_ull.Pool.{Pool, get_response_skb}
use nano_net_ull.Frame.{
  Peer, peer_of, eth_header, ip_front, ip_back, ip_header, tcp_header, udp_header, frame,
}

-- The result of `dev_queue_xmit` and of `nanonet_raw_send`: a code of the queue, or an error.
pub data Xmit : Type 0 where
  net_xmit : ℕ → Xmit
  refused : Code → Xmit

-- `alloc` is what `alloc_skb` returns, `net_ip_align` the kernel's constant, `eth0` what
-- `dev_get_by_name` finds, `xmit` what `dev_queue_xmit` returns, and
-- `consumes` whether the buffer is the driver's after that call.
pub record SendEnv : Type 0 where
  pub alloc : Option ℕ
  pub net_ip_align : ℕ
  pub eth0 : Option ℕ
  pub xmit : Xmit
  pub consumes : Bool

-- The size of a buffer of the pool.
abbrev pool_buffer_size : ℕ
pool_buffer_size = 1500

pub record Response : Type 0 where
  pub buffer : ℕ
  pub bytes : List ℕ
  pub dev : ℕ

-- A response or the null pointer, the pool, and the calls of the error log.
abbrev Built : Type 0
Built = Option (Option Response × Pool × List Message)

-- A buffer of the pool, or a fresh one, with its size.
unfoldable pub take_buffer : SendEnv → ℕ → Pool → Option (ℕ × ℕ) × Pool × List Message
take_buffer env total_len pool =
    let (pooled, pool', log) = get_response_skb pool in
    elim (pooled) [
      | some b ↦ (some (b, pool_buffer_size), pool', log)
      | none ↦ elim (env.alloc) [
        | some b ↦ (some (b, total_len + env.net_ip_align), pool', log)
        | none ↦ (none, pool', log ++ skb_alloc_failed ∷ [])
      ]
    ]

-- The device of the packet that is answered, or `eth0`.
abbrev pub device : SendEnv → Option SkBuff → Option ℕ
device env none = env.eth0
device env (some orig) = orig.dev

-- Lines 53 to 124, with a buffer of the given size: the room is checked by the calls of `skb_put`.
unfoldable pub fill_buffer :
    SendEnv → Option SkBuff → List ℕ → Config → ℕ × ℕ → Pool → List Message → Built
fill_buffer env orig body c buffer pool log = do
  peer ← peer_of c orig
  let bytes = frame c peer body
  if ltb buffer.1 (env.net_ip_align + length bytes) then none else elim (device env orig) [
    | none ↦ some (none, pool, log ++ no_device ∷ [])
    | some dev ↦ some (some (record { buffer = buffer.0; bytes = bytes; dev = dev }), pool, log)
  ]

unfoldable pub create_response_packet : SendEnv → Option SkBuff → List ℕ → Config → Pool → Built
create_response_packet env orig body c pool =
    if c.response_ip == 0 || c.response_port == 0
    then some (none, pool, bad_response_target ∷ [])
    else if c.protocol == ipproto_tcp || c.protocol == ipproto_udp
    then (let transport_hdr_len =
          if c.protocol == ipproto_tcp then sizeof_tcphdr else sizeof_udphdr in
        let total_len = sizeof_ethhdr + sizeof_iphdr + transport_hdr_len + length body in
        let (taken, pool', log) = take_buffer env total_len pool in
        elim (taken) [
          | none ↦ some (none, pool', log)
          | some buffer ↦ fill_buffer env orig body c buffer pool' log
        ])
    else some (none, pool, response_protocol c.protocol ∷ [])

-- `kfree_skb` of a buffer that the caller still holds, or no longer does.
abbrev kfree_skb : Bool → Option (Unit {0})
kfree_skb true = some tt
kfree_skb false = none

-- `nanonet_raw_send`: the result, whether the caller still holds the buffer, and the log. A null
-- pointer is `none`; a buffer without a device is released here.
raw_send : SendEnv → Option ℕ → Option ℕ → Xmit × Bool × List Message
raw_send env (some b) (some dev) = (env.xmit, (if env.consumes then false else true), [])
raw_send env (some b) none = (refused einval, false, bad_raw_send ∷ [])
raw_send env none dev = (refused einval, true, bad_raw_send ∷ [])

-- What is left of a call: the code, the configuration with its sequence number, the pool, the log,
-- and the frame that the driver was given.
pub record Sent : Type 0 where
  pub code : Code
  pub config : Config
  pub pool : Pool
  pub log : List Message
  pub frames : List (List ℕ)

-- `result == NET_XMIT_SUCCESS`, which is 0.
abbrev pub is_sent : Xmit → Bool
is_sent (net_xmit n) = n == 0
is_sent (refused c) = not (is_error c)

abbrev xmit_message : Xmit → Message
xmit_message (net_xmit n) = xmit_failed n
xmit_message (refused c) = xmit_refused c

-- Lines 141 to 149.
unfoldable pub transmit : SendEnv → ℕ → Config → Pool → List Message → Response → Option Sent
unfolding raw_send
transmit env n c pool log r =
    let (result, held, log') = raw_send env (some r.buffer) (some r.dev) in
    if is_sent result
    then some (record {
      code = success;
      config = record c { seq_num = u32 (c.seq_num + n) };
      pool = pool;
      log = log ++ log';
      frames = r.bytes ∷ [];
    })
    else kfree_skb held >>= λ _. some (record {
      code = eio;
      config = c;
      pool = pool;
      log = log ++ (log' ++ xmit_message result ∷ []);
      frames = r.bytes ∷ [];
    })

unfoldable pub send_response : SendEnv → Option SkBuff → List ℕ → Config → Pool → Option Sent
send_response env orig [] c pool =
    some (record { code = einval; config = c; pool = pool; log = bad_response ∷ []; frames = [] })
send_response env orig (b ∷ body) c pool =
    create_response_packet env orig (b ∷ body) c pool >>= λ built.
    let (made, pool', log) = built in
    elim (made) [
      | none ↦ some (record { code = enomem; config = c; pool = pool'; log = log; frames = [] })
      | some r ↦ transmit env (length (b ∷ body)) c pool' log r
    ]
