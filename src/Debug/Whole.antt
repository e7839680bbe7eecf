-- ===== src/Debug/Whole.antt =====
-- No message of the module is cut short.
use nano_net_ull.Base.{
  ℕ, zero, suc, ◌+◌, ◌-◌, ◌^◌, ◌<◌, ◌≤◌, ◌≡◌, refl, sym, ap, true, List, [], ◌∷◌, ◌++◌, arith,
}
use nano_net_ull.Base.{length, length-append, take}
use nano_net_ull.Debug.{
  Message, packet_size, tcp_packet_size, udp_packet_size, ip_header_length, tcp_header_length,
  ether_type, transport_protocol, response_protocol, config_protocol, logic_type, market_data_size,
  pool_alloc_failed, xmit_failed, ioctl_command, parsing_failed, logic_failed, send_failed,
  xmit_refused, config_refused, negative_payload, pool_empty, bad_raw_send, bad_response,
  bad_response_target, skb_alloc_failed, no_device, conn_alloc_failed, bad_packet, bad_config,
  bad_multicast_group, order_alloc_failed, copy_in_failed, copy_config_failed, copy_stats_failed,
  DebugStats, LogEnv, code_text, format, stamped, log_error, replay, last_error_size, buffer_size,
}
use nano_net_ull.Errno.{
  Code, magnitude, success, einval, eprotonosupport, enomem, ebusy, eperm, eio, efault, enotty,
  enodev, enetdown,
}
use nano_net_ull.Text.{codes, decimal, snprintf}
use nano_net_ull.Text.Length.{length-decimal, length-hex}

-- The number that a message prints, 0 where it prints none or a code.
abbrev argument : Message → ℕ
argument (packet_size n) = n
argument (tcp_packet_size n) = n
argument (udp_packet_size n) = n
argument (ip_header_length n) = n
argument (tcp_header_length n) = n
argument (ether_type n) = n
argument (transport_protocol n) = n
argument (response_protocol n) = n
argument (config_protocol n) = n
argument (logic_type n) = n
argument (market_data_size n) = n
argument (pool_alloc_failed n) = n
argument (xmit_failed n) = n
argument (ioctl_command n) = n
argument (parsing_failed c) = 0
argument (logic_failed c) = 0
argument (send_failed c) = 0
argument (xmit_refused c) = 0
argument (config_refused c) = 0
argument negative_payload = 0
argument pool_empty = 0
argument bad_raw_send = 0
argument bad_response = 0
argument bad_response_target = 0
argument skb_alloc_failed = 0
argument no_device = 0
argument conn_alloc_failed = 0
argument bad_packet = 0
argument bad_config = 0
argument bad_multicast_group = 0
argument order_alloc_failed = 0
argument copy_in_failed = 0
argument copy_config_failed = 0
argument copy_stats_failed = 0

numbered : (text : List ℕ) (n : ℕ) → n < 2 ^ 32 → length text ≤ 80 → length (text ++ decimal n) ≤ 90
numbered text n h short =
    omega (arith, length-append text (decimal n), length-decimal 9 n (omega (arith, h)), short)

code_text-short : (c : Code) → length (code_text c) ≤ 11
unfolding code_text
code_text-short success = omega arith
code_text-short einval = omega (arith, length-decimal 9 (magnitude einval) (omega arith))
code_text-short eprotonosupport =
    omega (arith, length-decimal 9 (magnitude eprotonosupport) (omega arith))
code_text-short enomem = omega (arith, length-decimal 9 (magnitude enomem) (omega arith))
code_text-short ebusy = omega (arith, length-decimal 9 (magnitude ebusy) (omega arith))
code_text-short eperm = omega (arith, length-decimal 9 (magnitude eperm) (omega arith))
code_text-short eio = omega (arith, length-decimal 9 (magnitude eio) (omega arith))
code_text-short efault = omega (arith, length-decimal 9 (magnitude efault) (omega arith))
code_text-short enotty = omega (arith, length-decimal 9 (magnitude enotty) (omega arith))
code_text-short enodev = omega (arith, length-decimal 9 (magnitude enodev) (omega arith))
code_text-short enetdown = omega (arith, length-decimal 9 (magnitude enetdown) (omega arith))

format-short : (m : Message) → argument m < 2 ^ 32 → length (format m) ≤ 90
unfolding format
format-short (packet_size n) h = numbered (codes "Invalid packet size: ") n h (omega arith)
format-short (tcp_packet_size n) h = numbered (codes "Invalid TCP packet size: ") n h (omega arith)
format-short (udp_packet_size n) h = numbered (codes "Invalid UDP packet size: ") n h (omega arith)
format-short (ip_header_length n) h =
    numbered (codes "Invalid IP header length: ") n h (omega arith)
format-short (tcp_header_length n) h =
    numbered (codes "Invalid TCP header length: ") n h (omega arith)
format-short (ether_type n) h = omega (arith, length-hex 7 n (omega (arith, h)))
format-short (transport_protocol n) h =
    numbered (codes "Unsupported transport protocol: ") n h (omega arith)
format-short (response_protocol n) h = numbered (codes "Unsupported protocol: ") n h (omega arith)
format-short (config_protocol n) h = numbered (codes "Invalid protocol: ") n h (omega arith)
format-short (logic_type n) h =
    numbered (codes "Unknown application logic type: ") n h (omega arith)
format-short (market_data_size n) h =
    numbered (codes "Invalid market data size: ") n h (omega arith)
format-short (pool_alloc_failed n) h =
    numbered (codes "Failed to allocate skb for response pool at index ") n h (omega arith)
format-short (xmit_failed n) h = numbered (codes "Failed to send response: ") n h (omega arith)
format-short (ioctl_command n) h = numbered (codes "Invalid IOCTL command: ") n h (omega arith)
format-short (parsing_failed c) h = omega (arith, code_text-short c)
format-short (logic_failed c) h = omega (arith, code_text-short c)
format-short (send_failed c) h = omega (arith, code_text-short c)
format-short (xmit_refused c) h = omega (arith, code_text-short c)
format-short (config_refused c) h = omega (arith, code_text-short c)
format-short negative_payload h = omega arith
format-short pool_empty h = omega arith
format-short bad_raw_send h = omega arith
format-short bad_response h = omega arith
format-short bad_response_target h = omega arith
format-short skb_alloc_failed h = omega arith
format-short no_device h = omega arith
format-short conn_alloc_failed h = omega arith
format-short bad_packet h = omega arith
format-short bad_config h = omega arith
format-short bad_multicast_group h = omega arith
format-short order_alloc_failed h = omega arith
format-short copy_in_failed h = omega arith
format-short copy_config_failed h = omega arith
format-short copy_stats_failed h = omega arith

-- A text that fits with its terminating zero is kept whole.
take-short : (n : ℕ) (text : List ℕ) → length text ≤ n → take n text ≡ text
take-short zero [] h = refl
take-short zero (x ∷ text) h = absurd (omega arith)
take-short (suc n) [] h = refl
take-short (suc n) (x ∷ text) h = ap (λ (l : List ℕ). x ∷ l) (take-short n text (omega arith))

snprintf-short : (size : ℕ) (text : List ℕ) → length text < size → snprintf size text ≡ text
unfolding snprintf
snprintf-short size text h = take-short (size - 1) text (omega arith)

stamped-whole :
    (ts : ℕ) (m : Message)
    → ts < 2 ^ 64
    → argument m < 2 ^ 32
    → stamped ts m ≡ codes "[" ++ (decimal ts ++ (codes " ns] " ++ format m))
unfolding stamped
stamped-whole ts m late small =
    let short = format-short m small in
    let size = length-append (decimal ts) (codes " ns] " ++ format m) in
    let digits = length-decimal 19 ts (omega (arith, late)) in
    rw (snprintf-short buffer_size (format m) (omega (arith, short))) (
      snprintf-short last_error_size (codes "[" ++ (decimal ts ++ (codes " ns] " ++ format m)))
        (omega (arith, short, size, digits)))

replay-last :
    (envs : ℕ → LogEnv) (i : ℕ) (ms : List Message) (m : Message) (d : DebugStats)
    → replay envs i (ms ++ m ∷ []) d ≡ log_error (envs (i + length ms)) m (replay envs i ms d)
unfolding replay
replay-last envs i [] m d = let e : i + 0 ≡ i = omega arith in rw e refl
replay-last envs i (x ∷ ms) m d =
    let e : i + 1 + length ms ≡ i + suc (length ms) = omega arith in
    rw (sym e) (replay-last envs (i + 1) ms m (log_error (envs i) x d))

-- Whatever was logged before, a message that the rate limit lets pass replaces the last error by its
-- time and its whole text: with a clock of 64 bits and a number of 32, neither of the two buffers cuts
-- it, whichever message of the module it is. The other fields stay.
pub replay-whole :
    (envs : ℕ → LogEnv) (i : ℕ) (ms : List Message) (m : Message) (d : DebugStats)
    → let env = envs (i + length ms) in
      env.allowed ≡ true
      → env.ts < 2 ^ 64
      → argument m < 2 ^ 32
      → replay envs i (ms ++ m ∷ []) d ≡ record (replay envs i ms d) {
        last_error = codes "[" ++ (decimal env.ts ++ (codes " ns] " ++ format m));
      }
unfolding log_error
replay-whole envs i ms m d allowed late small =
    let env = envs (i + length ms) in
    rw (replay-last envs i ms m d, allowed, stamped-whole env.ts m late small) refl
