-- ===== src/Debug.antt =====
-- src/debug.c: the error log. The functions of the other files return the calls of
-- `nanonet_log_error` that they make, in order; `replay` gives the state that these leave.
pub mod Whole
use nano_net_ull.Base.{ℕ, ◌+◌, Bool, List, [], ◌∷◌, ◌++◌, if◌then◌else◌}
use nano_net_ull.Errno.{Code, success, magnitude}
use nano_net_ull.Text.{codes, decimal, hex, snprintf}

-- A call of `nanonet_log_error`, by its format and the arguments.
pub data Message : Type 0 where
  packet_size tcp_packet_size udp_packet_size ip_header_length tcp_header_length : ℕ → Message
  ether_type transport_protocol response_protocol config_protocol logic_type : ℕ → Message
  market_data_size pool_alloc_failed xmit_failed ioctl_command : ℕ → Message
  parsing_failed logic_failed send_failed xmit_refused config_refused : Code → Message
  negative_payload pool_empty bad_raw_send bad_response bad_response_target : Message
  skb_alloc_failed no_device conn_alloc_failed bad_packet bad_config bad_multicast_group : Message
  order_alloc_failed copy_in_failed copy_config_failed copy_stats_failed : Message

-- `%d` of a return code
pub code_text : Code → List ℕ
code_text success = codes "0"
code_text c = codes "-" ++ decimal (magnitude c)

pub format : Message → List ℕ
unfolding code_text
format (packet_size n) = codes "Invalid packet size: " ++ decimal n
format (tcp_packet_size n) = codes "Invalid TCP packet size: " ++ decimal n
format (udp_packet_size n) = codes "Invalid UDP packet size: " ++ decimal n
format (ip_header_length n) = codes "Invalid IP header length: " ++ decimal n
format (tcp_header_length n) = codes "Invalid TCP header length: " ++ decimal n
format (ether_type n) = codes "Unsupported protocol: " ++ hex n
format (transport_protocol n) = codes "Unsupported transport protocol: " ++ decimal n
format (response_protocol n) = codes "Unsupported protocol: " ++ decimal n
format (config_protocol n) = codes "Invalid protocol: " ++ decimal n
format (logic_type n) = codes "Unknown application logic type: " ++ decimal n
format (market_data_size n) = codes "Invalid market data size: " ++ decimal n
format (pool_alloc_failed n) =
    codes "Failed to allocate skb for response pool at index " ++ decimal n
format (xmit_failed n) = codes "Failed to send response: " ++ decimal n
format (ioctl_command n) = codes "Invalid IOCTL command: " ++ decimal n
format (parsing_failed c) = codes "Packet parsing failed: " ++ code_text c
format (logic_failed c) = codes "Application logic failed: " ++ code_text c
format (send_failed c) = codes "Failed to send response: " ++ code_text c
format (xmit_refused c) = codes "Failed to send response: " ++ code_text c
format (config_refused c) = codes "Invalid configuration: " ++ code_text c
format negative_payload = codes "Negative payload length calculated"
format pool_empty = codes "Response pool empty"
format bad_raw_send = codes "Invalid skb or device for raw send"
format bad_response = codes "Invalid response data or length"
format bad_response_target = codes "Invalid response IP or port"
format skb_alloc_failed = codes "Failed to allocate response skb"
format no_device = codes "Failed to get network device"
format conn_alloc_failed = codes "Failed to allocate memory for TCP connection"
format bad_packet = codes "Invalid packet: zero source IP or insufficient length"
format bad_config = codes "Invalid config: zero IP or port"
format bad_multicast_group = codes "Invalid multicast group"
format order_alloc_failed = codes "Failed to allocate memory for order"
format copy_in_failed = codes "Failed to copy config from user"
format copy_config_failed = codes "Failed to copy config to user"
format copy_stats_failed = codes "Failed to copy stats to user"

-- `struct ull_debug_stats`; `last_error` is the text in the array, without its zero.
pub record DebugStats : Type 0 where
  pub total_interrupts : ℕ
  pub cache_misses : ℕ
  pub memory_allocations : ℕ
  pub queue_full_events : ℕ
  pub checksum_errors : ℕ
  pub last_error : List ℕ

-- `sizeof(buffer)`
abbrev buffer_size : ℕ
buffer_size = 256

-- `sizeof(debug_stats.last_error)`
abbrev last_error_size : ℕ
last_error_size = 256

-- `snprintf(last_error, …, "[%llu ns] %s", ts, buffer)` after `vsnprintf(buffer, …)`
pub stamped : ℕ → Message → List ℕ
stamped ts m =
    snprintf last_error_size
      (codes "[" ++ (decimal ts ++ (codes " ns] " ++ snprintf buffer_size (format m))))

-- The clock and the verdict of `__ratelimit` for one call.
pub record LogEnv : Type 0 where
  pub ts : ℕ
  pub allowed : Bool

pub log_error : LogEnv → Message → DebugStats → DebugStats
log_error env m d = if env.allowed then record d { last_error = stamped env.ts m } else d

-- The calls of a handler, each with its own clock and verdict.
pub replay : (ℕ → LogEnv) → ℕ → List Message → DebugStats → DebugStats
replay envs i [] d = d
replay envs i (m ∷ ms) d = replay envs (i + 1) ms (log_error (envs i) m d)
