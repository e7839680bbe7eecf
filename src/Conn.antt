-- ===== src/Conn.antt =====
-- src/security.c: the table of TCP connections. `jhash_3words` is the kernel's hash, a parameter.
-- The table is the list of its 1024 chains, each with the entry at its head first.
pub mod Chain
pub mod Table
pub mod Track
pub mod Spec
pub mod Clear
pub mod Placed
use nano_net_ull.Base.{ℕ, ◌+◌, ◌*◌, ◌%◌, ◌^◌, Bool, true, false, not, ◌&&◌, ◌||◌, List, [], ◌∷◌}
use nano_net_ull.Base.{
  ◌==◌, if◌then◌else◌, get_or, set, replicate, swap16, swap32, u32, inc64, dec64,
}
use nano_net_ull.Debug.{Message, conn_alloc_failed}
use nano_net_ull.Errno.{Code, success, einval, enomem}
use nano_net_ull.Packet.{IpHdr, TcpHdr}
use nano_net_ull.Stats.{Stats, zeroed}

-- `struct ull_tcp_conn`; the link of the chain is the list.
pub record TcpConn : Type 0 where
  pub src_ip : ℕ
  pub dst_ip : ℕ
  pub src_port : ℕ
  pub dst_port : ℕ
  pub seq_num : ℕ
  pub ack_num : ℕ
  pub state : ℕ
  pub last_seen : ℕ

-- The addresses and raw ports by which a connection is found.
pub record Key : Type 0 where
  pub src_ip : ℕ
  pub dst_ip : ℕ
  pub src_port : ℕ
  pub dst_port : ℕ

abbrev pub key_of : IpHdr → TcpHdr → Key
key_of ip tcp = record {
  src_ip = ip.saddr;
  dst_ip = ip.daddr;
  src_port = tcp.source;
  dst_port = tcp.dest;
}

abbrev syn_sent : ℕ
syn_sent = 1

abbrev established : ℕ
established = 2

abbrev pub conn_hash_size : ℕ
conn_hash_size = 1024

-- A SYN that opens a connection.
abbrev pub opens : TcpHdr → Bool
opens tcp = tcp.syn && not tcp.ack

-- The test of the loop.
pub matches : TcpConn → Key → Bool
matches c k =
    c.src_ip == k.src_ip
    && c.dst_ip == k.dst_ip
    && c.src_port == k.src_port
    && c.dst_port == k.dst_port

-- What the loop stores into the entry that it finds.
pub touch : ℕ → TcpHdr → TcpConn → TcpConn
touch jiffies tcp c =
    if opens tcp
    then record c { last_seen = jiffies; state = syn_sent }
    else if tcp.syn && tcp.ack
    then record c {
      last_seen = jiffies;
      state = established;
      seq_num = swap32 tcp.seq;
      ack_num = swap32 tcp.ack_seq;
    }
    else record c { last_seen = jiffies }

pub fresh : ℕ → Key → TcpHdr → TcpConn
fresh jiffies k tcp = record {
  src_ip = k.src_ip;
  dst_ip = k.dst_ip;
  src_port = k.src_port;
  dst_port = k.dst_port;
  seq_num = swap32 tcp.seq;
  ack_num = 0;
  state = syn_sent;
  last_seen = jiffies;
}

-- The loop over a chain: whether an entry was found, and the chain that it leaves.
pub walk : Key → (TcpConn → TcpConn) → List TcpConn → Bool × List TcpConn
walk k f [] = (false, [])
walk k f (c ∷ cs) =
    let rest = walk k f cs in if matches c k then (true, f c ∷ cs) else (rest.0, c ∷ rest.1)

-- The chains and the statistics, which share the lock of this file in part.
pub record Connections : Type 0 where
  pub chains : List (List TcpConn)
  pub stats : Stats

-- The initial `connection_hash` and `global_stats`.
abbrev pub no_connections : Connections
no_connections = record { chains = replicate conn_hash_size []; stats = zeroed }

-- The clock and the result of `kmalloc`.
pub record TrackEnv : Type 0 where
  pub jiffies : ℕ
  pub memory : Bool

-- Lines 44 to 61, after a search that has failed.
pub open_connection : ℕ → TrackEnv → Key → TcpHdr → Connections → Code × Connections × List Message
unfolding fresh
open_connection hash env k tcp t =
    if opens tcp
    then if env.memory
      then (
        success,
        record {
          chains = set t.chains hash (fresh env.jiffies k tcp ∷ get_or t.chains hash []);
          stats = record (t.stats) { connections_active = inc64 t.stats.connections_active };
        },
        [],
      )
      else (enomem, t, conn_alloc_failed ∷ [])
    else (einval, t, [])

module _ (jhash_3words : ℕ → ℕ → ℕ → ℕ → ℕ) where
  -- The chain that `nanonet_track_tcp_connection` computes for a connection.
  pub slot : Key → ℕ
  slot k =
      jhash_3words k.src_ip k.dst_ip (u32 (swap16 k.src_port * 2 ^ 16 + swap16 k.dst_port)) 0
      % conn_hash_size

  -- `nanonet_conn_hash`, which nothing calls.
  unfoldable conn_hash : TcpConn → ℕ
  conn_hash c =
      jhash_3words c.src_ip c.dst_ip (u32 (c.src_port * 2 ^ 16 + c.dst_port)) 0 % conn_hash_size

  pub track_tcp_connection :
      TrackEnv → IpHdr → TcpHdr → Connections → Code × Connections × List Message
  track_tcp_connection env ip tcp t =
      let k = key_of ip tcp in
      let hash = slot k in
      let (found, chain) = walk k (touch env.jiffies tcp) (get_or t.chains hash []) in
      if found
      then (success, record t { chains = set t.chains hash chain }, [])
      else open_connection hash env k tcp t

-- The inner loop of `nanonet_clear_tcp_connections`: what it does to the counters for a chain.
pub free_chain : List TcpConn → Stats → Stats
free_chain [] s = s
free_chain (c ∷ cs) s = free_chain cs (record s {
  connections_active = dec64 s.connections_active;
  connections_dropped = inc64 s.connections_dropped;
})

-- The outer loop, over the chains.
pub clear_tcp_connections : List (List TcpConn) → Stats → Connections
clear_tcp_connections [] s = record { chains = []; stats = s }
clear_tcp_connections (c ∷ cs) s =
    let rest = clear_tcp_connections cs (free_chain c s) in
    record { chains = [] ∷ rest.chains; stats = rest.stats }
