-- ===== src/Conn/Spec.antt =====
-- What tracking a segment means for the map of the connections, field by field.
use nano_net_ull.Base.{ℕ, ◌≡◌, refl, arith, ◌&&◌, Option, none, some, if◌then◌else◌, swap32}
use nano_net_ull.Conn.{TcpConn, Key, TrackEnv, opens, touch, fresh}
use nano_net_ull.Errno.{Code, success, einval, enomem}
use nano_net_ull.Packet.{TcpHdr}

-- A connection that a segment belongs to: SYN alone is the state 1, SYN with ACK the state 2, which
-- also takes over the numbers of the segment; any other segment moves the clock only.
abbrev updated : ℕ → TcpHdr → TcpConn → TcpConn
updated jiffies tcp c =
    let answer = tcp.syn && tcp.ack in
    record {
      src_ip = c.src_ip;
      dst_ip = c.dst_ip;
      src_port = c.src_port;
      dst_port = c.dst_port;
      seq_num = if answer then swap32 tcp.seq else c.seq_num;
      ack_num = if answer then swap32 tcp.ack_seq else c.ack_num;
      state = if tcp.syn then (if tcp.ack then 2 else 1) else c.state;
      last_seen = jiffies;
    }

-- A connection that a SYN opens.
abbrev created : ℕ → Key → TcpHdr → TcpConn
created jiffies k tcp = record {
  src_ip = k.src_ip;
  dst_ip = k.dst_ip;
  src_port = k.src_port;
  dst_port = k.dst_port;
  seq_num = swap32 tcp.seq;
  ack_num = 0;
  state = 1;
  last_seen = jiffies;
}

-- The code and the connection of the segment's key, from the one that is there.
pub track_spec : TrackEnv → Key → TcpHdr → Option TcpConn → Code × Option TcpConn
track_spec env k tcp (some c) = (success, some (updated env.jiffies tcp c))
track_spec env k tcp none =
    if tcp.syn
    then (if tcp.ack
        then (einval, none)
        else if env.memory
        then (success, some (created env.jiffies k tcp))
        else (enomem, none))
    else (einval, none)

touch-updated :
    (jiffies : ℕ) (tcp : TcpHdr) (c : TcpConn) → touch jiffies tcp c ≡ updated jiffies tcp c
unfolding touch
touch-updated jiffies tcp c = ground arith

-- The same with the functions of the code.
unfoldable pub code_spec : TrackEnv → Key → TcpHdr → Option TcpConn → Code × Option TcpConn
code_spec env k tcp (some c) = (success, some (touch env.jiffies tcp c))
code_spec env k tcp none =
    if opens tcp
    then if env.memory then (success, some (fresh env.jiffies k tcp)) else (enomem, none)
    else (einval, none)

pub track_spec-code_spec :
    (env : TrackEnv) (k : Key) (tcp : TcpHdr) (o : Option TcpConn)
    → track_spec env k tcp o ≡ code_spec env k tcp o
unfolding track_spec code_spec fresh
track_spec-code_spec env k tcp (some c) = rw (touch-updated env.jiffies tcp c) refl
track_spec-code_spec env k tcp none = ground arith
