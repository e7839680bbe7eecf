-- ===== src/Packet.antt =====
-- include/nanonet.h (the headers) and the parameters of src/micro_stack.c: `ull_parse_packet`.
-- A pointer into the packet is its offset from `skb->data`. A load outside the buffer is a fault,
-- the `none` of the fault monad. Fields are loaded as the machine loads them, so a `__be16` is the
-- raw value, and `swap16` is what `ntohs` makes of it.
pub mod Parse
pub mod Safety
pub mod Optimized
pub mod Checked
use nano_net_ull.Base.{ℕ, ◌+◌, ◌*◌, ◌/◌, ◌%◌, ◌<◌, Bool, true, false, Option, none, some, List}
use nano_net_ull.Base.{length, get_or, take, drop, ltb, leb, if◌then◌else◌}

-- The part of `struct sk_buff` that the module reads: `skb->data` up to `skb->len`, and `skb->dev`.
pub record SkBuff : Type 0 where
  pub bytes : List ℕ
  pub dev : Option ℕ

abbrev pub len : SkBuff → ℕ
len skb = length skb.bytes

abbrev pub sizeof_ethhdr : ℕ
sizeof_ethhdr = 14

abbrev pub sizeof_iphdr : ℕ
sizeof_iphdr = 20

abbrev pub sizeof_tcphdr : ℕ
sizeof_tcphdr = 20

abbrev pub sizeof_udphdr : ℕ
sizeof_udphdr = 8

abbrev pub eth_p_ip : ℕ
eth_p_ip = 0x0800

abbrev pub ipproto_tcp : ℕ
ipproto_tcp = 6

abbrev pub ipproto_udp : ℕ
ipproto_udp = 17

-- Runs that may fault.
infixl 5 ◌>>=◌
abbrev pub ◌>>=◌ {ℓ κ} : {A : Type ℓ} {B : Type κ} → Option A → (A → Option B) → Option B
none >>= f = none
some a >>= f = f a

-- The bytes as loaded, where the load is in range.
abbrev pub raw8 : List ℕ → ℕ → ℕ
raw8 bytes i = get_or bytes i 0

abbrev pub raw16 : List ℕ → ℕ → ℕ
raw16 bytes i = get_or bytes i 0 + get_or bytes (i + 1) 0 * 256

abbrev pub raw32 : List ℕ → ℕ → ℕ
raw32 bytes i = raw16 bytes i + raw16 bytes (i + 2) * 65536

unfoldable pub load8 : List ℕ → ℕ → Option ℕ
load8 bytes i = if ltb i (length bytes) then some (raw8 bytes i) else none

unfoldable pub load16 : List ℕ → ℕ → Option ℕ
load16 bytes i = if ltb (i + 1) (length bytes) then some (raw16 bytes i) else none

unfoldable pub load32 : List ℕ → ℕ → Option ℕ
load32 bytes i = if ltb (i + 3) (length bytes) then some (raw32 bytes i) else none

-- The `n` bytes at offset `i`, for a function that reads them all.
unfoldable pub region : List ℕ → ℕ → ℕ → Option (List ℕ)
region bytes i n = if leb (i + n) (length bytes) then some (take n (drop i bytes)) else none

-- `struct ull_iphdr` at an offset, as far as the module reads it.
pub record IpHdr : Type 0 where
  pub version_ihl : ℕ
  pub tot_len : ℕ
  pub protocol : ℕ
  pub check : ℕ
  pub saddr : ℕ
  pub daddr : ℕ

unfoldable pub load_ip : List ℕ → ℕ → Option IpHdr
unfolding load8 load16 load32
load_ip bytes i = do
  version_ihl ← load8 bytes i
  tot_len ← load16 bytes (i + 2)
  protocol ← load8 bytes (i + 9)
  check ← load16 bytes (i + 10)
  saddr ← load32 bytes (i + 12)
  daddr ← load32 bytes (i + 16)
  some (record {
    version_ihl = version_ihl;
    tot_len = tot_len;
    protocol = protocol;
    check = check;
    saddr = saddr;
    daddr = daddr;
  })

-- `struct ull_tcphdr`: `doff` is the high half of the byte after `ack_seq`, and the flags are bits
-- of the next, `fin` the lowest.
pub record TcpHdr : Type 0 where
  pub source : ℕ
  pub dest : ℕ
  pub seq : ℕ
  pub ack_seq : ℕ
  pub doff : ℕ
  pub syn : Bool
  pub ack : Bool

abbrev bit : ℕ → ℕ → Bool
bit byte weight = if ltb 0 (byte / weight % 2) then true else false

unfoldable pub load_tcp : List ℕ → ℕ → Option TcpHdr
unfolding load8 load16 load32
load_tcp bytes i = do
  source ← load16 bytes i
  dest ← load16 bytes (i + 2)
  seq ← load32 bytes (i + 4)
  ack_seq ← load32 bytes (i + 8)
  offset ← load8 bytes (i + 12)
  flags ← load8 bytes (i + 13)
  some (record {
    source = source;
    dest = dest;
    seq = seq;
    ack_seq = ack_seq;
    doff = offset / 16;
    syn = bit flags 2;
    ack = bit flags 16;
  })

-- `struct ull_udphdr`
pub record UdpHdr : Type 0 where
  pub source : ℕ
  pub dest : ℕ
  pub length : ℕ
  pub check : ℕ

unfoldable pub load_udp : List ℕ → ℕ → Option UdpHdr
unfolding load16
load_udp bytes i = do
  source ← load16 bytes i
  dest ← load16 bytes (i + 2)
  length ← load16 bytes (i + 4)
  check ← load16 bytes (i + 6)
  some (record { source = source; dest = dest; length = length; check = check })
