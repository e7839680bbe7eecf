-- ===== src/Conn/Chain.antt =====
-- One chain: lookups and the number of entries under a key, before and after the loop.
use nano_net_ull.Base.{ℕ, ◌+◌, ◌≡◌, refl, Bool, true, false, Option, none, some, List, [], ◌∷◌}
use nano_net_ull.Base.{arith, length, ◌==◌, ◌&&◌, if◌then◌else◌}
use nano_net_ull.Conn.{TcpConn, Key, matches, touch, fresh, walk}
use nano_net_ull.Packet.{TcpHdr}

-- The entry that the loop would find.
unfoldable pub find : Key → List TcpConn → Option TcpConn
find k [] = none
find k (c ∷ cs) = if matches c k then some c else find k cs

unfoldable pub count : Key → List TcpConn → ℕ
count k [] = 0
count k (c ∷ cs) = (if matches c k then 1 else 0) + count k cs

-- Keys are equal when all four parts are.
pub same : Key → Key → Bool
same a b =
    a.src_ip == b.src_ip
    && a.dst_ip == b.dst_ip
    && a.src_port == b.src_port
    && a.dst_port == b.dst_port

pub same_eq : (a b : Key) → same a b ≡ true → a ≡ b
unfolding same
same_eq a b h = ground arith

pub same_refl : (a : Key) → same a a ≡ true
unfolding same
same_refl a = ground arith

pub same_comm : (a b : Key) → same a b ≡ same b a
unfolding same
same_comm a b = ground arith

-- An entry matches at most one key.
matches-same : (c : TcpConn) (a b : Key) → matches c a ≡ true → matches c b ≡ same b a
unfolding matches same
matches-same c a b h = ground arith

-- The loop body keeps the key of an entry.
pub Keeps : (TcpConn → TcpConn) → Type 0
Keeps f = (c : TcpConn) (k : Key) → matches (f c) k ≡ matches c k

pub touch-Keeps : (jiffies : ℕ) (tcp : TcpHdr) → Keeps (touch jiffies tcp)
unfolding Keeps touch matches
touch-Keeps jiffies tcp c k = ground arith

pub matches-fresh :
    (jiffies : ℕ) (k q : Key) (tcp : TcpHdr) → matches (fresh jiffies k tcp) q ≡ same k q
unfolding matches fresh same
matches-fresh jiffies k q tcp = refl

module _ (k : Key) (f : TcpConn → TcpConn) (keeps : Keeps f) where
  pub find-walk_self :
      (cs : List TcpConn) (c : TcpConn)
      → find k cs ≡ some c
      → ((walk k f cs).0 ≡ true) × (find k (walk k f cs).1 ≡ some (f c))
  unfolding walk find Keeps
  find-walk_self [] c h = cc
  find-walk_self (d ∷ cs) c h = ground (arith, keeps d k, find-walk_self cs c)

  pub walk-absent : (cs : List TcpConn) → find k cs ≡ none → walk k f cs ≡ (false, cs)
  unfolding walk find
  walk-absent [] h = refl
  walk-absent (c ∷ cs) h = ground (arith, walk-absent cs)

  pub find-walk_other :
      (q : Key) (cs : List TcpConn) → same q k ≡ false → find q (walk k f cs).1 ≡ find q cs
  unfolding walk find Keeps
  find-walk_other q [] h = refl
  find-walk_other q (c ∷ cs) h = ground (arith, keeps c q, matches-same c k q, find-walk_other q cs)

  pub count-walk : (q : Key) (cs : List TcpConn) → count q (walk k f cs).1 ≡ count q cs
  unfolding walk count Keeps
  count-walk q [] = refl
  count-walk q (c ∷ cs) = ground (arith, keeps c q, count-walk q cs)

  pub length-walk : (cs : List TcpConn) → length (walk k f cs).1 ≡ length cs
  unfolding walk
  length-walk [] = refl
  length-walk (c ∷ cs) = ground (arith, length-walk cs)

pub count-eq-zero : (k : Key) (cs : List TcpConn) → find k cs ≡ none → count k cs ≡ 0
unfolding find count
count-eq-zero k [] h = refl
count-eq-zero k (c ∷ cs) h = ground (arith, count-eq-zero k cs)
