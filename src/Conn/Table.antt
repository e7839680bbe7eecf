-- ===== src/Conn/Table.antt =====
-- The table as a map from keys to connections, and when it is well formed.
use nano_net_ull.Base.{ℕ, ◌+◌, ◌≤◌, ◌<◌, ◌≡◌, zero, suc, Option, List, [], ◌∷◌, arith}
use nano_net_ull.Base.{
  length, length-replicate, get_or-replicate, replicate, get_or, set, refl, ◌==◌, if◌then◌else◌,
  u64,
}
use nano_net_ull.Conn.{TcpConn, Key, Connections, slot, conn_hash_size, no_connections}
use nano_net_ull.Conn.Chain.{find, count}

-- The number of connections in the table.
unfoldable pub total : List (List TcpConn) → ℕ
total [] = 0
total (c ∷ cs) = length c + total cs

pub total-set :
    (t : List (List TcpConn)) (h : ℕ) (c : List TcpConn)
    → h < length t
    → total (set t h c) + length (get_or t h []) ≡ total t + length c
unfolding total
total-set [] h c lt = absurd (omega arith)
total-set (d ∷ t) zero c lt = omega arith
total-set (d ∷ t) (suc h) c lt = omega (arith, total-set t h c (omega arith))

total-replicate : (n : ℕ) → total (replicate n []) ≡ 0
unfolding total
total-replicate zero = refl
total-replicate (suc n) = omega (arith, total-replicate n)

module _ (jhash_3words : ℕ → ℕ → ℕ → ℕ → ℕ) where
  -- The map that the table stands for.
  unfoldable pub view : List (List TcpConn) → Key → Option TcpConn
  view t k = find k (get_or t (slot jhash_3words k) [])

  -- An entry stands in the chain of its hash, no two entries have one key, and the counter of active
  -- connections is their number.
  pub record IsValid (t : Connections) : Type 0 where
    pub width : length t.chains ≡ conn_hash_size
    pub placed :
        (k : Key) (i : ℕ)
        → count k (get_or t.chains i []) ≤ (if slot jhash_3words k == i then 1 else 0)
    pub counted : t.stats.connections_active ≡ u64 (total t.chains)

  -- The same without the counter.
  pub record IsPlaced (t : Connections) : Type 0 where
    pub width : length t.chains ≡ conn_hash_size
    pub placed :
        (k : Key) (i : ℕ)
        → count k (get_or t.chains i []) ≤ (if slot jhash_3words k == i then 1 else 0)

  -- The table with the counter that its chains call for.
  abbrev pub recounted : Connections → Connections
  recounted t = record t { stats = record (t.stats) { connections_active = u64 (total t.chains) } }

  pub IsPlaced-recounted : (t : Connections) → IsPlaced t → IsValid (recounted t)
  IsPlaced-recounted t v = record { width = v.width; placed = v.placed; counted = refl }

  pub slot-lt : (k : Key) → slot jhash_3words k < conn_hash_size
  unfolding slot
  slot-lt k = omega arith

  pub no_connections-IsValid : IsValid no_connections
  unfolding count find
  no_connections-IsValid = record {
    width = length-replicate {A = List TcpConn} conn_hash_size [];
    placed = λ k i. rw (get_or-replicate {A = List TcpConn} conn_hash_size i []) (omega arith);
    counted = rw (total-replicate conn_hash_size) refl;
  }
