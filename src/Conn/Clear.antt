-- ===== src/Conn/Clear.antt =====
-- `nanonet_clear_tcp_connections` empties the table and moves its size between the counters.
use nano_net_ull.Base.{ℕ, ◌+◌, ◌%◌, ◌^◌, ◌<◌, ◌≡◌, refl, ◌∙◌, none, List, [], ◌∷◌, zero, suc, arith}
use nano_net_ull.Base.{length, get_or, inc64, dec64, ap}
use nano_net_ull.Conn.{TcpConn, Key, Connections, slot, free_chain, clear_tcp_connections}
use nano_net_ull.Conn.Chain.{find, count}
use nano_net_ull.Conn.Table.{total, view, IsValid, IsPlaced}
use nano_net_ull.Stats.{Stats}

-- The statistics apart from the two counters of connections.
abbrev pub others : Stats → Stats
others s = record s { connections_active = 0; connections_dropped = 0 }

-- Freeing `n` connections takes them from the one counter to the other.
pub record IsFreed (n : ℕ) (s s' : Stats) : Type 0 where
  pub active : (s'.connections_active + n) % 2 ^ 64 ≡ s.connections_active % 2 ^ 64
  pub dropped : s'.connections_dropped % 2 ^ 64 ≡ (s.connections_dropped + n) % 2 ^ 64
  pub rest : others s' ≡ others s
  pub bounded : s.connections_active < 2 ^ 64 → s'.connections_active < 2 ^ 64

abbrev one_freed : Stats → Stats
one_freed s = record s {
  connections_active = dec64 s.connections_active;
  connections_dropped = inc64 s.connections_dropped;
}

free_chain-IsFreed : (cs : List TcpConn) (s : Stats) → IsFreed (length cs) s (free_chain cs s)
unfolding free_chain
free_chain-IsFreed [] s = record {
  active = omega arith;
  dropped = omega arith;
  rest = refl;
  bounded = λ h. h;
}
free_chain-IsFreed (c ∷ cs) s =
    let r = free_chain-IsFreed cs (one_freed s) in
    record {
      active = omega (arith, r.active);
      dropped = omega (arith, r.dropped);
      rest = r.rest;
      bounded = λ h. r.bounded (omega arith);
    }

pub clear-IsFreed :
    (t : List (List TcpConn)) (s : Stats) → IsFreed (total t) s (clear_tcp_connections t s).stats
unfolding clear_tcp_connections total
clear-IsFreed [] s = record {
  active = omega arith;
  dropped = omega arith;
  rest = refl;
  bounded = λ h. h;
}
clear-IsFreed (c ∷ t) s =
    let first = free_chain-IsFreed c s in
    let r = clear-IsFreed t (free_chain c s) in
    record {
      active = omega (arith, r.active, first.active);
      dropped = omega (arith, r.dropped, first.dropped);
      rest = r.rest ∙ first.rest;
      bounded = λ h. r.bounded (first.bounded h);
    }

length-clear :
    (t : List (List TcpConn)) (s : Stats) → length (clear_tcp_connections t s).chains ≡ length t
unfolding clear_tcp_connections
length-clear [] s = refl
length-clear (c ∷ t) s = ap suc (length-clear t (free_chain c s))

get_or-clear :
    (t : List (List TcpConn)) (s : Stats) (i : ℕ)
    → get_or (clear_tcp_connections t s).chains i [] ≡ []
unfolding clear_tcp_connections
get_or-clear [] s i = refl
get_or-clear (c ∷ t) s zero = refl
get_or-clear (c ∷ t) s (suc i) = get_or-clear t (free_chain c s) i

pub total-clear :
    (t : List (List TcpConn)) (s : Stats) → total (clear_tcp_connections t s).chains ≡ 0
unfolding clear_tcp_connections total
total-clear [] s = refl
total-clear (c ∷ t) s = omega (arith, total-clear t (free_chain c s))

pub clear-IsPlaced :
    (jhash_3words : ℕ → ℕ → ℕ → ℕ → ℕ) (t : Connections)
    → IsPlaced jhash_3words t
    → IsPlaced jhash_3words (clear_tcp_connections t.chains t.stats)
unfolding find count
clear-IsPlaced jhash_3words t v = record {
  width = length-clear t.chains t.stats ∙ v.width;
  placed = λ k i. rw (get_or-clear t.chains t.stats i) (omega arith);
}

module _ (jhash_3words : ℕ → ℕ → ℕ → ℕ → ℕ) {t : Connections} (v : IsValid jhash_3words t) where
  -- Clearing a well-formed table leaves a well-formed table with no connection under any key; the
  -- counter of active connections is 0, that of dropped ones has grown by their number, modulo
  -- 2 ^ 64, and the other statistics are unchanged.
  pub clear_empties :
      let t' = clear_tcp_connections t.chains t.stats in
      IsValid jhash_3words t'
      × ((k : Key) → view jhash_3words t'.chains k ≡ none)
      × (t'.stats.connections_active ≡ 0)
      × (t'.stats.connections_dropped % 2 ^ 64
          ≡ (t.stats.connections_dropped + total t.chains) % 2 ^ 64)
      × (others t'.stats ≡ others t.stats)
  unfolding view find count
  clear_empties =
      let r = clear-IsFreed t.chains t.stats in
      let t' = clear_tcp_connections t.chains t.stats in
      let small : t'.stats.connections_active < 2 ^ 64 = r.bounded (omega (arith, v.counted)) in
      let none_left : t'.stats.connections_active ≡ 0 = omega (arith, r.active, v.counted, small) in
      (
        record {
          width = length-clear t.chains t.stats ∙ v.width;
          placed = λ k i. rw (get_or-clear t.chains t.stats i) (omega arith);
          counted = rw (total-clear t.chains t.stats) none_left;
        },
        λ k. rw (get_or-clear t.chains t.stats (slot jhash_3words k)),
        none_left,
        r.dropped,
        r.rest,
      )
