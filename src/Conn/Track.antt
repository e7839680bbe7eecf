-- ===== src/Conn/Track.antt =====
-- `nanonet_track_tcp_connection` against the map of the connections.
use nano_net_ull.Base.{
  ℕ, ◌≤◌, ◌<◌, ◌≡◌, refl, ◌∙◌, true, false, Option, none, some, List, [], ◌∷◌, arith,
}
use nano_net_ull.Base.{
  length, length-set, get_or, set, get_or-set, ◌==◌, if◌then◌else◌, inl, inr, Option-cases,
  Bool-cases,
}
use nano_net_ull.Conn.{
  TcpConn, Key, Connections, TrackEnv, key_of, touch, fresh, walk, slot, conn_hash_size,
  open_connection, track_tcp_connection,
}
use nano_net_ull.Conn.Chain.{
  find, count, same, same_eq, same_refl, same_comm, matches-fresh, touch-Keeps, find-walk_self,
  walk-absent, find-walk_other, count-walk, length-walk, count-eq-zero,
}
use nano_net_ull.Conn.Spec.{track_spec, code_spec, track_spec-code_spec}
use nano_net_ull.Conn.Table.{total-set, view, IsValid, slot-lt}
use nano_net_ull.Errno.{is_error, success}
use nano_net_ull.Packet.{IpHdr, TcpHdr}

module _ (jhash_3words : ℕ → ℕ → ℕ → ℕ → ℕ) (env : TrackEnv) (ip : IpHdr) (tcp : TcpHdr)
    (t : Connections) where
  abbrev k : Key
  k = key_of ip tcp

  abbrev h : ℕ
  h = slot jhash_3words k

  abbrev chain : List TcpConn
  chain = get_or t.chains h []

  track_found :
      (c : TcpConn)
      → find k chain ≡ some c
      → track_tcp_connection jhash_3words env ip tcp t ≡ (
        success,
        record t { chains = set t.chains h (walk k (touch env.jiffies tcp) chain).1 },
        [],
      )
  unfolding track_tcp_connection
  track_found c e =
      ground (arith, find-walk_self k (touch env.jiffies tcp) (touch-Keeps env.jiffies tcp) chain c)

  track_absent :
      find k chain ≡ none
      → track_tcp_connection jhash_3words env ip tcp t ≡ open_connection h env k tcp t
  unfolding track_tcp_connection
  track_absent e =
      ground (arith, walk-absent k (touch env.jiffies tcp) (touch-Keeps env.jiffies tcp) chain)

  module _ (width : length t.chains ≡ conn_hash_size) where
    in_range : h < length t.chains
    in_range = omega (arith, slot-lt jhash_3words k)

    -- A write to the chain of the key that keeps the lookups of the other keys.
    view-write :
        (c : List TcpConn) (o : Option TcpConn)
        → find k c ≡ o
        → ((q : Key) → same q k ≡ false → find q c ≡ find q chain)
        → (q : Key)
        → view jhash_3words (set t.chains h c) q
          ≡ (if same q k then o else view jhash_3words t.chains q)
    unfolding view
    view-write c o own others q = elim (Bool-cases (same q k)) [
      | inl s ↦
          let e : q ≡ k = same_eq q k s in
          ground (arith, e, own, get_or-set t.chains h h c [] in_range)
      | inr s ↦
          ground (arith, others q s, get_or-set t.chains h (slot jhash_3words q) c [] in_range)
    ]

    view_self : view jhash_3words t.chains k ≡ find k chain
    unfolding view
    view_self = refl

    abbrev opened : TcpConn
    opened = fresh env.jiffies k tcp

    -- The entry at the head of the chain is the new connection's.
    view-open :
        (q : Key)
        → view jhash_3words (set t.chains h (opened ∷ chain)) q
          ≡ (if same q k then some opened else view jhash_3words t.chains q)
    unfolding find
    view-open =
        view-write (opened ∷ chain) (some opened)
          (ground (arith, matches-fresh env.jiffies k k tcp, same_refl k))
          (λ q s. ground (arith, matches-fresh env.jiffies k q tcp, same_comm k q))

    view-absent :
        find k chain ≡ none
        → (q : Key)
        → view jhash_3words t.chains q ≡ (if same q k then none else view jhash_3words t.chains q)
    view-absent e q = elim (Bool-cases (same q k)) [
      | inl s ↦ rw (s, same_eq q k s) (view_self ∙ e)
      | inr s ↦ rw s
    ]

    open_refines :
        find k chain ≡ none
        → let (code, t', log) = open_connection h env k tcp t in
          let (code', o) = code_spec env k tcp none in
          (code ≡ code')
          × ((q : Key)
              → view jhash_3words t'.chains q
                ≡ (if same q k then o else view jhash_3words t.chains q))
    unfolding open_connection code_spec
    open_refines e = (ground arith, λ q. ground (arith, view-open q, view-absent e q))

    code_refines :
        let (code, t', log) = track_tcp_connection jhash_3words env ip tcp t in
        let (code', o) = code_spec env k tcp (view jhash_3words t.chains k) in
        (code ≡ code')
        × ((q : Key)
            → view jhash_3words t'.chains q
              ≡ (if same q k then o else view jhash_3words t.chains q))
    unfolding code_spec
    code_refines = elim (Option-cases (find k chain)) [
      | inl e ↦ rw (track_absent e, view_self, e) (open_refines e)
      | inr (c, e) ↦
          let f = touch env.jiffies tcp in
          let keeps = touch-Keeps env.jiffies tcp in
          rw (track_found c e, view_self, e)
            (
              refl,
              view-write (walk k f chain).1 (some (f c)) (find-walk_self k f keeps chain c e).1
                  (λ q s. find-walk_other k f keeps q chain s),
            )
    ]

    -- On a table of 1024 chains, tracking refines `track_spec` on the map: the code and the connection
    -- of the segment's key, each of its fields, are as it says, and every other key keeps its
    -- connection.
    pub track_refines :
        let (code, t', log) = track_tcp_connection jhash_3words env ip tcp t in
        let (code', o) = track_spec env k tcp (view jhash_3words t.chains k) in
        (code ≡ code')
        × ((q : Key)
            → view jhash_3words t'.chains q
              ≡ (if same q k then o else view jhash_3words t.chains q))
    track_refines = rw (track_spec-code_spec env k tcp (view jhash_3words t.chains k)) code_refines

  module _ (v : IsValid jhash_3words t) (e : find k chain ≡ none) where
    abbrev c₀ : TcpConn
    c₀ = fresh env.jiffies k tcp

    count-open : (q : Key) → count q (c₀ ∷ chain) ≤ (if slot jhash_3words q == h then 1 else 0)
    unfolding count
    count-open q = elim (Bool-cases (same q k)) [
      | inl s ↦
          let own : q ≡ k = same_eq q k s in
          rw own (
            ground (arith, matches-fresh env.jiffies k k tcp, same_refl k, count-eq-zero k chain e))
      | inr s ↦ ground (arith, matches-fresh env.jiffies k q tcp, same_comm k q, v.placed q h)
    ]

    open-IsValid : IsValid jhash_3words (open_connection h env k tcp t).1
    unfolding open_connection
    open-IsValid = record {
      width = ground (arith, length-set t.chains h (c₀ ∷ chain), v.width);
      placed = λ q i. ground (
        arith,
        get_or-set t.chains h i (c₀ ∷ chain) [] (in_range v.width),
        count-open q,
        v.placed q i,
      );
      counted = ground (arith, v.counted, total-set t.chains h (c₀ ∷ chain) (in_range v.width));
    }

  -- Tracking keeps the table well formed, whatever the segment and whether or not there is memory.
  pub track-IsValid :
      IsValid jhash_3words t
      → IsValid jhash_3words (track_tcp_connection jhash_3words env ip tcp t).1
  track-IsValid v = elim (Option-cases (find k chain)) [
    | inl e ↦ rw (track_absent e) (open-IsValid v e)
    | inr (c, e) ↦
        let f = touch env.jiffies tcp in
        let keeps = touch-Keeps env.jiffies tcp in
        let c' = (walk k f chain).1 in
        rw (track_found c e) (record {
          width = rw (length-set t.chains h c') v.width;
          placed = λ q i. ground (
            arith,
            get_or-set t.chains h i c' [] (in_range v.width),
            count-walk k f keeps q chain,
            v.placed q i,
          );
          counted = omega (
            arith,
            v.counted,
            total-set t.chains h c' (in_range v.width),
            length-walk k f keeps chain,
          );
        })
  ]

  -- Of the statistics, tracking changes the counter of active connections only, and an error leaves
  -- the table as it was.
  pub track-counters :
      let (code, t', log) = track_tcp_connection jhash_3words env ip tcp t in
      (record (t'.stats) { connections_active = 0 } ≡ record (t.stats) { connections_active = 0 })
      × (is_error code ≡ true → t' ≡ t)
  unfolding open_connection
  track-counters = elim (Option-cases (find k chain)) [
    | inl e ↦ rw (track_absent e) (ground arith)
    | inr (c, e) ↦ rw (track_found c e) (refl, λ h. cc)
  ]
