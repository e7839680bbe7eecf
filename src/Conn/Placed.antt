-- ===== src/Conn/Placed.antt =====
-- What holds of the chains whatever the counters are.
use nano_net_ull.Base.{ℕ, ◌≡◌, arith}
use nano_net_ull.Conn.{Connections, TrackEnv, open_connection, track_tcp_connection}
use nano_net_ull.Conn.Table.{IsPlaced, recounted, IsPlaced-recounted}
use nano_net_ull.Conn.Track.{track-IsValid}
use nano_net_ull.Packet.{IpHdr, TcpHdr}

module _ (jhash_3words : ℕ → ℕ → ℕ → ℕ → ℕ) (env : TrackEnv) (ip : IpHdr) (tcp : TcpHdr)
    (t : Connections) where
  -- The chains that tracking leaves do not depend on the statistics.
  track-recounted :
      (track_tcp_connection jhash_3words env ip tcp (recounted jhash_3words t)).1.chains
      ≡ (track_tcp_connection jhash_3words env ip tcp t).1.chains
  unfolding track_tcp_connection open_connection
  track-recounted = ground arith

  pub track-IsPlaced :
      IsPlaced jhash_3words t
      → IsPlaced jhash_3words (track_tcp_connection jhash_3words env ip tcp t).1
  track-IsPlaced v =
      let v' =
        track-IsValid jhash_3words env ip tcp (recounted jhash_3words t)
          (IsPlaced-recounted jhash_3words t v) in
      record { width = rw (← track-recounted) v'.width; placed = rw (← track-recounted) v'.placed }
