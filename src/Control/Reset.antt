-- ===== src/Control/Reset.antt =====
-- The counter of active connections after the statistics have been reset under a live table.
use nano_net_ull.Base.{ℕ, ◌-◌, ◌^◌, ◌<◌, ◌≡◌, arith}
use nano_net_ull.Conn.{clear_tcp_connections}
use nano_net_ull.Conn.Clear.{clear-IsFreed, total-clear}
use nano_net_ull.Conn.Table.{IsValid, total}
use nano_net_ull.Control.{reset_stats, clear_connections, ioctl}
use nano_net_ull.Hook.{Globals}
use nano_net_ull.Stats.{zeroed}

module _ (jhash_3words : ℕ → ℕ → ℕ → ℕ → ℕ) (g : Globals) where
  -- Resetting the statistics and then clearing a table that holds connections leaves an empty table
  -- whose counter of active connections has wrapped below 0, so it is no longer well formed.
  pub reset-clear_underflows :
      0 < total g.conns.chains
      → total g.conns.chains < 2 ^ 64
      → let g' = (ioctl clear_connections (ioctl reset_stats g).globals).globals in
        (total g'.conns.chains ≡ 0)
        × (g'.conns.stats.connections_active ≡ 2 ^ 64 - total g.conns.chains)
        × ¬ IsValid jhash_3words g'.conns
  unfolding ioctl
  reset-clear_underflows some_open small =
      let n = total g.conns.chains in
      let s = (clear_tcp_connections g.conns.chains zeroed).stats in
      let freed = clear-IsFreed g.conns.chains zeroed in
      let none_left = total-clear g.conns.chains zeroed in
      let wrapped : s.connections_active ≡ 2 ^ 64 - n =
        omega (arith, freed.active, freed.bounded (omega arith)) in
      (none_left, wrapped, λ v. omega (arith, v.counted, none_left, wrapped))
