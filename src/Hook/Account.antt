-- ===== src/Hook/Account.antt =====
-- How a call of the hook moves the counters, and what an accepted packet leaves alone.
use nano_net_ull.Base.{ℕ, ◌+◌, ◌-◌, ◌^◌, u64, ◌≡◌, ◌⊎◌, [], ◌∷◌, if◌then◌else◌, inc64}
use nano_net_ull.Errno.{Code, is_error}
use nano_net_ull.Hook.{Trace, Globals, HookEnv, accept, stolen, Hooked, Headers}
use nano_net_ull.Logic.{Done, code}
use nano_net_ull.Packet.{SkBuff, IpHdr}
use nano_net_ull.Packet.Parse.{Parsed}

-- The four counters of packets.
abbrev pub Counters : Type 0
Counters = record { processed : ℕ; bypassed : ℕ; responses : ℕ; errors : ℕ }

abbrev pub counters : Globals → Counters
counters g = record {
  processed = g.conns.stats.packets_processed;
  bypassed = g.conns.stats.packets_bypassed;
  responses = g.conns.stats.responses_sent;
  errors = g.conns.stats.errors;
}

-- A packet that is let through is counted once, as bypassed or as an error, and nothing is sent: the
-- configuration and the pool stay as they were.
pub record IsLetThrough (c : Counters) (g : Globals) (r : Hooked) : Type 0 where
  pub counted :
      (counters r.globals ≡ record c { bypassed = inc64 c.bypassed })
      ⊎ (counters r.globals ≡ record c { errors = inc64 c.errors })
  pub same_config : r.globals.config ≡ g.config
  pub same_pool : r.globals.pool ≡ g.pool
  pub silent : r.frames ≡ []
  pub untraced : r.traces ≡ []

-- A packet that is taken is traced with the code that the application logic has returned. It is
-- counted as processed, and also as an error exactly where that code is one; the counters of
-- responses and of bypassed packets do not move.
pub record IsTaken (c : Counters) (r : Hooked) : Type 0 where
  pub trace : Trace
  pub traced : r.traces ≡ trace ∷ []
  pub ret : Code
  pub returned : trace.result ≡ code ret
  pub counted : counters r.globals ≡ record c {
    processed = inc64 c.processed;
    errors = if is_error ret then inc64 c.errors else c.errors;
  }

abbrev pub IsAccounted : Counters → Globals → Hooked → Type 0
IsAccounted c g r =
    ((r.verdict ≡ accept) × IsLetThrough c g r) ⊎ ((r.verdict ≡ stolen) × IsTaken c r)

module _ (env : HookEnv) (skb : SkBuff) (out : Parsed) (ip : IpHdr) (headers : Headers) where
  -- The trace event of a packet with these ports.
  abbrev traced : Done → ℕ × ℕ → Trace
  traced done p = record {
    src_ip = ip.saddr;
    src_port = p.0;
    dst_ip = ip.daddr;
    dst_port = p.1;
    process_time_ns = u64 (env.end_time + 2 ^ 64 - env.start_time);
    result = done.result;
  }
