-- ===== src/Hook/Valid.antt =====
-- The table of connections stays well formed under a call of the hook.
use nano_net_ull.Base.{ℕ, ◌≡◌, some}
use nano_net_ull.Conn.{Connections}
use nano_net_ull.Conn.Table.{IsPlaced, IsValid}
use nano_net_ull.Conn.Placed.{track-IsPlaced}
use nano_net_ull.Conn.Track.{track-IsValid}
use nano_net_ull.Hook.{Globals, HookEnv, Hooked, hook}
use nano_net_ull.Hook.Preserve.{SameTable, IsPreserved, hook_preserves}
use nano_net_ull.Packet.{SkBuff}

module _ (jhash_3words : ℕ → ℕ → ℕ → ℕ → ℕ) where
  SameTable-IsPlaced :
      (t t' : Connections) → SameTable t t' → IsPlaced jhash_3words t → IsPlaced jhash_3words t'
  SameTable-IsPlaced t t' same v = record {
    width = rw (same.chains) v.width;
    placed = rw (same.chains) v.placed;
  }

  SameTable-IsValid :
      (t t' : Connections) → SameTable t t' → IsValid jhash_3words t → IsValid jhash_3words t'
  SameTable-IsValid t t' same v = record {
    width = rw (same.chains) v.width;
    placed = rw (same.chains) v.placed;
    counted = rw (same.chains, same.active) v.counted;
  }

  IsPlaced-IsPreserved : IsPreserved jhash_3words (IsPlaced jhash_3words)
  IsPlaced-IsPreserved = record { same = SameTable-IsPlaced; track = track-IsPlaced jhash_3words }

  IsValid-IsPreserved : IsPreserved jhash_3words (IsValid jhash_3words)
  IsValid-IsPreserved = record { same = SameTable-IsValid; track = track-IsValid jhash_3words }

  module _ (env : HookEnv) (skb : SkBuff) (g : Globals) {r : Hooked} where
    pub hook-IsPlaced :
        IsPlaced jhash_3words g.conns
        → hook jhash_3words env skb g ≡ some r
        → IsPlaced jhash_3words r.globals.conns
    hook-IsPlaced v h =
        hook_preserves jhash_3words (IsPlaced jhash_3words) IsPlaced-IsPreserved env skb g {r = r} v
          h

    -- A call of the hook that returns keeps the table of connections well formed.
    pub hook-IsValid :
        IsValid jhash_3words g.conns
        → hook jhash_3words env skb g ≡ some r
        → IsValid jhash_3words r.globals.conns
    hook-IsValid v h =
        hook_preserves jhash_3words (IsValid jhash_3words) IsValid-IsPreserved env skb g {r = r} v h
