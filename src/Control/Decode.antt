-- ===== src/Control/Decode.antt =====
-- What the module makes of the commands of the tool.
use nano_net_ull.Base.{ℕ, ◌<◌, ◌≡◌, ◌≢◌, ◌⊎◌, refl, arith, Bool}
use nano_net_ull.Config.{Config}
use nano_net_ull.Control.{get_stats, reset_stats, clear_connections, other, decode}
use nano_net_ull.Layout.{magic, Requests, module_requests, tool_requests}
use nano_net_ull.Layout.Numbers.{IsIoc, differs}

module _ (ioc : ℕ → ℕ → ℕ → ℕ → ℕ) (law : IsIoc ioc) (copied : Bool) (c : Config) where
  abbrev R : Requests
  R = module_requests ioc

  abbrev T : Requests
  T = tool_requests ioc

  -- The number of a command that differs from all five is unknown.
  decode-other :
      (d n s : ℕ)
      → (d < 4) × (n < 256) × (s < 16384)
      → (n ≢ 1) ⊎ (s ≢ 32)
      → (n ≢ 2) ⊎ (s ≢ 32)
      → (n ≢ 3) ⊎ (s ≢ 80)
      → (n ≢ 4) ⊎ (s ≢ 0)
      → (n ≢ 5) ⊎ (s ≢ 0)
      → decode R (ioc d magic n s) copied c ≡ other (ioc d magic n s)
  unfolding decode
  decode-other d n s b h₁ h₂ h₃ h₄ h₅ =
      let e₁ = differs ioc law d n s 1 1 32 b (omega arith) h₁ in
      let e₂ = differs ioc law d n s 2 2 32 b (omega arith) h₂ in
      let e₃ = differs ioc law d n s 2 3 80 b (omega arith) h₃ in
      let e₄ = differs ioc law d n s 0 4 0 b (omega arith) h₄ in
      let e₅ = differs ioc law d n s 0 5 0 b (omega arith) h₅ in rw (e₁, e₂, e₃, e₄, e₅) refl

  pub decode-set_config : decode R (T.set_config) copied c ≡ other (T.set_config)
  decode-set_config =
      decode-other 1 1 28 (omega arith) (omega arith) (omega arith) (omega arith) (omega arith)
        (omega arith)

  pub decode-get_config : decode R (T.get_config) copied c ≡ other (T.get_config)
  decode-get_config =
      decode-other 2 2 28 (omega arith) (omega arith) (omega arith) (omega arith) (omega arith)
        (omega arith)

  pub decode-get_stats : decode R (T.get_stats) copied c ≡ get_stats copied
  unfolding decode
  decode-get_stats = ground (
    arith,
    differs ioc law 2 3 80 1 1 32 (omega arith) (omega arith) (omega arith),
    differs ioc law 2 3 80 2 2 32 (omega arith) (omega arith) (omega arith),
  )

  pub decode-reset_stats : decode R (T.reset_stats) copied c ≡ reset_stats
  unfolding decode
  decode-reset_stats = ground (
    arith,
    differs ioc law 0 4 0 1 1 32 (omega arith) (omega arith) (omega arith),
    differs ioc law 0 4 0 2 2 32 (omega arith) (omega arith) (omega arith),
    differs ioc law 0 4 0 2 3 80 (omega arith) (omega arith) (omega arith),
  )

  pub decode-clear_connections : decode R (T.clear_connections) copied c ≡ clear_connections
  unfolding decode
  decode-clear_connections = ground (
    arith,
    differs ioc law 0 5 0 1 1 32 (omega arith) (omega arith) (omega arith),
    differs ioc law 0 5 0 2 2 32 (omega arith) (omega arith) (omega arith),
    differs ioc law 0 5 0 2 3 80 (omega arith) (omega arith) (omega arith),
    differs ioc law 0 5 0 0 4 0 (omega arith) (omega arith) (omega arith),
  )
