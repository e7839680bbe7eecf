-- ===== src/Layout/Numbers.antt =====
-- Which commands of the tool the module knows.
use nano_net_ull.Base.{ℕ, ◌<◌, ◌≡◌, ◌≢◌, ◌⊎◌, arith, false, ◌==◌}
use nano_net_ull.Layout.{magic}

-- What the kernel documents of `_IOC`: the number holds each of the direction, in 2 bits, the number,
-- in 8, and the size, in 14.
pub record IsIoc (ioc : ℕ → ℕ → ℕ → ℕ → ℕ) : Type 0 where
  pub distinct :
      (d n s d' n' s' : ℕ)
      → (d < 4) × (n < 256) × (s < 16384)
      → (d' < 4) × (n' < 256) × (s' < 16384)
      → ioc d magic n s ≡ ioc d' magic n' s'
      → (d ≡ d') × (n ≡ n') × (s ≡ s')

module _ (ioc : ℕ → ℕ → ℕ → ℕ → ℕ) (law : IsIoc ioc) where
  pub differs :
      (d n s d' n' s' : ℕ)
      → (d < 4) × (n < 256) × (s < 16384)
      → (d' < 4) × (n' < 256) × (s' < 16384)
      → (n ≢ n') ⊎ (s ≢ s')
      → (ioc d magic n s == ioc d' magic n' s') ≡ false
  differs d n s d' n' s' b b' ne = ground (arith, law.distinct d n s d' n' s' b b')
