-- ===== src/Lifecycle/Buffers.antt =====
-- The buffers of the response pool from the load of the module to its unload.
use nano_net_ull.Base.{
  ℕ, ◌<◌, ◌≡◌, ◌⊎◌, inl, inr, true, false, some, [], ◌∷◌, ◌++◌, arith, length, Option-cases,
}
use nano_net_ull.Config.{Config}
use nano_net_ull.Errno.{Code, is_error, success}
use nano_net_ull.Lifecycle.{
  Kernel, Held, Loaded, control_cleanup, control_init, debug_cleanup, debug_init, finish_init,
  init_multicast, nanonet_exit, nanonet_init, release, net_hook, target_dev, undo_control,
  undo_debug, undo_pool,
}
use nano_net_ull.Pool.{Pool, cleanup_response_pool, response_pool_size}
use nano_net_ull.Pool.Conserve.{span, drained, init_stocks}
use nano_net_ull.Pool.Drain.{drain, cleanup-drained, full_conserves}

-- A failure that has freed the buffers of a pool.
abbrev FreesPool : Code → Pool → Loaded → Type 0
FreesPool result pool l = (l.result ≡ result) × (l.freed ≡ (cleanup_response_pool pool).1)

module _ (result : Code) (pool : Pool) (held : Held) {l : Loaded} where
  undo_pool-FreesPool : undo_pool result pool held ≡ some l → FreesPool result pool l
  unfolding undo_pool
  undo_pool-FreesPool h = elim (Option-cases (release target_dev held)) [
    | inl e ↦ ground arith
    | inr (held', e) ↦ ground arith
  ]

module _ (result : Code) (pool : Pool) (held : Held) {l : Loaded} where
  undo_control-FreesPool : undo_control result pool held ≡ some l → FreesPool result pool l
  unfolding undo_control
  undo_control-FreesPool h = elim (Option-cases (control_cleanup held)) [
    | inl e ↦ ground arith
    | inr (held', e) ↦ ground (arith, undo_pool-FreesPool result pool held' {l = l})
  ]

module _ (result : Code) (pool : Pool) (held : Held) {l : Loaded} where
  undo_debug-FreesPool : undo_debug result pool held ≡ some l → FreesPool result pool l
  unfolding undo_debug
  undo_debug-FreesPool h = elim (Option-cases (debug_cleanup held)) [
    | inl e ↦ ground arith
    | inr (held', e) ↦ ground (arith, undo_control-FreesPool result pool held' {l = l})
  ]

-- A load with a filled pool keeps all of it, or frees all of it.
abbrev KeepsOrFrees : Pool → Loaded → Type 0
KeepsOrFrees pool l =
    ((is_error l.result ≡ false) × (l.freed ≡ []) × (l.pool ≡ pool))
    ⊎ ((is_error l.result ≡ true) × (l.freed ≡ (cleanup_response_pool pool).1))

module _ (k : Kernel) (c : Config) (pool : Pool) (held : Held) {l : Loaded} where
  finish_init-KeepsOrFrees : finish_init k c pool held ≡ some l → KeepsOrFrees pool l
  unfolding finish_init
  finish_init-KeepsOrFrees h = elim (Option-cases (debug_init k held)) [
    | inl e ↦ ground arith
    | inr (debug, e) ↦
        let joined = init_multicast k c debug.1 in
        ground (
          arith,
          undo_control-FreesPool debug.0 pool debug.1 {l = l},
          undo_debug-FreesPool joined.0 pool joined.1 {l = l},
          undo_debug-FreesPool k.nf_register_net_hook pool joined.1 {l = l},
        )
  ]

module _ (k : Kernel) (c : Config) (pool : Pool) (a : ℕ → ℕ)
    (wide : length pool.slots ≡ response_pool_size)
    (all : (j : ℕ) → j < response_pool_size → k.alloc_skb j ≡ some (a j)) {l : Loaded}
    (load : nanonet_init k c pool ≡ some l) (found : k.dev_get_by_name ≡ true) where
  abbrev full : Pool
  full = drained 0 (span a 0 response_pool_size)

  init-KeepsOrFrees : KeepsOrFrees full l
  unfolding nanonet_init
  init-KeepsOrFrees =
      let stocks = init_stocks k.alloc_skb a pool wide all in
      elim (Option-cases (control_init k (target_dev ∷ []))) [
        | inl e ↦ ground (arith, stocks)
        | inr (control, e) ↦ ground (
          arith,
          stocks,
          undo_pool-FreesPool control.0 full control.1 {l = l},
          finish_init-KeepsOrFrees k c full control.1 {l = l},
        )
      ]

  -- A load that finds the device and gets all 256 buffers keeps them all in the pool, in the order
  -- of their allocation, or, where it ends in an error, has freed each of them once.
  pub nanonet_init-buffers :
      ((is_error l.result ≡ false) × (l.freed ≡ []) × (l.pool ≡ full))
      ⊎ ((is_error l.result ≡ true) × (l.freed ≡ span a 0 response_pool_size))
  nanonet_init-buffers =
      let freed = cleanup-drained 0 (span a 0 response_pool_size) in
      let kept = init-KeepsOrFrees in ground (arith, kept, freed)

  -- From such a load, where it succeeds, to the unload, with `n` calls for a buffer between: the
  -- buffers that are handed out and those that the unload frees are all 256, each once and in order.
  pub nanonet_exit-buffers :
      (n : ℕ) {l' : Loaded}
      → is_error l.result ≡ false
      → let (handed, pool') = drain n l.pool in
        nanonet_exit pool' l.held ≡ some l' → handed ++ l'.freed ≡ span a 0 response_pool_size
  unfolding nanonet_exit
  nanonet_exit-buffers n {l'} ok h =
      let pool' = (drain n l.pool).1 in
      let same : l.pool ≡ full = ground (arith, nanonet_init-buffers) in
      let freed : l'.freed ≡ (cleanup_response_pool pool').1 =
        elim (Option-cases (release net_hook l.held)) [
          | inl e ↦ ground arith
          | inr (held, e) ↦ ground (arith, undo_debug-FreesPool success pool' held {l = l'})
        ] in
      rw (freed, same) (full_conserves a n).0
