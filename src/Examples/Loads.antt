-- ===== src/Examples/Loads.antt =====
-- Loads and unloads of the module.
use nano_net_ull.Base.{
  ◌+◌, ◌*◌, ℕ, ◌≡◌, ◌⊎◌, refl, ◌++◌, Option, false, true, none, some, [], ◌∷◌, replicate,
}
use nano_net_ull.Config.{Config}
use nano_net_ull.Errno.{Code, is_error, success, enomem}
use nano_net_ull.Examples.{config}
use nano_net_ull.Lifecycle.{Kernel, Loaded, net_hook, group, nanonet_init, nanonet_exit}
use nano_net_ull.Lifecycle.Rollback.{
  IsClean, membership, base, nanonet_init-IsClean, nanonet_exit-held,
}
use nano_net_ull.Lifecycle.Buffers.{nanonet_init-buffers, nanonet_exit-buffers}
use nano_net_ull.Pool.{Pool}
use nano_net_ull.Pool.Drain.{drain}
use nano_net_ull.Pool.Conserve.{span, drained, init_stocks}

abbrev grouped : Config
grouped = record config { multicast = true; multicast_group = 16777440 }

abbrev bare : Pool
bare = record { slots = replicate 256 none; head = 0; tail = 0 }

abbrev kernel : Code → Kernel
kernel registered = record {
  dev_get_by_name = true;
  alloc_skb = λ i. some (4096 + i * 2048);
  alloc_chrdev_region = success;
  cdev_add = success;
  class_create = success;
  device_create = success;
  proc_create = true;
  debugfs_create_dir = true;
  debugfs_create_file = true;
  ip_mc_join_group = success;
  nf_register_net_hook = registered;
}

nanonet_init-IsClean_example :
    (l : Loaded) × (nanonet_init (kernel enomem) grouped bare ≡ some l)
    × IsClean (kernel enomem) grouped bare l
nanonet_init-IsClean_example = nanonet_init-IsClean (kernel enomem) grouped bare

abbrev up : Loaded
up = record {
  result = success;
  held = net_hook ∷ group ∷ base;
  pool = drained 0 (span (λ i. 4096 + i * 2048) 0 256);
  freed = [];
  log = [];
}

loaded_up : nanonet_init (kernel success) grouped bare ≡ some up
unfolding nanonet_init
loaded_up =
    rw (init_stocks (kernel success).alloc_skb (λ i. 4096 + i * 2048) bare refl (λ j h. refl)) refl

nanonet_exit-held_example :
    (l' : Loaded) × (nanonet_exit up.pool up.held ≡ some l') × (l'.held ≡ membership grouped)
nanonet_exit-held_example = nanonet_exit-held (kernel success) grouped bare loaded_up refl

-- The address of a buffer.
abbrev address : ℕ → ℕ
address i = 4096 + i * 2048

nanonet_init-buffers_example :
    ((is_error up.result ≡ false) × (up.freed ≡ []) × (up.pool ≡ drained 0 (span address 0 256)))
    ⊎ ((is_error up.result ≡ true) × (up.freed ≡ span address 0 256))
nanonet_init-buffers_example =
    nanonet_init-buffers (kernel success) grouped bare address refl (λ j h. refl) loaded_up refl

-- Two buffers are handed out before the unload.
abbrev down : Option Loaded
down = nanonet_exit (drain 2 up.pool).1 up.held

abbrev of_exit : Option Loaded → Loaded
of_exit none = up
of_exit (some l) = l

down-some : down ≡ some (of_exit down)
unfolding nanonet_exit
down-some = refl

nanonet_exit-buffers_example : (drain 2 up.pool).0 ++ (of_exit down).freed ≡ span address 0 256
nanonet_exit-buffers_example =
    nanonet_exit-buffers (kernel success) grouped bare address refl (λ j h. refl) loaded_up refl 2
      refl down-some
