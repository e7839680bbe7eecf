-- ===== src/Lifecycle/Rollback.antt =====
-- What a load that fails, and an unload, leave behind.
use nano_net_ull.Base.{
  some_of_ne_none, sym, ◌≡◌, ◌⊎◌, ◌≢◌, Bool, not, ◌&&◌, if◌then◌else◌, true, false, none, some, [],
  ◌∷◌, ◌++◌, arith,
}
use nano_net_ull.Config.{Config}
use nano_net_ull.Errno.{Code, is_error}
use nano_net_ull.Lifecycle.{
  target_dev, chrdev_region, cdev, class, device, proc_entry, debug_dir, debug_file, group,
  net_hook, Kernel, Held, Loaded, control_init, finish_init, nanonet_init, nanonet_exit,
}
use nano_net_ull.Pool.{Pool, init_response_pool}

-- What is held before the membership.
abbrev pub base : Held
base = debug_file ∷ debug_dir ∷ proc_entry ∷ device ∷ class ∷ cdev ∷ chrdev_region ∷ target_dev ∷ []

abbrev pub membership : Config → Held
membership c = if c.multicast then group ∷ [] else []

-- Each step of the load before the registration of the hook succeeds.
abbrev control_succeeds : Kernel → Bool
control_succeeds k =
    not (is_error k.alloc_chrdev_region)
    && (not (is_error k.cdev_add)
        && (not (is_error k.class_create) && (not (is_error k.device_create) && k.proc_create)))

abbrev rest_succeeds : Kernel → Config → Bool
rest_succeeds k c =
    (k.debugfs_create_dir && k.debugfs_create_file)
    && not (c.multicast && is_error k.ip_mc_join_group)

abbrev reaches_hook : Kernel → Config → Pool → Bool
reaches_hook k c pool =
    (k.dev_get_by_name && not (is_error ((init_response_pool k.alloc_skb pool).0)))
    && (control_succeeds k && rest_succeeds k c)

-- The load succeeds exactly where each step does, the hook included, and then everything is held. A
-- load that fails before the hook holds nothing; one that fails at the hook still holds the membership.
abbrev IsCleanAfter : Bool → Kernel → Config → Loaded → Type 0
IsCleanAfter reached k c l =
    (is_error l.result ≡ not (reached && not (is_error k.nf_register_net_hook)))
    × (l.held ≡ (
        if reached
        then (if is_error k.nf_register_net_hook
            then membership c
            else net_hook ∷ membership c ++ base)
        else []))

abbrev pub IsClean : Kernel → Config → Pool → Loaded → Type 0
IsClean k c pool l = IsCleanAfter (reaches_hook k c pool) k c l

module _ (k : Kernel) (c : Config) (pool : Pool) where
  abbrev controlled : Held
  controlled = proc_entry ∷ device ∷ class ∷ cdev ∷ chrdev_region ∷ target_dev ∷ []

  finish_init_ne : finish_init k c pool controlled ≢ none
  unfolding finish_init
  finish_init_ne = ground arith

  finish_init-IsClean :
      {l : Loaded}
      → finish_init k c pool controlled ≡ some l
      → IsCleanAfter (rest_succeeds k c) k c l
  unfolding finish_init
  finish_init-IsClean h = ground arith

  -- The control interface is set up whole, or not at all.
  control_init-whole :
      (r : Code × Held) × (control_init k (target_dev ∷ []) ≡ some r)
      × (((is_error r.0 ≡ true) × (control_succeeds k ≡ false) × (r.1 ≡ target_dev ∷ []))
          ⊎ ((is_error r.0 ≡ false) × (control_succeeds k ≡ true) × (r.1 ≡ controlled)))
  unfolding control_init
  control_init-whole =
      let total = some_of_ne_none (control_init k (target_dev ∷ [])) (λ e. ground arith) in
      (total.0, total.1, (let e = total.1 in ground arith))

  nanonet_init_ne : nanonet_init k c pool ≢ none
  unfolding nanonet_init
  nanonet_init_ne e =
      let whole = control_init-whole in ground (arith, whole.1, whole.2, finish_init_ne)

  -- A load releases nothing that it does not hold. It succeeds exactly where each of its steps does, and
  -- then everything is held. Where a step before the registration of the hook fails, nothing stays held;
  -- where that registration fails, the membership of the group stays, if the configuration has one.
  pub nanonet_init-IsClean : (l : Loaded) × (nanonet_init k c pool ≡ some l) × IsClean k c pool l
  unfolding nanonet_init
  nanonet_init-IsClean =
      let total = some_of_ne_none (nanonet_init k c pool) nanonet_init_ne in
      let whole = control_init-whole in
      (
        total.0,
        total.1,
        (let e = total.1 in ground (arith, whole.1, whole.2, finish_init-IsClean {l = total.0})),
      )

  success-held :
      (reached : Bool) (l : Loaded)
      → IsCleanAfter reached k c l
      → is_error l.result ≡ false
      → l.held ≡ net_hook ∷ membership c ++ base
  success-held true l clean ok = ground (arith, clean, ok)
  success-held false l clean ok = ground (arith, clean, ok)

  exit-held :
      (l : Loaded)
      → l.held ≡ net_hook ∷ membership c ++ base
      → (l' : Loaded) × (nanonet_exit l.pool l.held ≡ some l') × (l'.held ≡ membership c)
  unfolding nanonet_exit
  exit-held l all =
      let total = some_of_ne_none (nanonet_exit l.pool l.held) (λ e. ground (arith, all)) in
      (total.0, total.1, (let e = total.1 in ground (arith, all)))

  -- An unload after a load that has succeeded releases nothing twice and everything but the
  -- membership of the multicast group, if there is one.
  pub nanonet_exit-held :
      {l : Loaded}
      → nanonet_init k c pool ≡ some l
      → is_error l.result ≡ false
      → (l' : Loaded) × (nanonet_exit l.pool l.held ≡ some l') × (l'.held ≡ membership c)
  nanonet_exit-held {l} h ok =
      let (l₁, made, clean) = nanonet_init-IsClean in
      let same : l₁ ≡ l = cc in
      let all : l.held ≡ net_hook ∷ membership c ++ base =
        success-held (reaches_hook k c pool) l (rw (sym same) clean) ok in
      exit-held l all
