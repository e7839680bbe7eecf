-- ===== src/Lifecycle.antt =====
-- The load and the unload of the module: src/nanonet.c, with the parts of src/control_interface.c,
-- src/debug.c and src/optimizations.c that they call. The results of the kernel's functions are
-- parameters; `none` is the release of something that is not held.
pub mod Rollback
pub mod Buffers
use nano_net_ull.Base.{
  ℕ, Bool, true, false, not, ◌||◌, Option, none, some, List, [], ◌∷◌, ◌++◌, ◌==◌, if◌then◌else◌,
}
use nano_net_ull.Config.{Config}
use nano_net_ull.Debug.{Message}
use nano_net_ull.Errno.{Code, is_error, success, enomem, enodev}
use nano_net_ull.Packet.{◌>>=◌}
use nano_net_ull.Pool.{Pool, init_response_pool, cleanup_response_pool}

-- What the module holds of the kernel; the buffers of the pool stand in the pool.
pub data Resource : Type 0 where
  target_dev chrdev_region cdev class device proc_entry debug_dir debug_file group net_hook :
      Resource

abbrev rank : Resource → ℕ
rank target_dev = 0
rank chrdev_region = 1
rank cdev = 2
rank class = 3
rank device = 4
rank proc_entry = 5
rank debug_dir = 6
rank debug_file = 7
rank group = 8
rank net_hook = 9

-- The results of the kernel's functions in one load; for those that return a pointer, whether it is
-- there, or the error that it stands for.
pub record Kernel : Type 0 where
  pub dev_get_by_name : Bool
  pub alloc_skb : ℕ → Option ℕ
  pub alloc_chrdev_region : Code
  pub cdev_add : Code
  pub class_create : Code
  pub device_create : Code
  pub proc_create : Bool
  pub debugfs_create_dir : Bool
  pub debugfs_create_file : Bool
  pub ip_mc_join_group : Code
  pub nf_register_net_hook : Code

abbrev pub Held : Type 0
Held = List Resource

release : Resource → Held → Option Held
release r [] = none
release r (a ∷ held) =
    if rank r == rank a then some held else (release r held >>= λ h. some (a ∷ h))

-- Several releases, in order.
release_all : List Resource → Held → Option Held
unfolding release
release_all [] held = some held
release_all (r ∷ rs) held = release r held >>= λ h. release_all rs h

-- A failure: the releases, and then the code.
abbrev fail : Code → List Resource → Held → Option (Code × Held)
fail ret rs held = release_all rs held >>= λ h. some (ret, h)

pub control_init : Kernel → Held → Option (Code × Held)
unfolding release_all
control_init k held =
    if is_error k.alloc_chrdev_region
    then some (k.alloc_chrdev_region, held)
    else if is_error k.cdev_add
    then fail k.cdev_add (chrdev_region ∷ []) (chrdev_region ∷ held)
    else if is_error k.class_create
    then fail k.class_create (cdev ∷ chrdev_region ∷ []) (cdev ∷ chrdev_region ∷ held)
    else if is_error k.device_create
    then fail k.device_create (class ∷ cdev ∷ chrdev_region ∷ [])
        (class ∷ cdev ∷ chrdev_region ∷ held)
    else if not k.proc_create
    then fail enomem (device ∷ class ∷ cdev ∷ chrdev_region ∷ [])
        (device ∷ class ∷ cdev ∷ chrdev_region ∷ held)
    else some (success, proc_entry ∷ device ∷ class ∷ cdev ∷ chrdev_region ∷ held)

control_cleanup : Held → Option Held
unfolding release_all
control_cleanup held = release_all (proc_entry ∷ device ∷ class ∷ cdev ∷ chrdev_region ∷ []) held

debug_init : Kernel → Held → Option (Code × Held)
unfolding release_all
debug_init k held =
    if not k.debugfs_create_dir
    then some (enomem, held)
    else if not k.debugfs_create_file
    then fail enomem (debug_dir ∷ []) (debug_dir ∷ held)
    else some (success, debug_file ∷ debug_dir ∷ held)

-- `debugfs_remove_recursive` of the directory takes the file with it.
debug_cleanup : Held → Option Held
unfolding release_all
debug_cleanup held = release_all (debug_file ∷ debug_dir ∷ []) held

-- The membership that `init_multicast` asks for; `target_dev` is not null where it is called.
init_multicast : Kernel → Config → Held → Code × Held
init_multicast k c held =
    if not c.multicast
    then (success, held)
    else if is_error k.ip_mc_join_group
    then (k.ip_mc_join_group, held)
    else (success, group ∷ held)

-- What is left of a load: the result, what is held, the pool, the buffers that were freed, and the
-- calls of the error log.
pub record Loaded : Type 0 where
  pub result : Code
  pub held : Held
  pub pool : Pool
  pub freed : List ℕ
  pub log : List Message

-- `nanonet_cleanup_response_pool(); dev_put(target_dev);`
undo_pool : Code → Pool → Held → Option Loaded
unfolding release
undo_pool result pool held = release target_dev held >>= λ h.
    let (pool', gone) = cleanup_response_pool pool in
    some (record { result = result; held = h; pool = pool'; freed = gone; log = [] })

undo_control : Code → Pool → Held → Option Loaded
unfolding control_cleanup undo_pool
undo_control result pool held = control_cleanup held >>= λ h. undo_pool result pool h

undo_debug : Code → Pool → Held → Option Loaded
unfolding debug_cleanup undo_control
undo_debug result pool held = debug_cleanup held >>= λ h. undo_control result pool h

-- Lines 179 to 216.
pub finish_init : Kernel → Config → Pool → Held → Option Loaded
unfolding debug_init init_multicast undo_control undo_debug
finish_init k c pool held = debug_init k held >>= λ debug.
    if is_error (debug.0)
    then undo_control debug.0 pool debug.1
    else (let (joined, held') = init_multicast k c debug.1 in
        if is_error joined
        then undo_debug joined pool held'
        else if is_error k.nf_register_net_hook
        then undo_debug k.nf_register_net_hook pool held'
        else some (record {
          result = success;
          held = net_hook ∷ held';
          pool = pool;
          freed = [];
          log = [];
        }))

unfoldable pub nanonet_init : Kernel → Config → Pool → Option Loaded
unfolding control_init undo_pool finish_init
nanonet_init k c pool =
    if not k.dev_get_by_name
    then some (record { result = enodev; held = []; pool = pool; freed = []; log = [] })
    else (let (result, pool', gone, log) = init_response_pool k.alloc_skb pool in
        if is_error result
        then (release target_dev (target_dev ∷ []) >>= λ h.
            some (record { result = result; held = h; pool = pool'; freed = gone; log = log }))
        else (control_init k (target_dev ∷ []) >>= λ control.
            if is_error (control.0)
            then undo_pool control.0 pool' control.1
            else finish_init k c pool' control.1))

-- Unloading after a load that has succeeded, when `target_dev` is not null.
unfoldable pub nanonet_exit : Pool → Held → Option Loaded
unfolding undo_debug release
nanonet_exit pool held = release net_hook held >>= λ h. undo_debug success pool h
