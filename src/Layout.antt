-- ===== src/Layout.antt =====
-- The layout of the structures that cross the device, and the numbers of the commands: include/nanonet.h
-- and src/control_interface.c on the one side, tools/nanonet_control.c on the other.
-- `ioc` is the kernel's macro `_IOC`, of a direction, a type, a number and a size: a parameter.
pub mod Numbers
use nano_net_ull.Base.{ℕ, ◌+◌, ◌-◌, ◌*◌, ◌/◌, List, [], ◌∷◌, ltb, if◌then◌else◌}

-- The next offset that a field of `n` bytes, aligned to its size, can have.
abbrev align_up : ℕ → ℕ → ℕ
align_up offset n = (offset + n - 1) / n * n

abbrev end_of : ℕ → List ℕ → ℕ
end_of offset [] = offset
end_of offset (n ∷ ns) = end_of (align_up offset n + n) ns

abbrev largest : List ℕ → ℕ
largest [] = 1
largest (n ∷ ns) = let m = largest ns in if ltb m n then n else m

-- The `sizeof` of a structure whose fields have these sizes, as the ABI of x86-64 lays it out.
abbrev struct_size : List ℕ → ℕ
struct_size fields = align_up (end_of 0 fields) (largest fields)

-- `struct ull_config` and `struct ull_stats` of the module.
abbrev config_fields : List ℕ
config_fields = 1 ∷ 4 ∷ 2 ∷ 1 ∷ 4 ∷ 2 ∷ 4 ∷ 1 ∷ 1 ∷ 4 ∷ []

abbrev stats_fields : List ℕ
stats_fields = 8 ∷ 8 ∷ 8 ∷ 8 ∷ 8 ∷ 8 ∷ 8 ∷ 8 ∷ 8 ∷ 8 ∷ []

-- The same two of the tool.
abbrev tool_config_fields : List ℕ
tool_config_fields = 4 ∷ 4 ∷ 2 ∷ 1 ∷ 4 ∷ 2 ∷ 1 ∷ 4 ∷ 4 ∷ []

abbrev tool_stats_fields : List ℕ
tool_stats_fields = 8 ∷ 8 ∷ 8 ∷ 8 ∷ 8 ∷ 8 ∷ 8 ∷ 8 ∷ 8 ∷ 8 ∷ []

-- `NANONET_IOC_MAGIC`
abbrev pub magic : ℕ
magic = b'u'

-- `NANONET_IOC_SET_CONFIG` and the others.
pub record Requests : Type 0 where
  pub set_config : ℕ
  pub get_config : ℕ
  pub get_stats : ℕ
  pub reset_stats : ℕ
  pub clear_connections : ℕ

module _ (ioc : ℕ → ℕ → ℕ → ℕ → ℕ) where
  -- `_IOW` has the direction 1, `_IOR` 2 and `_IO` 0, which has no size.
  abbrev requests : ℕ → ℕ → Requests
  requests config stats = record {
    set_config = ioc 1 magic 1 config;
    get_config = ioc 2 magic 2 config;
    get_stats = ioc 2 magic 3 stats;
    reset_stats = ioc 0 magic 4 0;
    clear_connections = ioc 0 magic 5 0;
  }

  abbrev pub module_requests : Requests
  module_requests = requests (struct_size config_fields) (struct_size stats_fields)

  abbrev pub tool_requests : Requests
  tool_requests = requests (struct_size tool_config_fields) (struct_size tool_stats_fields)
