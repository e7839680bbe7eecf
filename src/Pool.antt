-- ===== src/Pool.antt =====
-- src/optimizations.c: the pool of response buffers. A buffer is its address, and what the functions
-- free is returned as a list, in order.
pub mod Conserve
pub mod Drain
use nano_net_ull.Base.{ℕ, zero, suc, ◌+◌, ◌%◌, Option, none, some, List, [], ◌∷◌, ◌++◌}
use nano_net_ull.Base.{◌==◌, if◌then◌else◌, get_or, set, replicate}
use nano_net_ull.Debug.{Message, pool_alloc_failed, pool_empty}
use nano_net_ull.Errno.{Code, success, enomem}

abbrev pub response_pool_size : ℕ
response_pool_size = 256

pub record Pool : Type 0 where
  pub slots : List (Option ℕ)
  pub head : ℕ
  pub tail : ℕ

-- `kfree_skb` of a slot, which does nothing to a null pointer.
abbrev pub freed : Option ℕ → List ℕ
freed none = []
freed (some p) = p ∷ []

-- `while (--i >= 0) kfree_skb(pool[i]);`
pub free_below : ℕ → List (Option ℕ) → List ℕ
free_below zero slots = []
free_below (suc i) slots = freed (get_or slots i none) ++ free_below i slots

-- The loop from index `i` with `left` rounds to go. `alloc i` is the result of `alloc_skb` in round
-- `i`; the pointers that a failure has freed stay in the slots.
pub fill : (ℕ → Option ℕ) → ℕ → ℕ → List (Option ℕ) → Code × List (Option ℕ) × List ℕ × List Message
fill alloc zero i slots = (success, slots, [], [])
fill alloc (suc left) i slots =
    let slots' = set slots i (alloc i) in
    let rest = fill alloc left (i + 1) slots' in
    elim (alloc i) [
      | none ↦ (enomem, slots', free_below i slots', pool_alloc_failed i ∷ [])
      | some p ↦ rest
    ]

pub init_response_pool : (ℕ → Option ℕ) → Pool → Code × Pool × List ℕ × List Message
init_response_pool alloc pool =
    let (code, slots, gone, log) = fill alloc response_pool_size 0 pool.slots in
    (code, record { slots = slots; head = 0; tail = 0 }, gone, log)

-- The loop of `nanonet_cleanup_response_pool`: the buffers that it frees.
pub free_slots : List (Option ℕ) → List ℕ
free_slots [] = []
free_slots (s ∷ rest) = freed s ++ free_slots rest

-- The slots that the loop leaves.
unfoldable clear_slots : List (Option ℕ) → List (Option ℕ)
clear_slots [] = []
clear_slots (s ∷ rest) = none ∷ clear_slots rest

pub cleanup_response_pool : Pool → Pool × List ℕ
cleanup_response_pool pool =
    (record { slots = clear_slots pool.slots; head = 0; tail = 0 }, free_slots pool.slots)

unfoldable pub get_response_skb : Pool → Option ℕ × Pool × List Message
get_response_skb pool =
    let next = (pool.head + 1) % response_pool_size in
    if next == pool.tail then (none, pool, pool_empty ∷ []) else (
      get_or pool.slots pool.head none,
      record pool { slots = set pool.slots pool.head none; head = next },
      [],
    )
