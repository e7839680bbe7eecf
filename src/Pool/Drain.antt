-- ===== src/Pool/Drain.antt =====
-- A run of the pool from its initialisation to its cleanup. Nothing puts a buffer back, so the calls of
-- `nanonet_get_response_skb` only drain it.
use Prim.Native.Nat.{min}
use nano_net_ull.Base.{
  ℕ, zero, suc, ◌+◌, ◌%◌, ◌<◌, ◌≡◌, refl, ap, ◌∙◌, Option, none, some, List, [], ◌∷◌, ◌++◌, arith,
}
use nano_net_ull.Base.{length, get_or, set, replicate}
use nano_net_ull.Debug.{pool_empty}
use nano_net_ull.Pool.{
  Pool, response_pool_size, free_slots, cleanup_response_pool, get_response_skb, freed,
  init_response_pool,
}
use nano_net_ull.Pool.Conserve.{stocked, span, drained, init_stocks}

-- `n` calls in a row: the buffers handed out, in order, and the pool that is left.
pub drain : ℕ → Pool → List ℕ × Pool
drain zero pool = ([], pool)
drain (suc n) pool =
    let (buffer, pool', log) = get_response_skb pool in
    let rest = drain n pool' in (freed buffer ++ rest.0, rest.1)

get_or-drained :
    (k p : ℕ) (rest : List ℕ) → get_or (replicate k none ++ some p ∷ stocked rest) k none ≡ some p
get_or-drained zero p rest = refl
get_or-drained (suc k) p rest = get_or-drained k p rest

set-drained :
    (k p : ℕ) (rest : List ℕ)
    → set (replicate k none ++ some p ∷ stocked rest) k none
      ≡ replicate (suc k) none ++ stocked rest
set-drained zero p rest = refl
set-drained (suc k) p rest = ap (λ l. none ∷ l) (set-drained k p rest)

get_more :
    (k p q : ℕ) (rest : List ℕ)
    → k + length (p ∷ q ∷ rest) ≡ response_pool_size
    → get_response_skb (drained k (p ∷ q ∷ rest)) ≡ (some p, drained (suc k) (q ∷ rest), [])
unfolding get_response_skb stocked
get_more k p q rest h =
    let next : (k + 1) % 256 ≡ suc k = omega arith in
    rw (next, get_or-drained k p (q ∷ rest), set-drained k p (q ∷ rest)) (ground arith)

-- With one buffer left the pool counts as empty.
get_last :
    (k p : ℕ)
    → k + 1 ≡ response_pool_size
    → get_response_skb (drained k (p ∷ [])) ≡ (none, drained k (p ∷ []), pool_empty ∷ [])
unfolding get_response_skb
get_last k p h = let next : (k + 1) % 256 ≡ 0 = omega arith in rw next

free_slots-drained : (k : ℕ) (rest : List ℕ) → free_slots (replicate k none ++ stocked rest) ≡ rest
unfolding free_slots stocked
free_slots-drained zero [] = refl
free_slots-drained zero (p ∷ rest) = ap (λ l. p ∷ l) (free_slots-drained zero rest)
free_slots-drained (suc k) rest = free_slots-drained k rest

pub cleanup-drained : (k : ℕ) (rest : List ℕ) → (cleanup_response_pool (drained k rest)).1 ≡ rest
unfolding cleanup_response_pool
cleanup-drained k rest = free_slots-drained k rest

-- Where `n` calls find the buffers `p ∷ rest` in the pool, they hand out the first `n` of them, but
-- never the last, and the cleanup after them frees all the others, in order.
drain_conserves :
    (n k p : ℕ) (rest : List ℕ)
    → k + length (p ∷ rest) ≡ response_pool_size
    → let (handed, pool) = drain n (drained k (p ∷ rest)) in
      (handed ++ (cleanup_response_pool pool).1 ≡ p ∷ rest) × (length handed ≡ min n (length rest))
unfolding drain cleanup_response_pool
drain_conserves zero k p rest h = (free_slots-drained k (p ∷ rest), omega arith)
drain_conserves (suc n) k p [] h =
    rw (get_last k p (omega arith))
      (let r = drain_conserves n k p [] h in (r.0, omega (arith, r.1)))
drain_conserves (suc n) k p (q ∷ rest) h = rw (get_more k p q rest h) (
    let r = drain_conserves n (suc k) q rest (omega arith) in
    (ap (λ l. p ∷ l) r.0, omega (arith, r.1)))

length-span : (a : ℕ → ℕ) (i n : ℕ) → length (span a i n) ≡ n
unfolding span
length-span a i zero = refl
length-span a i (suc n) = ap suc (length-span a (i + 1) n)

-- The same for a full pool.
pub full_conserves :
    (a : ℕ → ℕ) (n : ℕ)
    → let (handed, pool) = drain n (drained 0 (span a 0 response_pool_size)) in
      (handed ++ (cleanup_response_pool pool).1 ≡ span a 0 response_pool_size)
      × (length handed ≡ min n 255)
full_conserves a n =
    let d = drain_conserves n 0 (a 0) (span a 1 255) (omega (arith, length-span a 1 255)) in
    let first : span a 0 response_pool_size ≡ a 0 ∷ span a 1 255 = unfold span in refl in
    rw first (d.0, d.1 ∙ ap (min n) (length-span a 1 255))

-- From an initialisation that gets the buffers `a 0` to `a 255` to the cleanup, with `n` calls for a
-- buffer between: the first `n` buffers are handed out, at most 255, the cleanup frees the others, and
-- together they are all the buffers, each once and in order.
pub pool_conserves :
    (alloc : ℕ → Option ℕ) (a : ℕ → ℕ) (pool : Pool) (n : ℕ)
    → length pool.slots ≡ response_pool_size
    → ((j : ℕ) → j < response_pool_size → alloc j ≡ some (a j))
    → let (code, pool', gone, log) = init_response_pool alloc pool in
      let (handed, pool'') = drain n pool' in
      (handed ++ (cleanup_response_pool pool'').1 ≡ span a 0 response_pool_size)
      × (length handed ≡ min n 255)
pool_conserves alloc a pool n wide all = rw (init_stocks alloc a pool wide all) (full_conserves a n)
