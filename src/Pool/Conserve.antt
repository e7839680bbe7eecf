-- ===== src/Pool/Conserve.antt =====
-- What becomes of the buffers of the pool: each is handed out or freed, once.
use nano_net_ull.Base.{
  ℕ, zero, suc, ◌+◌, ◌≤◌, ◌<◌, ◌≡◌, refl, ap, ap₂, ◌∙◌, Option, none, some, List, [], ◌∷◌, ◌++◌,
  arith,
}
use nano_net_ull.Base.{length, length-set, get_or, set, get_or-set, replicate, ℕ_discrete}
use nano_net_ull.Debug.{pool_alloc_failed}
use nano_net_ull.Errno.{success, enomem}
use nano_net_ull.Pool.{Pool, response_pool_size, free_below, fill, init_response_pool}

-- The addresses `a i`, `a (i + 1)`, … , `n` of them, and those from `a (n - 1)` down to `a 0`.
unfoldable pub span : (ℕ → ℕ) → ℕ → ℕ → List ℕ
span a i zero = []
span a i (suc n) = a i ∷ span a (i + 1) n

pub downto : (ℕ → ℕ) → ℕ → List ℕ
downto a zero = []
downto a (suc n) = a n ∷ downto a n

unfoldable pub stocked : List ℕ → List (Option ℕ)
stocked [] = []
stocked (p ∷ ps) = some p ∷ stocked ps

-- The first `n` slots hold the addresses `a 0` to `a (n - 1)`.
abbrev Holds : (ℕ → ℕ) → ℕ → List (Option ℕ) → Type 0
Holds a n slots = (j : ℕ) → j < n → get_or slots j none ≡ some (a j)

free_below-downto :
    (a : ℕ → ℕ) (n : ℕ) (slots : List (Option ℕ))
    → Holds a n slots
    → free_below n slots ≡ downto a n
unfolding free_below downto
free_below-downto a zero slots h = refl
free_below-downto a (suc n) slots h =
    rw (h n (omega arith))
      (ap (λ l. a n ∷ l) (free_below-downto a n slots (λ j p. h j (omega arith))))

module _ (alloc : ℕ → Option ℕ) (a : ℕ → ℕ) where
  Holds-set :
      (i : ℕ) (slots : List (Option ℕ))
      → i < length slots
      → Holds a i slots
      → Holds a (i + 1) (set slots i (some (a i)))
  Holds-set i slots inside h j p = ground (arith, get_or-set slots i j (some (a i)) none, h j)

  fill-some :
      (left i p : ℕ) (slots : List (Option ℕ))
      → alloc i ≡ some p
      → fill alloc (suc left) i slots ≡ fill alloc left (i + 1) (set slots i (some p))
  unfolding fill
  fill-some left i p slots e = rw (e, fill) (rw e)

  fill-none :
      (left i : ℕ) (slots : List (Option ℕ))
      → alloc i ≡ none
      → fill alloc (suc left) i slots
        ≡ (enomem, set slots i none, free_below i (set slots i none), pool_alloc_failed i ∷ [])
  unfolding fill
  fill-none left i slots e = rw (e, fill) (rw e)

  -- Every allocation succeeds from round `i` on.
  fill_success :
      (left i : ℕ) (slots : List (Option ℕ))
      → i + left ≤ length slots
      → Holds a i slots
      → ((j : ℕ) → j < i + left → alloc j ≡ some (a j))
      → (slots' : List (Option ℕ)) × (fill alloc left i slots ≡ (success, slots', [], []))
        × Holds a (i + left) slots'
        × (length slots' ≡ length slots)
  fill_success zero i slots inside h all =
      (slots, unfold fill in refl, λ j p. h j (omega arith), refl)
  fill_success (suc left) i slots inside h all =
      let e = all i (omega arith) in
      let wide = length-set slots i (some (a i)) in
      let (slots', run, holds, same) =
        fill_success left (i + 1) (set slots i (some (a i))) (omega (arith, wide))
          (Holds-set i slots (omega arith) h) (λ j p. all j (omega arith)) in
      (slots', fill-some left i (a i) slots e ∙ run, λ j p. holds j (omega arith), same ∙ wide)

  -- The first failing allocation is that of round `k`.
  fill_failure :
      (left i k : ℕ) (slots : List (Option ℕ))
      → i + left ≤ length slots
      → i ≤ k
      → k < i + left
      → Holds a i slots
      → ((j : ℕ) → j < k → alloc j ≡ some (a j))
      → alloc k ≡ none
      → ((fill alloc left i slots).0 ≡ enomem) × ((fill alloc left i slots).2 ≡ downto a k)
  fill_failure zero i k slots inside lo hi h all fails = absurd (omega arith)
  fill_failure (suc left) i k slots inside lo hi h all fails = elim (ℕ_discrete i k) [
    | yes e ↦
        rw (fill-none left i slots (ap alloc e ∙ fails))
          (refl, free_below-downto a i _ (λ j p. kept j p) ∙ ap (downto a) e)
    | no ne ↦ rw (fill-some left i (a i) slots (all i (omega arith))) (
        fill_failure left (i + 1) k (set slots i (some (a i)))
          (omega (arith, length-set slots i (some (a i)))) (omega arith) (omega arith)
          (Holds-set i slots (omega arith) h) all fails)
  ]
    where
      kept : (j : ℕ) → j < i → get_or (set slots i none) j none ≡ some (a j)
      kept j p = ground (arith, get_or-set slots i j none none, h j)

-- A list of slots that is known at every index.
stocked-span :
    (a : ℕ → ℕ) (n i : ℕ) (slots : List (Option ℕ))
    → length slots ≡ n
    → ((j : ℕ) → j < n → get_or slots j none ≡ some (a (i + j)))
    → slots ≡ stocked (span a i n)
unfolding stocked span
stocked-span a zero i [] e h = refl
stocked-span a (suc n) i [] e h = absurd (omega arith)
stocked-span a zero i (s ∷ slots) e h = absurd (omega arith)
stocked-span a (suc n) i (s ∷ slots) e h =
    ap₂ ◌∷◌ (h 0 (omega arith) ∙ ap (λ (k : ℕ). some (a k)) (omega arith)) (
      stocked-span a n (i + 1) slots (omega arith)
        (λ j p. h (suc j) (omega arith) ∙ ap (λ (k : ℕ). some (a k)) (omega arith)))

-- The pool after `k` buffers have been handed out, with `rest` left, in the slots from `k` on.
abbrev pub drained : ℕ → List ℕ → Pool
drained k rest = record { slots = replicate k none ++ stocked rest; head = k; tail = 0 }

-- Initialisation that succeeds puts the buffers into the slots in order of allocation.
pub init_stocks :
    (alloc : ℕ → Option ℕ) (a : ℕ → ℕ) (pool : Pool)
    → length pool.slots ≡ response_pool_size
    → ((j : ℕ) → j < response_pool_size → alloc j ≡ some (a j))
    → init_response_pool alloc pool ≡ (success, drained 0 (span a 0 response_pool_size), [], [])
unfolding init_response_pool
init_stocks alloc a pool wide all =
    let (slots, run, holds, same) =
      fill_success alloc a response_pool_size 0 pool.slots (omega arith)
        (λ j p. absurd (omega arith)) (λ j p. all j (omega arith)) in
    rw (
      run,
      stocked-span a response_pool_size 0 slots (same ∙ wide)
          (λ j p. holds j (omega arith) ∙ ap (λ (k : ℕ). some (a k)) (omega arith)),
    )

-- Initialisation that fails in round `k` frees exactly the buffers that it has allocated, the last
-- one first, and reports that there is no memory.
pub init_releases :
    (alloc : ℕ → Option ℕ) (a : ℕ → ℕ) (pool : Pool) (k : ℕ)
    → length pool.slots ≡ response_pool_size
    → k < response_pool_size
    → ((j : ℕ) → j < k → alloc j ≡ some (a j))
    → alloc k ≡ none
    → ((init_response_pool alloc pool).0 ≡ enomem)
      × ((init_response_pool alloc pool).2 ≡ downto a k)
unfolding init_response_pool
init_releases alloc a pool k wide below all fails =
    fill_failure alloc a response_pool_size 0 k pool.slots (omega arith) (omega arith) (omega arith)
      (λ j p. absurd (omega arith)) all fails
