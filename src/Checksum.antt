-- ===== src/Checksum.antt =====
-- src/micro_stack.c: `nanonet_compute_checksum` and `validate_checksum`.
-- The argument is the list of the `len` bytes at the pointer; words are loaded in the byte order of
-- the machine, the low byte first.
pub mod Fold
pub mod Sum
pub mod Verify
use mathlib.Core.Logic.{dite}
use mathlib.Core.WellFounded.{Acc}
use nano_net_ull.Base.{ℕ, ◌+◌, ◌-◌, ◌*◌, ◌/◌, ◌%◌, ◌^◌, ◌<◌, Bool, List, [], ◌∷◌, arith, u16, u32}
use nano_net_ull.Base.{◌==◌, lt_wf, dec_lt}

-- The first loop, and the trailing byte: `sum` is the `u32` accumulator.
pub sum_words : ℕ → List ℕ → ℕ
sum_words sum [] = sum
sum_words sum (b ∷ []) = u32 (sum + b * 2 ^ 8)
sum_words sum (b₀ ∷ b₁ ∷ rest) = sum_words (u32 (sum + (b₀ + b₁ * 2 ^ 8))) rest

-- `while (sum >> 16) sum = (sum & 0xFFFF) + (sum >> 16);`
fold_acc : (sum : ℕ) → Acc ◌<◌ sum → ℕ
fold_acc sum (Acc.intro _ smaller) =
    dite (dec_lt 0 (sum / 2 ^ 16))
      (λ h.
        fold_acc (sum % 2 ^ 16 + sum / 2 ^ 16)
          (smaller (sum % 2 ^ 16 + sum / 2 ^ 16) (omega arith)))
      (λ _. sum)

pub fold_carries : ℕ → ℕ
unfolding fold_acc lt_wf dec_lt
fold_carries sum = fold_acc sum (lt_wf.apply sum)

-- `(__sum16)~sum`
unfoldable pub compute_checksum : List ℕ → ℕ
unfolding sum_words fold_carries
compute_checksum bytes = u16 (2 ^ 32 - 1 - fold_carries (sum_words 0 bytes))

-- True for a result of 0, false for `-EINVAL`.
unfoldable pub validate_checksum : List ℕ → ℕ → Bool
unfolding compute_checksum
validate_checksum bytes check = compute_checksum bytes == check
