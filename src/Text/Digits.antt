-- ===== src/Text/Digits.antt =====
-- The decimal form: one digit a step, how many there are, and its prefixes.
use mathlib.Core.Logic.{dif_pos, dif_neg}
use mathlib.Core.WellFounded.{Acc}
use native.Mathlib.Bridge.{le_prop}
use nano_net_ull.Base.{ℕ, ◌+◌, ◌/◌, ◌%◌, ◌<◌, ◌≤◌, ◌≡◌, ap, [], ◌∷◌, ◌++◌, arith}
use nano_net_ull.Base.{take, take-append, length, length-append, lt_wf, dec_lt}
use nano_net_ull.Text.{decimal_acc, decimal}

-- The proof of accessibility does not matter.
decimal_acc_irrelevant : (n : ℕ) (v w : Acc ◌<◌ n) → decimal_acc n v ≡ decimal_acc n w
unfolding decimal_acc
decimal_acc_irrelevant n (Acc.intro _ f) (Acc.intro _ g) = elim (dec_lt 9 n) [
  | yes h ↦
      rw (dif_pos (dec_lt 9 n) le_prop h, dif_pos (dec_lt 9 n) le_prop h)
        (ap (λ t. t ++ (n % 10 + 48) ∷ [])
          (decimal_acc_irrelevant (n / 10) (f (n / 10) (omega arith)) (g (n / 10) (omega arith))))
  | no h ↦ rw (dif_neg (dec_lt 9 n) h, dif_neg (dec_lt 9 n) h)
]

decimal_acc_step :
    (n : ℕ) (w : Acc ◌<◌ n) → 9 < n → decimal_acc n w ≡ decimal (n / 10) ++ (n % 10 + 48) ∷ []
unfolding decimal_acc
decimal_acc_step n (Acc.intro _ f) h = rw (dif_pos (dec_lt 9 n) le_prop h) (
    ap (λ t. t ++ (n % 10 + 48) ∷ [])
      (unfold decimal in
        decimal_acc_irrelevant (n / 10) (f (n / 10) (omega arith)) (lt_wf.apply (n / 10))))

decimal_step : (n : ℕ) → 9 < n → decimal n ≡ decimal (n / 10) ++ (n % 10 + 48) ∷ []
decimal_step n h = unfold decimal in decimal_acc_step n (lt_wf.apply n) h

decimal_acc_digit : (n : ℕ) (w : Acc ◌<◌ n) → n < 10 → decimal_acc n w ≡ (n + 48) ∷ []
unfolding decimal_acc
decimal_acc_digit n (Acc.intro _ f) h = dif_neg (dec_lt 9 n) (omega arith) _ _

pub decimal_digit : (n : ℕ) → n < 10 → decimal n ≡ (n + 48) ∷ []
decimal_digit n h = unfold decimal in decimal_acc_digit n (lt_wf.apply n) h

pub length-decimal_step : (n : ℕ) → 9 < n → length (decimal n) ≡ length (decimal (n / 10)) + 1
length-decimal_step n h =
    rw (decimal_step n h) (length-append (decimal (n / 10)) ((n % 10 + 48) ∷ []))

-- Dropping the last digit does not change a shorter prefix.
pub take-decimal_step :
    (k n : ℕ)
    → 9 < n
    → k ≤ length (decimal (n / 10))
    → take k (decimal n) ≡ take k (decimal (n / 10))
take-decimal_step k n h fits =
    rw (decimal_step n h) (take-append k (decimal (n / 10)) ((n % 10 + 48) ∷ []) fits)
