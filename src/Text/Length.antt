-- ===== src/Text/Length.antt =====
-- How long the text of a number can be.
use mathlib.Core.Logic.{dif_pos, dif_neg}
use mathlib.Core.WellFounded.{Acc}
use native.Mathlib.Bridge.{le_prop}
use nano_net_ull.Base.{ℕ, ◌*◌, ◌/◌, ◌<◌, ◌≤◌, zero, suc, List, [], ◌∷◌, ◌++◌, arith}
use nano_net_ull.Base.{length, length-append, lt_wf, dec_lt}
use nano_net_ull.Text.{decimal, hex, hex_acc, sixteenth-lt}
use nano_net_ull.Text.Digits.{decimal_digit, length-decimal_step}

-- The powers of a base, from the first on.
abbrev power : ℕ → ℕ → ℕ
power base zero = base
power base (suc k) = base * power base k

length-digit : (text : List ℕ) (digit k : ℕ) → length text ≤ k → length (text ++ digit ∷ []) ≤ suc k
length-digit text digit k h = omega (arith, length-append text (digit ∷ []), h)

pub length-decimal : (k n : ℕ) → n < power 10 k → length (decimal n) ≤ suc k
length-decimal zero n h = rw (decimal_digit n h) (omega arith)
length-decimal (suc k) n h = elim (dec_lt 9 n) [
  | yes q ↦ omega (arith, length-decimal_step n q, length-decimal k (n / 10) (omega arith))
  | no q ↦ rw (decimal_digit n (omega arith)) (omega arith)
]

length-hex_acc : (k n : ℕ) (w : Acc ◌<◌ n) → n < power 16 k → length (hex_acc n w) ≤ suc k
unfolding hex_acc
length-hex_acc zero n (Acc.intro _ f) h = rw (dif_neg (dec_lt 15 n) (omega arith)) (omega arith)
length-hex_acc (suc k) n (Acc.intro _ f) h = elim (dec_lt 15 n) [
  | yes q ↦ rw (dif_pos (dec_lt 15 n) le_prop q) (
      length-digit _ _ (suc k)
        (length-hex_acc k (n / 16) (f (n / 16) (sixteenth-lt n q)) (omega arith)))
  | no q ↦ rw (dif_neg (dec_lt 15 n) q) (omega arith)
]

pub length-hex : (k n : ℕ) → n < power 16 k → length (hex n) ≤ suc k
unfolding hex
length-hex k n h = length-hex_acc k n (lt_wf.apply n) h
