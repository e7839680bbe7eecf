-- ===== src/Order/Layout.antt =====
-- The order that market data leads to: when, and with which bytes.
use native.Mathlib.Nat.{pow-suc, one-le-pow}
use nano_net_ull.Base.{
  ℕ, zero, suc, ◌*◌, ◌/◌, ◌^◌, ◌≤◌, ◌<◌, ◌≡◌, refl, sym, ◌∙◌, [], ◌∷◌, ◌++◌, arith,
}
use nano_net_ull.Base.{length, take, dec_lt}
use nano_net_ull.Order.{cl_ord_id}
use nano_net_ull.Text.{decimal, snprintf, codes}
use nano_net_ull.Text.Digits.{decimal_digit, length-decimal_step, take-decimal_step}

length-decimal-pos : (n : ℕ) → 1 ≤ length (decimal n)
length-decimal-pos n = elim (dec_lt 9 n) [
  | yes h ↦ omega (arith, length-decimal_step n h)
  | no h ↦ rw (decimal_digit n (omega arith)) (omega arith)
]

-- A number of at least 10 ^ m has more than `m` digits.
length-decimal-gt : (m n : ℕ) → 10 ^ m ≤ n → m < length (decimal n)
length-decimal-gt zero n h = length-decimal-pos n
length-decimal-gt (suc m) n h =
    let big : 10 * 10 ^ m ≤ n = omega (arith, pow-suc 10 m) in
    let two : 9 < n = omega (arith, one-le-pow m 10) in
    omega (arith, length-decimal_step n two, length-decimal-gt m (n / 10) (omega arith))

-- `t` without its last `k` digits.
shrink : ℕ → ℕ → ℕ
shrink zero t = t
shrink (suc k) t = shrink k (t / 10)

shrink-le : (k t : ℕ) → shrink k t ≤ t
unfolding shrink
shrink-le zero t = omega arith
shrink-le (suc k) t = omega (arith, shrink-le k (t / 10))

take-shrink :
    (k t : ℕ) → 10 ^ 11 ≤ shrink k t → take 12 (decimal t) ≡ take 12 (decimal (shrink k t))
unfolding shrink
take-shrink zero t h = refl
take-shrink (suc k) t h =
    let big : 10 ^ 11 ≤ t / 10 = omega (arith, shrink-le k (t / 10)) in
    take-decimal_step 12 t (omega arith) (length-decimal-gt 11 (t / 10) big)
    ∙ take-shrink k (t / 10) h

cl_ord_id-eq-take : (t : ℕ) → cl_ord_id t ≡ codes "ORD" ++ (take 12 (decimal t) ++ 0 ∷ [])
unfolding cl_ord_id snprintf
cl_ord_id-eq-take t = refl

prefix_shrink : (t : ℕ) → shrink 7 t ≡ t / 10 ^ 7
unfolding shrink
prefix_shrink t = omega arith

-- At times of 19 digits, as the clock shows from 2001 to 2286, orders placed within the same 10
-- milliseconds get the same client order id: the array holds 12 of the digits.
pub cl_ord_id_repeats :
    (t t' : ℕ) → 10 ^ 18 ≤ t → 10 ^ 18 ≤ t' → t / 10 ^ 7 ≡ t' / 10 ^ 7 → cl_ord_id t ≡ cl_ord_id t'
cl_ord_id_repeats t t' h h' e =
    let same : shrink 7 t ≡ shrink 7 t' = prefix_shrink t ∙ e ∙ sym (prefix_shrink t') in
    rw (
      cl_ord_id-eq-take t,
      cl_ord_id-eq-take t',
      take-shrink 7 t (omega (arith, prefix_shrink t)),
      take-shrink 7 t' (omega (arith, prefix_shrink t')),
      same,
    )
