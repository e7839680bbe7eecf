-- ===== src/Checksum/Fold.antt =====
-- The loop that folds the carries is reduction modulo 65535 with representatives 1 to 65535.
use mathlib.Core.Logic.{dif_pos, dif_neg}
use mathlib.Core.WellFounded.{Acc}
use native.Mathlib.Bridge.{le_prop}
use nano_net_ull.Base.{ℕ, ◌∙◌, ◌+◌, ◌-◌, ◌/◌, ◌%◌, ◌^◌, ◌<◌, ◌≤◌, ◌*◌, ◌≡◌, arith}
use nano_net_ull.Base.{if◌then◌else◌, ◌==◌, lt_wf, dec_lt, ℕ_discrete}
use nano_net_ull.Checksum.{fold_acc, fold_carries}

-- The number from 0 to 65535 with the same remainder by 65535, which is 0 only for 0.
abbrev pub residue : ℕ → ℕ
residue s = if s == 0 then 0 else (s - 1) % 65535 + 1

residue_step : (s : ℕ) → residue (s % 2 ^ 16 + s / 2 ^ 16) ≡ residue s
residue_step s = ground arith

fold_acc-eq-residue : (s : ℕ) (w : Acc ◌<◌ s) → fold_acc s w ≡ residue s
unfolding fold_acc
fold_acc-eq-residue s (Acc.intro _ smaller) = elim (dec_lt 0 (s / 2 ^ 16)) [
  | yes h ↦
      let t = s % 2 ^ 16 + s / 2 ^ 16 in
      rw (dif_pos _ le_prop h) (fold_acc-eq-residue t (smaller t (omega arith)) ∙ residue_step s)
  | no h ↦ rw (dif_neg _ h) (ground arith)
]

pub fold_carries-eq-residue : (s : ℕ) → fold_carries s ≡ residue s
fold_carries-eq-residue s = unfold fold_carries in fold_acc-eq-residue s (lt_wf.apply s)

fold_carries-lt : (s : ℕ) → fold_carries s < 2 ^ 16
fold_carries-lt s = ground (arith, fold_carries-eq-residue s)

pub residue-le : (s : ℕ) → residue s ≤ 65535
residue-le s = ground arith

-- Adding the complement of the residue gives all ones.
pub residue_complement : (s : ℕ) → residue (s + (65535 - residue s)) ≡ 65535
residue_complement s = elim (ℕ_discrete s 0) [
  | yes e ↦ rw e
  | no ne ↦ let r : residue s ≡ (s - 1) % 65535 + 1 = ground arith in rw r (ground arith)
]

-- The place of a byte in a word matters.
pub residue_place : (s b : ℕ) → b < 256 → residue (s + b * 256) ≡ residue (s + b) → b ≡ 0
residue_place s b h e = elim (ℕ_discrete b 0) [
  | yes z ↦ z
  | no ne ↦
      let low : residue (s + b) ≡ (s + b - 1) % 65535 + 1 = ground arith in
      let high : residue (s + b * 256) ≡ (s + b * 256 - 1) % 65535 + 1 = ground arith in
      let same : (s + b - 1) % 65535 ≡ (s + b * 256 - 1) % 65535 = omega arith in
      absurd (omega arith)
]
