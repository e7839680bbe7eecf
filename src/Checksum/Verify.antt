-- ===== src/Checksum/Verify.antt =====
-- What the two checksum functions give: a closed form, the check of a buffer that carries its own
-- checksum, and the trailing byte of a buffer of odd length.
use nano_net_ull.Base.{
  ℕ, ◌+◌, ◌-◌, ◌/◌, ◌%◌, ◌^◌, ◌≤◌, ◌<◌, ◌≡◌, ◌≢◌, arith, ◌==◌, ◌*◌, sym, ◌∙◌, refl,
}
use native.Mathlib.Nat.{add-zero}
use nano_net_ull.Base.{List, [], ◌∷◌, ◌++◌, length, length-append, IsBytes, IsBytes-append}
use nano_net_ull.Checksum.{sum_words, compute_checksum, validate_checksum}
use nano_net_ull.Checksum.Fold.{
  residue, residue-le, residue_complement, residue_place, fold_carries-eq-residue,
}
use nano_net_ull.Checksum.Sum.{words, IsEven, words-le, words-append, sum_words-eq-words}

sub-lt : (s : ℕ) → 65535 - residue s < 2 ^ 16
sub-lt s = omega arith

-- No datagram is longer.
abbrev IsShort : List ℕ → Type 0
IsShort xs = length xs < 2 ^ 16

compute_checksum_lem :
    (xs : List ℕ) → IsBytes xs → IsShort xs → compute_checksum xs ≡ 65535 - residue (words xs)
unfolding compute_checksum
compute_checksum_lem xs b s =
    ground (arith, words-le xs b, sum_words-eq-words 0 xs, fold_carries-eq-residue (sum_words 0 xs))

pub compute_checksum-lt : (xs : List ℕ) → compute_checksum xs < 2 ^ 16
unfolding compute_checksum
compute_checksum-lt xs = omega arith

-- The buffer with the two bytes of `check` at its check field.
abbrev pub with_check : List ℕ → List ℕ → ℕ → List ℕ
with_check pre post check = pre ++ check % 256 ∷ check / 256 ∷ post

module _ (pre post : List ℕ) (even : IsEven pre) (bytes : IsBytes pre × IsBytes post)
    (short : length pre + 2 + length post < 2 ^ 16) where
  compute_checksum-with_check :
      (check : ℕ)
      → check < 2 ^ 16
      → compute_checksum (with_check pre post check)
        ≡ 65535 - residue (words pre + words post + check)
  compute_checksum-with_check check h =
      let tail = check % 256 ∷ check / 256 ∷ post in
      let sums : words (with_check pre post check) ≡ words pre + words post + check =
        omega (arith, words-append pre tail even) in
      rw (
        compute_checksum_lem (with_check pre post check)
            (IsBytes-append pre tail bytes.0 ((omega arith), ((omega arith), bytes.1)))
            (omega (arith, length-append pre tail)),
        sums,
      )

  -- A buffer of fewer than 2 ^ 16 bytes that carries, at an even offset, the checksum of itself with a
  -- cleared check field sums to 0.
  pub compute_checksum-own :
      compute_checksum (with_check pre post (compute_checksum (with_check pre post 0))) ≡ 0
  compute_checksum-own =
      let s = words pre + words post in
      let cleared : compute_checksum (with_check pre post 0) ≡ 65535 - residue s =
        compute_checksum-with_check 0 (omega arith) ∙ rw (add-zero s) in
      rw (cleared, compute_checksum-with_check (65535 - residue s) (sub-lt s), residue_complement s)

  -- `validate_checksum` accepts such a buffer with the value of its check field only where that value
  -- is 0.
  pub validate_checksum-own :
      let check = compute_checksum (with_check pre post 0) in
      validate_checksum (with_check pre post check) check ≡ (check == 0)
  unfolding validate_checksum
  validate_checksum-own = rw compute_checksum-own (ground arith)

-- A buffer of an odd length: the bytes of whole words, and one more.
module _ (xs : List ℕ) (b : ℕ) (even : IsEven xs) (bytes : IsBytes xs) (fits : b < 256)
    (short : length xs + 2 < 2 ^ 16) where
  tail_checksum :
      (tail : List ℕ)
      → IsBytes tail
      → length tail ≤ 2
      → {value : ℕ} → words tail ≡ value
      → compute_checksum (xs ++ tail) ≡ 65535 - residue (words xs + value)
  tail_checksum tail t h e = rw (
    compute_checksum_lem (xs ++ tail) (IsBytes-append xs tail bytes t)
        (omega (arith, length-append xs tail)),
    words-append xs tail even,
    e,
  )

  same :
      65535 - residue (words xs + b * 256) ≡ 65535 - residue (words xs + b)
      → residue (words xs + b * 256) ≡ residue (words xs + b)
  same e = omega (arith, e, residue-le (words xs + b * 256), residue-le (words xs + b))

  -- A trailing byte behind an even number of bytes, fewer than 2 ^ 16 in all, is taken as the second
  -- byte of a word whose first is 0. So, unless it is 0, the sum is not that of the buffer padded with
  -- a 0 at its end.
  pub compute_checksum-odd :
      (compute_checksum (xs ++ b ∷ []) ≡ compute_checksum (xs ++ 0 ∷ b ∷ []))
      × (b ≢ 0 → compute_checksum (xs ++ b ∷ []) ≢ compute_checksum (xs ++ b ∷ 0 ∷ []))
  compute_checksum-odd =
      let one = tail_checksum (b ∷ []) (omega arith) (omega arith) {value = b * 256} refl in
      let before =
        tail_checksum (0 ∷ b ∷ []) (omega arith) (omega arith) {value = b * 256} (omega arith) in
      let after =
        tail_checksum (b ∷ 0 ∷ []) (omega arith) (omega arith) {value = b} (omega arith) in
      (one ∙ sym before, λ h e. h (residue_place (words xs) b fits (same (sym one ∙ e ∙ after))))
