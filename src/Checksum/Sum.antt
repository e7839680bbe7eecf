-- ===== src/Checksum/Sum.antt =====
-- The first loop does not wrap: it is the sum of the 16-bit words.
use nano_net_ull.Base.{ℕ, ◌+◌, ◌*◌, ◌%◌, ◌^◌, ◌≤◌, ◌<◌, ◌≡◌, arith}
use nano_net_ull.Base.{List, [], ◌∷◌, ◌++◌, length, IsBytes}
use nano_net_ull.Checksum.{sum_words}

-- The sum of the words of a buffer, the last byte of an odd one in the high half.
abbrev pub words : List ℕ → ℕ
words [] = 0
words (b ∷ []) = b * 256
words (b₀ ∷ b₁ ∷ rest) = b₀ + b₁ * 256 + words rest

-- A buffer with an even number of bytes.
abbrev pub IsEven : List ℕ → Type 0
IsEven xs = length xs % 2 ≡ 0

pub words-le : (xs : List ℕ) → IsBytes xs → words xs ≤ 65535 * length xs
words-le [] h = omega arith
words-le (b ∷ []) h = omega arith
words-le (b₀ ∷ b₁ ∷ rest) h = omega (arith, words-le rest h.1.1)

-- The accumulator stays below 2 ^ 32 for a buffer of less than 2 ^ 16 bytes.
pub sum_words-eq-words :
    (sum : ℕ) (xs : List ℕ) → sum + words xs < 2 ^ 32 → sum_words sum xs ≡ sum + words xs
unfolding sum_words
sum_words-eq-words sum [] h = omega arith
sum_words-eq-words sum (b ∷ []) h = omega arith
sum_words-eq-words sum (b₀ ∷ b₁ ∷ rest) h =
    omega (arith, sum_words-eq-words ((sum + (b₀ + b₁ * 256)) % 2 ^ 32) rest (omega arith))

pub words-append : (xs ys : List ℕ) → IsEven xs → words (xs ++ ys) ≡ words xs + words ys
words-append [] ys h = omega arith
words-append (b ∷ []) ys h = absurd (omega arith)
words-append (b₀ ∷ b₁ ∷ rest) ys h = omega (arith, words-append rest ys (omega arith))
