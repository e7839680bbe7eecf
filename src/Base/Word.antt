-- ===== src/Base/Word.antt =====
-- Machine words of an x86-64 kernel: unsigned wrap-around, and the byte order of loads.
use Prim.Native.Nat.{ℕ, ◌+◌, ◌-◌, ◌*◌, ◌/◌, ◌%◌, ◌^◌}

abbrev pub u8 : ℕ → ℕ
u8 n = n % 2 ^ 8

abbrev pub u16 : ℕ → ℕ
u16 n = n % 2 ^ 16

abbrev pub u32 : ℕ → ℕ
u32 n = n % 2 ^ 32

abbrev pub u64 : ℕ → ℕ
u64 n = n % 2 ^ 64

abbrev pub uint64_max : ℕ
uint64_max = 2 ^ 64 - 1

-- `ntohs` and `htons` of a little-endian machine exchange the two bytes.
abbrev pub swap16 : ℕ → ℕ
swap16 n = n % 256 * 256 + n / 256 % 256

-- `ntohl` and `htonl` reverse the four bytes.
abbrev pub swap32 : ℕ → ℕ
swap32 n = n % 256 * 16777216 + n / 256 % 256 * 65536 + n / 65536 % 256 * 256 + n / 16777216 % 256

-- `atomic64_inc` and `atomic64_dec`, on the bit pattern of the counter.
abbrev pub inc64 : ℕ → ℕ
inc64 n = u64 (n + 1)

abbrev pub dec64 : ℕ → ℕ
dec64 n = u64 (n + 2 ^ 64 - 1)
