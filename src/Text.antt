-- ===== src/Text.antt =====
-- The conversions of `printf` that the module uses, on texts as lists of bytes.
pub mod Digits
pub mod Length
use Prim.Native.Char.{code}
use Prim.Native.String
use Prim.Native.String.{String}
use mathlib.Core.Logic.{dite}
use mathlib.Core.WellFounded.{Acc}
use nano_net_ull.Base.{ℕ, ◌+◌, ◌-◌, ◌/◌, ◌%◌, ◌^◌, ◌<◌, List, [], ◌∷◌, ◌++◌, arith, ltb}
use nano_net_ull.Base.{if◌then◌else◌, take, lt_wf, dec_lt}

-- The bytes of an ASCII literal.
abbrev pub codes : String → List ℕ
codes String.[] = []
codes (String.◌∷◌ c s) = code c ∷ codes s

-- `%llu`, `%u` and `%d` of a number that is not negative.
pub decimal_acc : (n : ℕ) → Acc ◌<◌ n → List ℕ
decimal_acc n (Acc.intro _ smaller) =
    dite (dec_lt 9 n)
      (λ h. decimal_acc (n / 10) (smaller (n / 10) (omega arith)) ++ (n % 10 + 48) ∷ [])
      (λ _. (n + 48) ∷ [])

unfoldable pub decimal : ℕ → List ℕ
unfolding decimal_acc lt_wf dec_lt
decimal n = decimal_acc n (lt_wf.apply n)

abbrev hex_digit : ℕ → ℕ
hex_digit d = if ltb d 10 then d + 48 else d + 87

pub sixteenth-lt : (n : ℕ) → 15 < n → n / 16 < n
sixteenth-lt n h = omega arith

-- `%x`
hex_acc : (n : ℕ) → Acc ◌<◌ n → List ℕ
hex_acc n (Acc.intro _ smaller) =
    dite (dec_lt 15 n)
      (λ h. hex_acc (n / 16) (smaller (n / 16) (sixteenth-lt n h)) ++ hex_digit (n % 16) ∷ [])
      (λ _. hex_digit n ∷ [])

pub hex : ℕ → List ℕ
unfolding hex_acc lt_wf dec_lt
hex n = hex_acc n (lt_wf.apply n)

-- `%lld` of a bit pattern of 64 bits.
unfoldable pub signed : ℕ → List ℕ
signed n = if ltb n (2 ^ 63) then decimal n else codes "-" ++ decimal (2 ^ 64 - n)

-- `%pI4` and `inet_ntoa` of an address as loaded.
unfoldable pub dotted : ℕ → List ℕ
dotted a =
    decimal (a % 256)
    ++ (codes "."
        ++ (decimal (a / 256 % 256)
            ++ (codes "."
                ++ (decimal (a / 65536 % 256) ++ (codes "." ++ decimal (a / 16777216 % 256))))))

-- What `snprintf` leaves in a buffer of `size` bytes, without the terminating zero.
unfoldable pub snprintf : ℕ → List ℕ → List ℕ
snprintf size text = take (size - 1) text
