-- ===== src/Prelude/Libc.antt =====
-- What the sources use of the C library: character classes and `strtol` in base 10.
use Prim.Native.Nat.{ℕ, ◌+◌, ◌-◌, ◌*◌, ◌^◌, min, ◌≤◌, ◌<◌}
use mathlib.Core.Path.{◌≡◌, refl}
use mathlib.Core.Bool.{Bool, true, false, ◌&&◌, ◌||◌}
use mathlib.Core.List.{[], ◌∷◌}
use native.Mathlib.Omega.{arith}
use hwrun_os_linux.Prelude.Tests.{leb, ◌==◌, if◌then◌else◌}
use hwrun_os_linux.Prelude.Lists.{length}
use hwrun_os_linux.Prelude.Text.{Bytes, codes}
use hwrun_os_linux.Prelude.Int.{ℤ, pos, negsuc, sub_ℕ}

abbrev pub is_digit : ℕ → Bool
is_digit c = leb b'0' c && leb c b'9'

-- isspace in the C locale.
abbrev pub is_space : ℕ → Bool
is_space c = c == 32 || (leb 9 c && leb c 13)

abbrev pub starts_digit : Bytes → Bool
starts_digit [] = false
starts_digit (c ∷ s) = is_digit c

-- The digits at the front, after `acc`, and what follows them.
unfoldable pub read_digits : ℕ → Bytes → ℕ × Bytes
read_digits acc [] = (acc, [])
read_digits acc (c ∷ s) = if is_digit c then read_digits (acc * 10 + (c - b'0')) s else (acc, c ∷ s)

unfoldable pub skip_spaces : Bytes → Bytes
skip_spaces [] = []
skip_spaces (c ∷ s) = if is_space c then skip_spaces s else c ∷ s

-- A 64-bit `long`, which `strtol` clamps to its range.
saturate : Bool → ℕ → ℤ
saturate false n = pos (min n (2 ^ 63 - 1))
saturate true n = sub_ℕ 0 (min n (2 ^ 63))

-- The number after the sign; without a digit `strtol` returns 0 and its whole input.
number : Bool → Bytes → Bytes → ℤ × Bytes
unfolding saturate
number negative whole s =
    let (n, rest) = read_digits 0 s in
    if starts_digit s then (saturate negative n, rest) else (pos 0, whole)

signed : Bytes → Bytes → ℤ × Bytes
unfolding number
signed whole [] = (pos 0, whole)
signed whole (c ∷ s) =
    if c == b'-'
    then number true whole s
    else if c == b'+'
    then number false whole s
    else number false whole (c ∷ s)

-- strtol (s, &end, 10): the value and the text at `end`.
unfoldable pub strtol : Bytes → ℤ × Bytes
unfolding signed skip_spaces read_digits
strtol s = signed s (skip_spaces s)

pub read_digits-le : (acc : ℕ) (s : Bytes) → length (read_digits acc s).1 ≤ length s
unfolding read_digits
read_digits-le acc [] = omega arith
read_digits-le acc (c ∷ s) = ground (arith, read_digits-le (acc * 10 + (c - b'0')) s)

read_digits-lt :
    (acc : ℕ) (s : Bytes) → starts_digit s ≡ true → length (read_digits acc s).1 < length s
unfolding read_digits
read_digits-lt acc [] h = cc
read_digits-lt acc (c ∷ s) h = ground (arith, read_digits-le (acc * 10 + (c - b'0')) s)

-- At a digit `strtol` makes progress.
pub strtol-lt : (s : Bytes) → starts_digit s ≡ true → length (strtol s).1 < length s
unfolding strtol
strtol-lt [] h = cc
strtol-lt (c ∷ s) h = ground (arith, read_digits-lt 0 (c ∷ s))

reads_signed : strtol (codes " -12.3") ≡ (negsuc 11, codes ".3")
unfolding strtol
reads_signed = refl

reads_nothing : strtol (codes ".3") ≡ (pos 0, codes ".3")
unfolding strtol
reads_nothing = refl
