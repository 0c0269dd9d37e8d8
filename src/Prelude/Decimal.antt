-- ===== src/Prelude/Decimal.antt =====
-- Numbers as printf writes them in base 10, and strtoull and atoi, which read them.
use Prim.Native.Nat.{min}
use hwrun_os_linux.Prelude.{
  ℕ, zero, suc, ◌+◌, ◌-◌, ◌*◌, ◌/◌, ◌%◌, ◌^◌, ◌≤◌, ◌<◌, ◌≡◌, refl, sym, ◌∙◌, ap, Bool, true, false,
  [], ◌∷◌, Bytes, codes, length, if◌then◌else◌, ltb, leb, ◌==◌, ℤ, pos, negsuc, sub_ℕ, is_digit,
  read_digits, skip_spaces, strtol, arith, All, Bool-cases, inl, inr,
}

-- The digits of a number in front of `out`; the fuel is more than the number.
digits_onto : ℕ → ℕ → Bytes → Bytes
digits_onto zero n out = out
digits_onto (suc f) n out =
    let more = digits_onto f (n / 10) ((b'0' + n % 10) ∷ out) in
    if ltb n 10 then (b'0' + n) ∷ out else more

-- %llu
unfoldable pub decimal : ℕ → Bytes
unfolding digits_onto
decimal n = digits_onto (suc n) n []

-- %d
abbrev pub decimal_int : ℤ → Bytes
decimal_int (pos n) = decimal n
decimal_int (negsuc n) = b'-' ∷ decimal (suc n)

-- What strtoull makes of a magnitude: past the range it is the largest value, and a sign negates
-- modulo 2 ^ 64.
abbrev clamped : Bool → ℕ → ℕ
clamped negative n =
    if leb (2 ^ 64) n then 2 ^ 64 - 1 else if negative then (2 ^ 64 - n) % 2 ^ 64 else n

unsigned : Bytes → ℕ
unsigned [] = 0
unsigned (c ∷ s) =
    if c == b'-'
    then clamped true (read_digits 0 s).0
    else if c == b'+'
    then clamped false (read_digits 0 s).0
    else clamped false (read_digits 0 (c ∷ s)).0

-- The value of strtoull (s, &end, 10).
unfoldable pub strtoull : Bytes → ℕ
unfolding unsigned skip_spaces read_digits
strtoull s = unsigned (skip_spaces s)

-- (int) of a long: the low 32 bits, with the sign of the 31st.
abbrev low_word : ℤ → ℕ
low_word (pos n) = n % 2 ^ 32
low_word (negsuc n) = 2 ^ 32 - 1 - n % 2 ^ 32

abbrev pub to_int : ℤ → ℤ
to_int z = if ltb (low_word z) (2 ^ 31) then pos (low_word z) else sub_ℕ (low_word z) (2 ^ 32)

-- atoi, which is (int) strtol.
unfoldable pub atoi : Bytes → ℤ
unfolding strtol
atoi s = to_int (strtol s).0

read_digits-digit :
    (a d m : ℕ) (out : Bytes)
    → d < 10
    → a * 10 + d ≡ m
    → read_digits a ((b'0' + d) ∷ out) ≡ read_digits m out
unfolding read_digits
read_digits-digit a d m out h e =
    let test : is_digit (b'0' + d) ≡ true = ground arith in
    rw test (ap (λ x. read_digits x out) (omega (arith, e)))

read_digits-digits_onto :
    (f n : ℕ) (out : Bytes) → n < f → read_digits 0 (digits_onto f n out) ≡ read_digits n out
unfolding digits_onto read_digits
read_digits-digits_onto zero n out h = absurd (omega arith)
read_digits-digits_onto (suc f) n out h = elim (Bool-cases (ltb n 10)) [
  | inl e ↦ rw e (read_digits-digit 0 n n out (ground arith) (omega arith))
  | inr e ↦ rw e (
      read_digits-digits_onto f (n / 10) ((b'0' + n % 10) ∷ out) (ground arith)
      ∙ read_digits-digit (n / 10) (n % 10) n out (omega arith) (omega arith))
]

pub read_digits-decimal : (n : ℕ) → read_digits 0 (decimal n) ≡ (n, [])
unfolding decimal read_digits
read_digits-decimal n = read_digits-digits_onto (suc n) n [] (omega arith)

digits_onto-digit :
    (f n : ℕ) (out : Bytes)
    → n < f
    → (d : ℕ) × (t : Bytes) × (digits_onto f n out ≡ (b'0' + d) ∷ t) × (d < 10)
unfolding digits_onto
digits_onto-digit zero n out h = absurd (omega arith)
digits_onto-digit (suc f) n out h = elim (Bool-cases (ltb n 10)) [
  | inl e ↦ (n, out, rw e refl, ground arith)
  | inr e ↦ rw e (digits_onto-digit f (n / 10) ((b'0' + n % 10) ∷ out) (ground arith))
]

-- A decimal begins with a digit.
decimal-digit : (n : ℕ) → (d : ℕ) × (t : Bytes) × (decimal n ≡ (b'0' + d) ∷ t) × (d < 10)
unfolding decimal
decimal-digit n = digits_onto-digit (suc n) n [] (omega arith)

strtoull-digit :
    (d : ℕ) (t : Bytes)
    → d < 10
    → strtoull ((b'0' + d) ∷ t) ≡ clamped false (read_digits 0 ((b'0' + d) ∷ t)).0
unfolding strtoull
strtoull-digit d t h = ground arith

strtol-digit :
    (d : ℕ) (t : Bytes)
    → d < 10
    → (strtol ((b'0' + d) ∷ t)).0 ≡ pos (min (read_digits 0 ((b'0' + d) ∷ t)).0 (2 ^ 63 - 1))
unfolding strtol
strtol-digit d t h = ground arith

-- A 64-bit number is read back from its digits.
pub strtoull-decimal : (n : ℕ) → n < 2 ^ 64 → strtoull (decimal n) ≡ n
strtoull-decimal n h =
    let (d, t, e, small) = decimal-digit n in
    ap strtoull e
    ∙ strtoull-digit d t small
    ∙ ap (λ x. clamped false (read_digits 0 x).0) (sym e)
    ∙ ap (λ x. clamped false x.0) (read_digits-decimal n)
    ∙ ground arith

-- So is a small int.
pub atoi-decimal : (n : ℕ) → n < 2 ^ 31 → atoi (decimal n) ≡ pos n
unfolding atoi
atoi-decimal n h =
    let (d, t, e, small) = decimal-digit n in
    ap (λ x. to_int (strtol x).0) e
    ∙ ap to_int (strtol-digit d t small)
    ∙ ap (λ x. to_int (pos (min (read_digits 0 x).0 (2 ^ 63 - 1)))) (sym e)
    ∙ ap (λ x. to_int (pos (min x.0 (2 ^ 63 - 1)))) (read_digits-decimal n)
    ∙ ground arith

abbrev pub IsDigit : ℕ → Type 0
IsDigit c = (b'0' ≤ c) × (c ≤ b'9')

digits_onto-digits : (f n : ℕ) (out : Bytes) → All IsDigit out → All IsDigit (digits_onto f n out)
unfolding digits_onto
digits_onto-digits zero n out h = h
digits_onto-digits (suc f) n out h = elim (Bool-cases (ltb n 10)) [
  | inl e ↦ rw e ((omega arith, ground arith), h)
  | inr e ↦
      rw e (digits_onto-digits f (n / 10) ((b'0' + n % 10) ∷ out) ((omega arith, omega arith), h))
]

-- Ten to the power of `k`.
abbrev tens : ℕ → ℕ
tens zero = 1
tens (suc k) = 10 * tens k

length-digits_onto-le :
    (k f n : ℕ) (out : Bytes) → n < tens (suc k) → length (digits_onto f n out) ≤ suc k + length out
unfolding digits_onto
length-digits_onto-le k zero n out h = omega arith
length-digits_onto-le zero (suc f) n out h = elim (Bool-cases (ltb n 10)) [
  | inl e ↦ rw e (omega arith)
  | inr e ↦ absurd (ground arith)
]
length-digits_onto-le (suc k) (suc f) n out h = elim (Bool-cases (ltb n 10)) [
  | inl e ↦ rw e (omega arith)
  | inr e ↦
      rw e (omega (arith, length-digits_onto-le k f (n / 10) ((b'0' + n % 10) ∷ out) (omega arith)))
]

-- A decimal has digits only, and at most 20 of them for 64 bits.
pub decimal_short : (n : ℕ) → n < 2 ^ 64 → All IsDigit (decimal n) × (length (decimal n) ≤ 20)
unfolding decimal
decimal_short n h = (
  digits_onto-digits (suc n) n [] tt,
  omega (arith, length-digits_onto-le 19 (suc n) n [] (omega arith)),
)

shown_number : decimal 1234 ≡ codes "1234"
unfolding decimal
shown_number = refl

shown_zero : decimal 0 ≡ codes "0"
unfolding decimal
shown_zero = refl

strtol-digits :
    (d : ℕ) (t : Bytes)
    → d < 10
    → let read = read_digits 0 ((b'0' + d) ∷ t) in
      (strtol ((b'0' + d) ∷ t) ≡ (pos (min read.0 (2 ^ 63 - 1)), read.1))
      × (strtol (b'-' ∷ (b'0' + d) ∷ t) ≡ (sub_ℕ 0 (min read.0 (2 ^ 63)), read.1))
unfolding strtol
strtol-digits d t h = (ground arith, ground arith)

-- strtol reads a decimal to its end, with its sign.
pub strtol-decimal : (n : ℕ) → n < 2 ^ 63 → strtol (decimal n) ≡ (pos n, [])
strtol-decimal n h =
    let (d, t, e, small) = decimal-digit n in
    ap strtol e
    ∙ (strtol-digits d t small).0
    ∙ ap (λ x. (pos (min (read_digits 0 x).0 (2 ^ 63 - 1)), (read_digits 0 x).1)) (sym e)
    ∙ ap (λ x. (pos (min x.0 (2 ^ 63 - 1)), x.1)) (read_digits-decimal n)
    ∙ ap (λ x. (pos x, [])) (omega arith)

below_zero : (n : ℕ) → sub_ℕ 0 (suc n) ≡ negsuc n
below_zero n = ground arith

pub strtol_minus : (n : ℕ) → n < 2 ^ 63 → strtol (b'-' ∷ decimal (suc n)) ≡ (negsuc n, [])
strtol_minus n h =
    let (d, t, e, small) = decimal-digit (suc n) in
    ap (λ x. strtol (b'-' ∷ x)) e
    ∙ (strtol-digits d t small).1
    ∙ ap (λ x. (sub_ℕ 0 (min (read_digits 0 x).0 (2 ^ 63)), (read_digits 0 x).1)) (sym e)
    ∙ ap (λ x. (sub_ℕ 0 (min x.0 (2 ^ 63)), x.1)) (read_digits-decimal (suc n))
    ∙ ap (λ x. (sub_ℕ 0 x, [])) (omega arith)
    ∙ ap (λ x. (x, [])) (below_zero n)

pub decimal_nonempty : (n : ℕ) → 0 < length (decimal n)
decimal_nonempty n = let (d, t, e, small) = decimal-digit n in omega (arith, ap length e)

-- Past the range too, it reads to the end.
pub strtol_rest : (n : ℕ) → (strtol (decimal n)).1 ≡ []
strtol_rest n =
    let (d, t, e, small) = decimal-digit n in
    ap (λ x. (strtol x).1) e
    ∙ ap (λ x. x.1) (strtol-digits d t small).0
    ∙ ap (λ x. (read_digits 0 x).1) (sym e)
    ∙ ap (λ x. x.1) (read_digits-decimal n)
