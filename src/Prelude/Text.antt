-- ===== src/Prelude/Text.antt =====
-- C strings as lists of bytes. The terminating NUL is the end of the list, so no byte is 0.
use Prim.Native.Nat.{ℕ, ◌-◌, ◌<◌}
use Prim.Native.Char.{code}
use Prim.Native.String.{String}
use mathlib.Core.Path.{◌≡◌, refl, ap₂}
use mathlib.Core.Logic.{◌↔◌}
use mathlib.Core.Bool.{Bool, true, false}
use mathlib.Core.List.{List, [], ◌∷◌}
use native.Mathlib.Omega.{arith}
use native.Mathlib.Decide.{ℕ_discrete}
use hwrun_os_linux.Prelude.Lists.{length, take, take_all, length-take-le}

abbrev pub Bytes : Type 0
Bytes = List ℕ

-- A literal's code points, which are its bytes where it is ASCII.
abbrev pub codes : String → Bytes
codes String.[] = []
codes (String.◌∷◌ c s) = code c ∷ codes s

pub cons-eq : {x y : ℕ} {xs ys : Bytes} → x ∷ xs ≡ y ∷ ys → (x ≡ y) × (xs ≡ ys)
cons-eq e = (cc, cc)

both : (x y : ℕ) (xs ys : Bytes) → Dec (x ≡ y) → Dec (xs ≡ ys) → Dec (x ∷ xs ≡ y ∷ ys)
both x y xs ys (yes p) (yes q) = yes (ap₂ ◌∷◌ p q)
both x y xs ys (yes p) (no n) = no λ e. n (cons-eq e).1
both x y xs ys (no n) _ = no λ e. n (cons-eq e).0

unfoldable pub Bytes-discrete : Discrete Bytes
unfolding both ℕ_discrete
Bytes-discrete [] [] = yes refl
Bytes-discrete [] (y ∷ ys) = no λ e. cc
Bytes-discrete (x ∷ xs) [] = no λ e. cc
Bytes-discrete (x ∷ xs) (y ∷ ys) = both x y xs ys (ℕ_discrete x y) (Bytes-discrete xs ys)

-- strcmp (a, b) == 0
abbrev pub str_eq : Bytes → Bytes → Bool
str_eq a b = elim (Bytes-discrete a b) [ yes _ ↦ true | no _ ↦ false ]

-- s[0] == '\0'
abbrev pub is_empty : Bytes → Bool
is_empty [] = true
is_empty (c ∷ s) = false

-- snprintf (buf, cap, "%s", s): what `buf` then holds.
unfoldable pub fit : ℕ → Bytes → Bytes
fit cap s = take (cap - 1) s

pub fit_all : (cap : ℕ) (s : Bytes) → length s < cap → fit cap s ≡ s
unfolding fit
fit_all cap s h = take_all (cap - 1) s (omega arith)

pub length-fit-lt : (cap : ℕ) (s : Bytes) → 0 < cap → length (fit cap s) < cap
unfolding fit
length-fit-lt cap s h = omega (arith, length-take-le (cap - 1) s)

pub fit-fit : (cap : ℕ) (s : Bytes) → 0 < cap → fit cap (fit cap s) ≡ fit cap s
fit-fit cap s h = fit_all cap (fit cap s) (length-fit-lt cap s h)

same_text : str_eq (codes "abc") (codes "abc") ≡ true
unfolding Bytes-discrete
same_text = refl

other_text : str_eq (codes "abc") (codes "abd") ≡ false
unfolding Bytes-discrete
other_text = refl

cut_text : fit 4 (codes "metaproto") ≡ codes "met"
unfolding fit
cut_text = refl

pub is_empty_iff : (s : Bytes) → (is_empty s ≡ true) ↔ (s ≡ [])
is_empty_iff s = (λ h. ground arith, λ h. ground arith)
