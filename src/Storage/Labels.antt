-- ===== src/Storage/Labels.antt =====
-- The checks of names and paths in storage/src/storage_impl.c, and the description that it keeps.
use hwrun_os_linux.Prelude.{
  ℕ, zero, suc, ◌+◌, ◌-◌, ◌≤◌, ◌<◌, ◌≡◌, ◌≢◌, ◌↔◌, refl, ◌∙◌, ap, Bool, true, false, not, ◌||◌, [],
  ◌∷◌, Option, none, some, Bytes, codes, length, keep, take, length-take-le, ◌==◌, arith, All,
}
use hwrun_os_linux.Errno.{ok}
use hwrun_os_linux.Storage.{
  storage_valid_label, storage_valid_path, has_break, no_forbidden, sanitize, storage_sanitize_desc,
}

pub label_short : (s : Bytes) → storage_valid_label s 128 ≡ ok → length s < 128
unfolding storage_valid_label
label_short s h = ground arith

pub path_short : (s : Bytes) → storage_valid_path s ≡ ok → length s < 512
unfolding storage_valid_path
path_short s h = ground arith

-- The bytes that a description keeps.
abbrev pub is_text : ℕ → Bool
is_text c = not (c == 10 || c == 13)

sanitize-take :
    (room cap i : ℕ) (s : Bytes)
    → cap ≡ suc (i + room)
    → sanitize cap i s ≡ take room (keep is_text s)
unfolding sanitize keep
sanitize-take zero cap i [] e = refl
sanitize-take (suc room) cap i [] e = refl
sanitize-take zero cap i (c ∷ s) e = ground (arith, sanitize-take zero cap i s e)
sanitize-take (suc room) cap i (c ∷ s) e =
    ground (
      arith,
      sanitize-take (suc room) cap i s e,
      sanitize-take room cap (i + 1) s (omega (arith, e)),
    )

take-has_break : (n : ℕ) (s : Bytes) → has_break s ≡ false → has_break (take n s) ≡ false
unfolding has_break
take-has_break zero s h = refl
take-has_break (suc n) [] h = refl
take-has_break (suc n) (c ∷ s) h = ground (arith, take-has_break n s)

keep-has_break : (s : Bytes) → has_break (keep is_text s) ≡ false
unfolding has_break keep
keep-has_break [] = refl
keep-has_break (c ∷ s) = ground (arith, keep-has_break s)

-- The text of a description that is copied to a buffer of `cap` bytes: without its line breaks,
-- and cut to what the buffer holds with the NUL.
pub storage_sanitize_desc-take :
    (cap : ℕ) (s : Bytes)
    → 0 < cap
    → (storage_sanitize_desc cap (some s) ≡ take (cap - 1) (keep is_text s))
      × (has_break (storage_sanitize_desc cap (some s)) ≡ false)
unfolding storage_sanitize_desc
storage_sanitize_desc-take cap s h =
    let e = sanitize-take (cap - 1) cap 0 s (omega (arith, h)) in
    (e, ap has_break e ∙ take-has_break (cap - 1) (keep is_text s) (keep-has_break s))

pub description_fine :
    (d : Option Bytes)
    → (length (storage_sanitize_desc 256 d) < 256)
      × (has_break (storage_sanitize_desc 256 d) ≡ false)
unfolding storage_sanitize_desc has_break
description_fine none = (omega arith, refl)
description_fine (some s) =
    let (e, clean) = storage_sanitize_desc-take 256 s (omega arith) in
    (omega (arith, ap length e, length-take-le 255 (keep is_text s)), clean)

abbrev pub IsPlain : Bytes → Type 0
IsPlain s = All (λ c. (c ≢ b'/') × (32 ≤ c)) s

-- A byte that a label may have.
no_forbidden_iff : (s : Bytes) → (no_forbidden s ≡ true) ↔ IsPlain s
unfolding no_forbidden
no_forbidden_iff [] = (λ _. tt, λ _. refl)
no_forbidden_iff (c ∷ s) =
    let (to, back) = no_forbidden_iff s in (λ h. ground (arith, to), λ h. ground (arith, back))

-- A name is accepted exactly where it is not empty, fits its buffer with the NUL, has no slash and no
-- byte below the space, and is none of the two dot entries. So DEL (127), a control character too, is
-- accepted, as is every byte above it.
pub storage_valid_label_iff :
    (s : Bytes) (max : ℕ)
    → (storage_valid_label s max ≡ ok)
      ↔ ((s ≢ []) × (length s < max) × IsPlain s × (s ≢ codes ".") × (s ≢ codes ".."))
unfolding storage_valid_label
storage_valid_label_iff [] max = (λ h. ground arith, λ h. absurd (h.0 refl))
storage_valid_label_iff (c ∷ s) max =
    let (to, back) = no_forbidden_iff (c ∷ s) in
    (λ h. ground (arith, to), λ h. ground (arith, back))
