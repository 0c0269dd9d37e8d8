-- ===== src/Storage/Total.antt =====
-- The sums of storage_du in storage/src/storage_impl.c.
use hwrun_os_linux.Prelude.{
  ℕ, suc, ◌+◌, ◌%◌, ◌^◌, ◌<◌, ◌≡◌, ap₂, ◌∙◌, Bool, true, false, List, [], ◌∷◌, if◌then◌else◌, arith,
}
use hwrun_os_linux.Storage.Usage.{du_walk}

-- The bytes and the number of the files among what is visited.
abbrev pub file_bytes : List (Bool × ℕ) → ℕ
file_bytes [] = 0
file_bytes ((is_file, size) ∷ rest) = if is_file then size + file_bytes rest else file_bytes rest

abbrev pub file_number : List (Bool × ℕ) → ℕ
file_number [] = 0
file_number ((is_file, size) ∷ rest) = if is_file then suc (file_number rest) else file_number rest

du_walk-sum :
    (bytes files : ℕ) (rest : List (Bool × ℕ))
    → bytes < 2 ^ 64
    → files < 2 ^ 64
    → du_walk bytes files rest
      ≡ ((bytes + file_bytes rest) % 2 ^ 64, (files + file_number rest) % 2 ^ 64)
unfolding du_walk
du_walk-sum bytes files [] hb hf = ap₂ (λ a b. (a, b)) (omega arith) (omega arith)
du_walk-sum bytes files ((false, size) ∷ rest) hb hf = du_walk-sum bytes files rest hb hf
du_walk-sum bytes files ((true, size) ∷ rest) hb hf =
    du_walk-sum ((bytes + size) % 2 ^ 64) ((files + 1) % 2 ^ 64) rest (omega arith) (omega arith)
    ∙ ap₂ (λ a b. (a, b)) (omega arith) (omega arith)

-- The walk adds up the sizes of the regular files and counts them, both modulo 2 ^ 64, and nothing
-- else that it visits.
pub du_walk_total :
    (visited : List (Bool × ℕ))
    → du_walk 0 0 visited ≡ (file_bytes visited % 2 ^ 64, file_number visited % 2 ^ 64)
du_walk_total visited =
    du_walk-sum 0 0 visited (omega arith) (omega arith)
    ∙ ap₂ (λ a b. (a, b)) (omega arith) (omega arith)
