-- ===== src/Audit/Config/Bounds.antt =====
-- The limits of the settings in audit/src/audit_impl.c.
use hwrun_os_linux.Prelude.{
  ℕ, ◌*◌, ◌^◌, ◌≤◌, ◌<◌, ◌≡◌, ◌≢◌, refl, [], ◌∷◌, Option, Option-cases, Bool-cases, none, some,
  Bytes, codes, length, length-fit-lt, is_empty, str_eq, fit, strtol, if◌then◌else◌, ◌==◌, arith,
  ◌⊎◌, inl, inr,
}
use hwrun_os_linux.Prelude.Decimal.{strtoull}
use hwrun_os_linux.Errno.{Rc, ok}
use hwrun_os_linux.Audit.Config.{
  Store, dir_cap, seg_max, multiplier, times, parse_size, parse_int_range, drop_slashes, strip_dir,
  move_to, set_bytes, set_files, configure, hw_audit_configure,
}

abbrev IsUnit : ℕ → Type 0
IsUnit m = ((m ≡ 1) ⊎ (m ≡ 1024)) ⊎ ((m ≡ 1024 * 1024) ⊎ (m ≡ 1024 * 1024 * 1024))

multiplier-IsUnit : (s : Bytes) (m : ℕ) → multiplier s ≡ some m → IsUnit m
unfolding multiplier
multiplier-IsUnit [] m e = ground arith
multiplier-IsUnit (u ∷ rest) m e = ground arith

times_bounds : (v m b : ℕ) → IsUnit m → 0 < v → times v (some m) ≡ some b → (0 < b) × (b < 2 ^ 64)
times_bounds v m b (inl (inl e)) h t = ground arith
times_bounds v m b (inl (inr e)) h t = ground arith
times_bounds v m b (inr (inl e)) h t = ground arith
times_bounds v m b (inr (inr e)) h t = ground arith

-- A size that is accepted is a positive number of 64 bits.
parse_size_bounds : (s : Bytes) (b : ℕ) → parse_size s ≡ some b → (0 < b) × (b < 2 ^ 64)
unfolding parse_size
parse_size_bounds s b h = elim (Option-cases (multiplier (strtol s).1)) [
  | inl none_there ↦ absurd (ground (arith, none_there))
  | inr (m, unit) ↦ elim (Bool-cases (strtoull s == 0)) [
    | inl zero_there ↦ absurd (ground (arith, zero_there))
    | inr nonzero ↦
        times_bounds (strtoull s) m b (multiplier-IsUnit (strtol s).1 m unit)
          (ground (arith, nonzero)) (ground (arith, unit))
  ]
]

parse_int_range_bounds :
    (s : Bytes) (lo hi n : ℕ) → parse_int_range s lo hi ≡ some n → (lo ≤ n) × (n ≤ hi)
unfolding parse_int_range
parse_int_range_bounds s lo hi n h = ground arith

length-drop_slashes-le : (s : Bytes) → length (drop_slashes s) ≤ length s
unfolding drop_slashes
length-drop_slashes-le [] = omega arith
length-drop_slashes-le (c ∷ s) = ground (arith, length-drop_slashes-le s)

length-strip_dir-le : (s : Bytes) → length (strip_dir s) ≤ length s
unfolding strip_dir
length-strip_dir-le [] = omega arith
length-strip_dir-le (c ∷ s) = omega (arith, length-drop_slashes-le s)

-- The settings within their limits.
pub record IsBounded (st : Store) : Type 0 where
  pub max_bytes : (0 < st.max_bytes) × (st.max_bytes < 2 ^ 64)
  pub max_files : (1 ≤ st.max_files) × (st.max_files ≤ seg_max)
  pub dir : length st.dir < dir_cap

-- What a call keeps.
abbrev pub Configured : Store → Store × Rc → Type 0
Configured st out = IsBounded out.0 × (out.1 ≢ ok → out.0 ≡ st)

set_bytes-Configured :
    (st : Store) (s : Bytes) (read : Option ℕ)
    → parse_size s ≡ read
    → IsBounded st
    → Configured st (set_bytes st read)
set_bytes-Configured st s none e h = (h, λ ne. refl)
set_bytes-Configured st s (some b) e h = (
  record { max_bytes = parse_size_bounds s b e; max_files = h.max_files; dir = h.dir },
  λ ne. absurd (ne refl),
)

set_files-Configured :
    (st : Store) (s : Bytes) (read : Option ℕ)
    → parse_int_range s 1 seg_max ≡ read
    → IsBounded st
    → Configured st (set_files st read)
set_files-Configured st s none e h = (h, λ ne. refl)
set_files-Configured st s (some n) e h = (
  record {
    max_bytes = h.max_bytes;
    max_files = parse_int_range_bounds s 1 seg_max n e;
    dir = h.dir;
  },
  λ ne. absurd (ne refl),
)

move_to-IsBounded : (st : Store) (norm : Bytes) → IsBounded st → IsBounded (move_to st norm)
move_to-IsBounded st norm h = elim (Bool-cases (str_eq norm st.dir)) [
  | inl e ↦ rw e h
  | inr e ↦ rw e (record {
    max_bytes = h.max_bytes;
    max_files = h.max_files;
    dir = length-fit-lt 512 norm (omega arith);
  })
]

set_path-IsBounded :
    (st : Store) (value : Bytes)
    → IsBounded st
    → IsBounded (if is_empty value then st else move_to st (strip_dir (fit dir_cap value)))
set_path-IsBounded st [] h = h
set_path-IsBounded st (c ∷ s) h = move_to-IsBounded st (strip_dir (fit dir_cap (c ∷ s))) h

configure-Configured :
    (st : Store) (key value : Bytes) → IsBounded st → Configured st (configure st key value)
unfolding configure
configure-Configured st key value h = elim (Bool-cases (str_eq key (codes "audit.log.path"))) [
  | inl e ↦ rw (e, configure) (set_path-IsBounded st value h, λ ne. absurd (ne refl))
  | inr e ↦ elim (Bool-cases (str_eq key (codes "audit.log.max_bytes"))) [
    | inl b ↦ rw (e, b, configure) (set_bytes-Configured st value (parse_size value) refl h)
    | inr b ↦ elim (Bool-cases (str_eq key (codes "audit.log.max_files"))) [
      | inl n ↦
          rw (e, b, n, configure)
            (set_files-Configured st value (parse_int_range value 1 seg_max) refl h)
      | inr n ↦ rw (e, b, n, configure) (h, λ ne. refl)
    ]
  ]
]

-- Whatever key and value are configured, settings within their limits stay within them: the size is
-- positive and a number of 64 bits, the number of files is from 1 to 16 and the directory fits. A call
-- that fails leaves the settings as they are.
pub hw_audit_configure-Configured :
    (st : Store) (key value : Option Bytes)
    → IsBounded st
    → Configured st (hw_audit_configure st key value)
unfolding hw_audit_configure
hw_audit_configure-Configured st none value h = (h, λ e. refl)
hw_audit_configure-Configured st (some key) none h = (h, λ e. refl)
hw_audit_configure-Configured st (some key) (some value) h = configure-Configured st key value h
