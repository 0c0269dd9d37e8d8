-- ===== src/Audit/Config.antt =====
-- audit/src/audit_impl.c: the settings of the log, and the texts that they are given as.
pub mod Bounds
use hwrun_os_linux.Prelude.{
  ℕ, zero, suc, ◌+◌, ◌-◌, ◌*◌, ◌/◌, ◌^◌, ◌≤◌, ◌<◌, ◌≡◌, ◌≢◌, refl, sym, ◌∙◌, ap, Bool, true, false,
  not, ◌&&◌, ◌||◌, List, [], ◌∷◌, ◌++◌, Option, Option-cases, Bool-cases, none, some, Bytes, codes,
  length, length-fit-lt, is_empty, str_eq, fit, strtol, skip_spaces, read_digits, if◌then◌else◌,
  ltb, leb, ◌==◌, ℤ, pos, negsuc, arith, ◌⊎◌, inl, inr,
}
use hwrun_os_linux.Prelude.Decimal.{strtoull}
use hwrun_os_linux.Errno.{Rc, ok, err, einval}

-- audit_store_t, without the lock
pub record Store : Type 0 where
  pub dir : Bytes
  pub max_bytes : ℕ
  pub max_files : ℕ
  pub next_seq : ℕ

abbrev pub dir_cap : ℕ
dir_cap = 512

abbrev pub seg_max : ℕ
seg_max = 16

abbrev after_sign : Bytes → Bytes
after_sign [] = []
after_sign (c ∷ s) = if c == b'-' || c == b'+' then s else c ∷ s

-- The digits at the front, as a number without a bound; strtoull and strtol set errno past their range.
magnitude : Bytes → ℕ
unfolding skip_spaces read_digits
magnitude s = (read_digits 0 (after_sign (skip_spaces s))).0

-- end == s
abbrev unread : Bytes → Bool
unread s = leb (length s) (length (strtol s).1)

-- The factor of a unit, with the rest of the text.
abbrev pub unit_of : ℕ → Option ℕ
unit_of u =
    if u == b'k' || u == b'K'
    then some 1024
    else if u == b'm' || u == b'M'
    then some (1024 * 1024)
    else if u == b'g' || u == b'G'
    then some (1024 * 1024 * 1024)
    else none

abbrev pub skip_b : Bytes → Bytes
skip_b [] = []
skip_b (c ∷ s) = if c == b'b' || c == b'B' then s else c ∷ s

abbrev unit_end : Option ℕ → Bytes → Option ℕ
unit_end none rest = none
unit_end (some mult) rest = if is_empty (skip_b rest) then some mult else none

-- What follows the number.
unfoldable pub multiplier : Bytes → Option ℕ
multiplier [] = some 1
multiplier (u ∷ rest) = unit_end (unit_of u) rest

abbrev pub times : ℕ → Option ℕ → Option ℕ
times v none = none
times v (some mult) = if ltb ((2 ^ 64 - 1) / mult) v then none else some (v * mult)

-- none is -EINVAL.
unfoldable pub parse_size : Bytes → Option ℕ
unfolding magnitude strtoull strtol multiplier
parse_size s =
    if is_empty s
    then none
    else if leb (2 ^ 64) (magnitude s)
    then none
    else if unread s || strtoull s == 0
    then none
    else times (strtoull s) (multiplier (strtol s).1)

-- The range of a `long`, by the sign of the number.
abbrev out_of_long : Bytes → Bool
out_of_long s = elim (strtol s).0 [
  | pos n ↦ ltb n (magnitude s)
  | negsuc n ↦ ltb (suc n) (magnitude s)
]

abbrev in_range : ℕ → ℕ → ℤ → Option ℕ
in_range lo hi (negsuc n) = none
in_range lo hi (pos n) = if ltb n lo || ltb hi n then none else some n

-- For bounds that are not negative.
unfoldable pub parse_int_range : Bytes → ℕ → ℕ → Option ℕ
unfolding magnitude strtol
parse_int_range s lo hi =
    if is_empty s
    then none
    else if out_of_long s || (unread s || not (is_empty (strtol s).1))
    then none
    else in_range lo hi (strtol s).0

-- Without the slashes at the end, but for one that is the whole text.
unfoldable pub drop_slashes : Bytes → Bytes
drop_slashes [] = []
drop_slashes (c ∷ s) =
    let rest = drop_slashes s in if is_empty rest && c == b'/' then [] else c ∷ rest

unfoldable pub strip_dir : Bytes → Bytes
unfolding drop_slashes
strip_dir [] = []
strip_dir (c ∷ s) = c ∷ drop_slashes s

abbrev pub move_to : Store → Bytes → Store
move_to st norm =
    if str_eq norm st.dir then st else record st { dir = fit dir_cap norm; next_seq = 0 }

abbrev pub set_bytes : Store → Option ℕ → Store × Rc
set_bytes st none = (st, err einval)
set_bytes st (some b) = (record st { max_bytes = b }, ok)

abbrev pub set_files : Store → Option ℕ → Store × Rc
set_files st none = (st, err einval)
set_files st (some n) = (record st { max_files = n }, ok)

unfoldable pub configure : Store → Bytes → Bytes → Store × Rc
unfolding strip_dir parse_size parse_int_range
configure st key value =
    if str_eq key (codes "audit.log.path")
    then (if is_empty value then st else move_to st (strip_dir (fit dir_cap value)), ok)
    else if str_eq key (codes "audit.log.max_bytes")
    then set_bytes st (parse_size value)
    else if str_eq key (codes "audit.log.max_files")
    then set_files st (parse_int_range value 1 seg_max)
    else (st, ok)

unfoldable pub hw_audit_configure : Store → Option Bytes → Option Bytes → Store × Rc
unfolding configure
hw_audit_configure st none value = (st, err einval)
hw_audit_configure st (some key) none = (st, ok)
hw_audit_configure st (some key) (some value) = configure st key value
