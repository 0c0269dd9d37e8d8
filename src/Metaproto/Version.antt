-- ===== src/Metaproto/Version.antt =====
-- Versions: `version_segments`, `hw_proto_version_compat` and `hw_proto_version_cmp` of
-- bus/src/metaproto.c. A `long` is an integer in the range of 64 bits.
use mathlib.Core.Option
use hwrun_os_linux.Prelude.{
  ℕ, zero, suc, ◌+◌, ◌<◌, ◌≡◌, ◌⊎◌, refl, Bool, true, false, not, ◌&&◌, ◌||◌, [], ◌∷◌, Bytes,
  Option, none, some, is_empty, starts_digit, strtol-lt, sub_ℕ, ◌≤◌, length, if◌then◌else◌, ◌==◌, ℤ,
  pos, negsuc, ◌≤ℤ◌, ◌<ℤ◌, ltb_ℤ, eqb_ℤ, strtol, is_digit, arith, ◌≢◌, ◌↔◌,
}

pub record Segments : Type 0 where
  pub count : ℕ
  pub major : ℤ
  pub minor : ℤ
  pub patch : ℤ

abbrev no_segments : Segments
no_segments = record { count = 0; major = pos 0; minor = pos 0; patch = pos 0 }

third : ℤ → ℤ → Bytes → Segments
third ma mi [] = record { count = 2; major = ma; minor = mi; patch = pos 0 }
third ma mi (c ∷ s) =
    if c == b'.'
    then record { count = 3; major = ma; minor = mi; patch = (strtol s).0 }
    else record { count = 2; major = ma; minor = mi; patch = pos 0 }

second : ℤ → Bytes → Segments
unfolding third
second ma [] = record { count = 1; major = ma; minor = pos 0; patch = pos 0 }
second ma (c ∷ s) =
    let (mi, rest) = strtol s in
    if c == b'.'
    then third ma mi rest
    else record { count = 1; major = ma; minor = pos 0; patch = pos 0 }

-- `end == v` when `strtol` read nothing: it then leaves the whole text.
unfoldable pub version_segments : Bytes → Segments
unfolding second
version_segments [] = no_segments
version_segments v =
    let (ma, rest) = strtol v in if length rest == length v then no_segments else second ma rest

unfoldable pub hw_proto_version_compat : Bytes → Bytes → Bool
hw_proto_version_compat have req =
    let h = version_segments have in
    let r = version_segments req in
    if h.count == 0 || r.count == 0
    then false
    else if not (eqb_ℤ h.major r.major)
    then false
    else if ltb_ℤ h.minor r.minor
    then false
    else if eqb_ℤ h.minor r.minor && ltb_ℤ h.patch r.patch
    then false
    else true

skip_to_digit : Bytes → Bytes
skip_to_digit [] = []
skip_to_digit (c ∷ s) = if is_digit c then c ∷ s else skip_to_digit s

-- One round of the loop, on texts cut to their next digit; `next` is the rest of the loop.
cmp_round : Bytes → Bytes → (Bytes → Bytes → Option ℤ) → Option ℤ
cmp_round a b next =
    let (ma, ra) = strtol a in
    let (mb, rb) = strtol b in
    if is_empty a || is_empty b
    then some (pos 0)
    else if eqb_ℤ ma mb
    then next ra rb
    else if ltb_ℤ ma mb
    then some (negsuc 0)
    else some (pos 1)

-- `none` means that the fuel ran out.
cmp_loop : ℕ → Bytes → Bytes → Option ℤ
cmp_loop zero a b = none
cmp_loop (suc f) a b =
    let round = cmp_round (skip_to_digit a) (skip_to_digit b) (cmp_loop f) in
    if is_empty a || is_empty b then some (pos 0) else round

unfoldable pub hw_proto_version_cmp : Bytes → Bytes → Option ℤ
unfolding cmp_loop cmp_round skip_to_digit
hw_proto_version_cmp a b = cmp_loop (suc (length a + length b)) a b

-- `h` serves a request for `r`: the same major, and the minor and patch are no older.
abbrev pub Serves : Segments → Segments → Type 0
Serves h r =
    (h.count ≢ 0)
    × (r.count ≢ 0)
    × (h.major ≡ r.major)
    × ((r.minor <ℤ h.minor) ⊎ ((r.minor ≡ h.minor) × (r.patch ≤ℤ h.patch)))

eqb_ℤ→≡ : (a b : ℤ) → eqb_ℤ a b ≡ true → a ≡ b
eqb_ℤ→≡ a b h = ground arith

≡→eqb_ℤ : (a b : ℤ) → a ≡ b → eqb_ℤ a b ≡ true
≡→eqb_ℤ a b h = ground arith

-- The compatibility test accepts exactly the versions that both parse, agree in the major number,
-- and whose minor and patch numbers, compared in this order, are at least the requested ones.
pub version_compat_iff :
    (have req : Bytes)
    → (hw_proto_version_compat have req ≡ true)
      ↔ Serves (version_segments have) (version_segments req)
unfolding hw_proto_version_compat
version_compat_iff have req = (λ e. ground arith, λ e. ground arith)

Serves-trans : (a b c : Segments) → Serves a b → Serves b c → Serves a c
Serves-trans a b c h k = ground arith

-- Compatibility is transitive: a provider that serves a version also serves what that one serves.
version_compat_trans :
    (a b c : Bytes)
    → hw_proto_version_compat a b ≡ true
    → hw_proto_version_compat b c ≡ true
    → hw_proto_version_compat a c ≡ true
version_compat_trans a b c h k = (version_compat_iff a c).1 (
    Serves-trans (version_segments a) (version_segments b) (version_segments c)
      ((version_compat_iff a b).0 h) ((version_compat_iff b c).0 k))

skip_to_digit-le : (s : Bytes) → length (skip_to_digit s) ≤ length s
unfolding skip_to_digit
skip_to_digit-le [] = omega arith
skip_to_digit-le (c ∷ s) = ground (arith, skip_to_digit-le s)

skip_to_digit-starts :
    (s : Bytes) → is_empty (skip_to_digit s) ≡ false → starts_digit (skip_to_digit s) ≡ true
unfolding skip_to_digit
skip_to_digit-starts [] h = cc
skip_to_digit-starts (c ∷ s) h = ground (arith, skip_to_digit-starts s)

cmp_loop-total : (f : ℕ) (a b : Bytes) → length a + length b < f → cmp_loop f a b ≢ none
unfolding cmp_loop cmp_round
cmp_loop-total zero a b h = elim h [ ]
cmp_loop-total (suc f) a b h = ground (
  arith,
  skip_to_digit-le a,
  skip_to_digit-le b,
  skip_to_digit-starts a,
  skip_to_digit-starts b,
  strtol-lt (skip_to_digit a),
  strtol-lt (skip_to_digit b),
  cmp_loop-total f (strtol (skip_to_digit a)).1 (strtol (skip_to_digit b)).1,
)

abbrev pub opposite : ℤ → ℤ
opposite (pos n) = sub_ℕ 0 n
opposite (negsuc n) = pos (suc n)

cmp_loop-swap : (f : ℕ) (a b : Bytes) → cmp_loop f b a ≡ Option.map opposite (cmp_loop f a b)
unfolding cmp_loop cmp_round
cmp_loop-swap zero a b = refl
cmp_loop-swap (suc f) a b =
    ground (arith, cmp_loop-swap f (strtol (skip_to_digit a)).1 (strtol (skip_to_digit b)).1)

-- The comparison loop ends on all texts, and comparing the other way round gives the opposite sign.
pub version_cmp_antisym :
    (a b : Bytes)
    → (hw_proto_version_cmp a b ≢ none)
      × (hw_proto_version_cmp b a ≡ Option.map opposite (hw_proto_version_cmp a b))
unfolding hw_proto_version_cmp
version_cmp_antisym a b =
    let fuel : length b + length a ≡ length a + length b = omega arith in
    (
      cmp_loop-total (suc (length a + length b)) a b (omega arith),
      rw fuel (cmp_loop-swap (suc (length a + length b)) a b),
    )
