-- ===== src/Fsp/Path.antt =====
-- fsp/src/fsp_path.c: lexical operations on paths.
-- What `getcwd` returns is a parameter: the directory, or its errno. The file system is not read.
pub mod Render
pub mod Canonical
pub mod Join
pub mod Parent
use hwrun_os_linux.Prelude.{
  ℕ, ◌+◌, ◌-◌, Bool, true, false, not, ◌&&◌, List, [], ◌∷◌, ◌++◌, Option, none, some, ◌⊎◌, inl, inr,
  Bytes, codes, length, str_eq, is_empty, fit, if◌then◌else◌, ltb, leb, ◌==◌,
}
use hwrun_os_linux.Errno.{Errno, einval, enametoolong}

-- A path written to `out`, or the negated errno that is returned.
pub data Outcome : Type 0 where
  path : Bytes → Outcome
  failed : Errno → Outcome

abbrev pub name_cap : ℕ
name_cap = 256

abbrev pub depth_max : ℕ
depth_max = 64

abbrev pub buffer_size : ℕ
buffer_size = 4096

abbrev pub slash : ℕ
slash = 47

-- A segment is what stands between slashes; an empty one is skipped.
abbrev pub emit : Bytes → List Bytes → List Bytes
emit [] segs = segs
emit (c ∷ cur) segs = (c ∷ cur) ∷ segs

-- A byte goes to the segment buffer while it has room.
unfoldable pub add_byte : Bytes → ℕ → Bytes
add_byte cur c = if ltb (length cur + 1) name_cap then cur ++ c ∷ [] else cur

-- The segments of a path, with `cur` read of the first.
unfoldable pub segments : Bytes → Bytes → List Bytes
segments cur [] = emit cur []
segments cur (c ∷ s) = if c == slash then emit cur (segments [] s) else segments (add_byte cur c) s

-- The stack without its top, which is the last of the list.
unfoldable pub pop : List Bytes → List Bytes
pop [] = []
pop (x ∷ []) = []
pop (x ∷ y ∷ r) = x ∷ pop (y ∷ r)

-- The component stack after all the segments; nothing when it has no room.
unfoldable pub walk : List Bytes → List Bytes → Option (List Bytes)
unfolding pop
walk [] stack = some stack
walk (seg ∷ segs) stack =
    if str_eq seg (codes ".")
    then walk segs stack
    else if str_eq seg (codes "..")
    then walk segs (pop stack)
    else if ltb (length stack) depth_max
    then walk segs (stack ++ seg ∷ [])
    else none

-- The macro PUSH
unfoldable pub push : ℕ → Bytes → Bytes → Option Bytes
push cap out [] = some out
push cap out (c ∷ q) = if leb cap (length out + 1) then none else push cap (out ++ c ∷ []) q

abbrev only_slash : Bytes → Bool
only_slash [] = false
only_slash (c ∷ r) = is_empty r && (c == slash)

-- The separator is left out after the leading slash.
unfoldable pub separate : ℕ → Bytes → Option Bytes
unfolding push
separate cap out = if not (only_slash out) then push cap out (slash ∷ []) else some out

unfoldable pub append_all : ℕ → List Bytes → Bytes → Option Bytes
unfolding push separate
append_all cap [] out = some out
append_all cap (seg ∷ stack) out = elim (separate cap out) [
  | none ↦ none
  | some o ↦ elim (push cap o seg) [ none ↦ none | some o' ↦ append_all cap stack o' ]
]

unfoldable pub assemble : ℕ → List Bytes → Option Bytes
unfolding append_all push
assemble cap stack = elim (push cap [] (slash ∷ [])) [
  | none ↦ none
  | some o ↦ append_all cap stack o
]

abbrev pub is_absolute : Bytes → Bool
is_absolute [] = false
is_absolute (c ∷ s) = c == slash

abbrev written : Option Bytes → Outcome
written none = failed enametoolong
written (some out) = path out

unfoldable pub resolved : ℕ → Bytes → Outcome
unfolding segments walk assemble
resolved cap src = elim (walk (segments [] src) []) [
  | none ↦ failed enametoolong
  | some stack ↦ written (assemble cap stack)
]

unfoldable pub fsp_path_normalize : Errno ⊎ Bytes → Option Bytes → ℕ → Outcome
unfolding resolved
fsp_path_normalize cwd none cap = failed einval
fsp_path_normalize cwd (some src) cap =
    if cap == 0 then failed einval else if is_absolute src then resolved cap src else elim cwd [
      | inl e ↦ failed e
      | inr dir ↦
          if ltb buffer_size (length dir + 1 + length src + 1)
          then failed enametoolong
          else resolved cap (dir ++ slash ∷ src)
    ]

-- The last byte is not a slash.
unfoldable pub needs_slash : Bytes → Bool
needs_slash [] = false
needs_slash (c ∷ []) = not (c == slash)
needs_slash (c ∷ d ∷ s) = needs_slash (d ∷ s)

unfoldable pub joined : Bytes → Bytes → Bytes
unfolding needs_slash
joined dir name = if needs_slash dir then dir ++ slash ∷ name else dir ++ name

unfoldable pub fsp_path_join : Errno ⊎ Bytes → ℕ → Option Bytes → Option Bytes → Outcome
unfolding joined fsp_path_normalize
fsp_path_join cwd cap none name = failed einval
fsp_path_join cwd cap (some dir) none = failed einval
fsp_path_join cwd cap (some dir) (some name) =
    if cap == 0
    then failed einval
    else if ltb buffer_size (length (joined dir name) + 1)
    then failed enametoolong
    else fsp_path_normalize cwd (some (joined dir name)) cap

unfoldable pub fsp_path_absolute : Errno ⊎ Bytes → Option Bytes → ℕ → Outcome
unfolding fsp_path_normalize
fsp_path_absolute cwd p cap = fsp_path_normalize cwd p cap

unfoldable pub strip_slashes : Bytes → Bytes
strip_slashes [] = []
strip_slashes (c ∷ s) = elim (strip_slashes s) [
  | [] ↦ if c == slash then [] else c ∷ []
  | d ∷ r ↦ c ∷ d ∷ r
]

-- The path without the slashes at its end, but with its first byte.
unfoldable pub stripped : Bytes → Bytes
unfolding strip_slashes
stripped [] = []
stripped (c ∷ s) = c ∷ strip_slashes s

-- What stands before the last slash, where there is one.
unfoldable pub before_slash : Bytes → Option Bytes
before_slash [] = none
before_slash (c ∷ s) = elim (before_slash s) [
  | none ↦ if c == slash then some [] else none
  | some b ↦ some (c ∷ b)
]

-- The end of the routine, on what stands before the last slash.
unfoldable pub parent_of : ℕ → Option Bytes → Outcome
parent_of cap none = failed einval
parent_of cap (some []) = if ltb cap 2 then failed enametoolong else path (fit cap (slash ∷ []))
parent_of cap (some (c ∷ [])) = path (fit cap (slash ∷ []))
parent_of cap (some (c ∷ d ∷ b)) = path (fit cap (c ∷ d ∷ b))

unfoldable pub fsp_path_parent : Errno ⊎ Bytes → Option Bytes → ℕ → Outcome
unfolding fsp_path_normalize stripped before_slash parent_of
fsp_path_parent cwd none cap = failed einval
fsp_path_parent cwd (some p) cap =
    if cap == 0 then failed einval else elim (fsp_path_normalize cwd (some p) buffer_size) [
      | failed e ↦ failed e
      | path norm ↦ parent_of cap (before_slash (stripped norm))
    ]
