-- ===== src/Storage/Text/Printed.antt =====
-- The lines of the state file that storage_persist of storage/src/storage_impl.c writes.
use hwrun_os_linux.Prelude.{
  ℕ, ◌+◌, ◌^◌, ◌≤◌, ◌<◌, ◌≡◌, ◌≢◌, refl, sym, ◌∙◌, subst, Bool, true, false, not, ◌&&◌, List, [],
  ◌∷◌, ◌++◌, Bytes, codes, length, length-append, ltb, ◌==◌, ℤ, pos, arith, All, All-append, ◌⊎◌,
  inl, inr,
}
use hwrun_os_linux.Prelude.Lines.{
  trim, trim_line, trim_nil, ends_solid, ends_solid-append, is_blank, OneLine, newline,
}
use hwrun_os_linux.Prelude.Decimal.{decimal, decimal_int, decimal_short, IsDigit}
use hwrun_os_linux.Storage.{Volume, Snapshot}
use hwrun_os_linux.Storage.Text.{
  field, volume_lines, snapshot_lines, all_volume_lines, all_snapshot_lines, state_lines,
  first_comment, second_comment,
}

-- A text of one line that trimming leaves alone at its end.
abbrev pub Tidy : ℕ → Bytes → Type 0
Tidy cap s = (length s < cap) × OneLine s × ((s ≡ []) ⊎ (ends_solid s ≡ true))

-- What the state file keeps of a volume.
pub record IsStorable (v : Volume) : Type 0 where
  pub id : Tidy 40 v.id × (v.id ≢ [])
  pub name : Tidy 128 v.name × (v.name ≢ [])
  pub path : Tidy 512 v.path × (v.path ≢ [])
  pub description : Tidy 256 v.description
  pub size_limit : v.size_limit < 2 ^ 64
  pub created_at : v.created_at < 2 ^ 64
  pub readonly : (v.readonly ≡ pos 0) ⊎ (v.readonly ≡ pos 1)

pub record IsKept (s : Snapshot) : Type 0 where
  pub id : Tidy 40 s.id × (s.id ≢ [])
  pub name : Tidy 128 s.name × (s.name ≢ [])
  pub volume : Tidy 128 s.volume × (s.volume ≢ [])
  pub path : Tidy 512 s.path × (s.path ≢ [])
  pub created_at : s.created_at < 2 ^ 64
  pub active : (s.active ≡ pos 0) ⊎ (s.active ≡ pos 1)

-- A line that the file gives back.
abbrev pub Line : Bytes → Type 0
Line l = (OneLine l × (length l + 1 < 2048)) × (trim (l ++ newline ∷ []) ≡ l)

digits_solid : (c : ℕ) (s : Bytes) → All IsDigit (c ∷ s) → ends_solid (c ∷ s) ≡ true
unfolding ends_solid
digits_solid c [] h = ground arith
digits_solid c (d ∷ s) h = digits_solid d s h.1

digits_OneLine : (s : Bytes) → All IsDigit s → OneLine s
digits_OneLine [] h = tt
digits_OneLine (c ∷ s) h = (λ e. absurd (omega (arith, h.0, e)), digits_OneLine s h.1)

digits_Tidy : (cap : ℕ) (s : Bytes) → All IsDigit s → length s < cap → Tidy cap s
digits_Tidy cap [] d h = (h, tt, inl refl)
digits_Tidy cap (c ∷ s) d h = (h, digits_OneLine (c ∷ s) d, inr (digits_solid c s d))

decimal-Tidy : (n : ℕ) → n < 2 ^ 64 → Tidy 512 (decimal n)
decimal-Tidy n h =
    let (d, short) = decimal_short n h in digits_Tidy 512 (decimal n) d (omega (arith, short))

bit-Tidy : (z : ℤ) → (z ≡ pos 0) ⊎ (z ≡ pos 1) → Tidy 512 (decimal_int z)
bit-Tidy z (inl e) = subst (λ x. Tidy 512 (decimal_int x)) (sym e) (decimal-Tidy 0 (omega arith))
bit-Tidy z (inr e) = subst (λ x. Tidy 512 (decimal_int x)) (sym e) (decimal-Tidy 1 (omega arith))

Tidy-le : (cap : ℕ) (s : Bytes) → cap ≤ 512 → Tidy cap s → Tidy 512 s
Tidy-le cap s le h = (omega (arith, h.0), h.1, h.2)

behind_sign :
    (value : Bytes) → (value ≡ []) ⊎ (ends_solid value ≡ true) → ends_solid (b'=' ∷ value) ≡ true
unfolding ends_solid
behind_sign [] h = refl
behind_sign (c ∷ value) (inl e) = ground arith
behind_sign (c ∷ value) (inr e) = e

one_line : Bytes → Bool
one_line [] = true
one_line (c ∷ s) = not (c == newline) && one_line s

one_line-OneLine : (s : Bytes) → one_line s ≡ true → OneLine s
unfolding one_line
one_line-OneLine [] h = tt
one_line-OneLine (c ∷ s) h = ground (arith, one_line-OneLine s)

-- A word as the keys are.
is_key : Bytes → Bool
unfolding one_line
is_key [] = false
is_key (c ∷ key) = (not (is_blank c) && one_line (c ∷ key)) && ltb (length key) 20

-- The line of a tidy value; it ends in the value, or in the sign of equality.
field-Line : (key value : Bytes) → is_key key ≡ true → Tidy 512 value → Line (field key value)
unfolding is_key
field-Line [] value plain t = absurd (ground arith)
field-Line (c ∷ key) value plain t =
    let solid : is_blank c ≡ false = ground arith in
    let one : OneLine (c ∷ key) = one_line-OneLine (c ∷ key) (ground arith) in
    let short : length key < 20 = ground arith in
    (
      (
        All-append (λ x. x ≢ newline) (c ∷ key) (b'=' ∷ value) one (ground arith, t.1),
        omega (arith, t.0, length-append key (b'=' ∷ value)),
      ),
      trim_line c (key ++ b'=' ∷ value) solid
          (ends_solid-append (c ∷ key) (b'=' ∷ value) (ground arith) ∙ behind_sign value t.2),
    )

-- A word alone.
word_Line : (c : ℕ) (s : Bytes) → is_key (c ∷ s) ≡ true → ends_solid (c ∷ s) ≡ true → Line (c ∷ s)
unfolding is_key
word_Line c s plain ends =
    ((one_line-OneLine (c ∷ s) (ground arith), ground arith), trim_line c s (ground arith) ends)

empty_Line : Line []
empty_Line = ((tt, omega arith), trim_nil)

-- The lines of a block.
volume-Line : (v : Volume) → IsStorable v → All Line (volume_lines v)
unfolding volume_lines is_key ends_solid
volume-Line v h = (
  word_Line b'v' (codes "olume") refl refl,
  (
    field-Line (codes "id") v.id refl (Tidy-le 40 v.id (omega arith) h.id.0),
    (
      field-Line (codes "name") v.name refl (Tidy-le 128 v.name (omega arith) h.name.0),
      (
        field-Line (codes "path") v.path refl h.path.0,
        (
          field-Line (codes "size_limit") (decimal v.size_limit) refl
              (decimal-Tidy v.size_limit h.size_limit),
          (
            field-Line (codes "readonly") (decimal_int v.readonly) refl
                (bit-Tidy v.readonly h.readonly),
            (
              field-Line (codes "created_at") (decimal v.created_at) refl
                  (decimal-Tidy v.created_at h.created_at),
              (
                field-Line (codes "description") v.description refl
                    (Tidy-le 256 v.description (omega arith) h.description),
                (empty_Line, (tt)),
              ),
            ),
          ),
        ),
      ),
    ),
  ),
)

snapshot-Line : (s : Snapshot) → IsKept s → All Line (snapshot_lines s)
unfolding snapshot_lines is_key ends_solid
snapshot-Line s h = (
  word_Line b's' (codes "napshot") refl refl,
  (
    field-Line (codes "id") s.id refl (Tidy-le 40 s.id (omega arith) h.id.0),
    (
      field-Line (codes "name") s.name refl (Tidy-le 128 s.name (omega arith) h.name.0),
      (
        field-Line (codes "volume") s.volume refl (Tidy-le 128 s.volume (omega arith) h.volume.0),
        (
          field-Line (codes "path") s.path refl h.path.0,
          (
            field-Line (codes "created_at") (decimal s.created_at) refl
                (decimal-Tidy s.created_at h.created_at),
            (
              field-Line (codes "active") (decimal_int s.active) refl (bit-Tidy s.active h.active),
              (empty_Line, (tt)),
            ),
          ),
        ),
      ),
    ),
  ),
)

every_volume : (vs : List Volume) → All IsStorable vs → All Line (all_volume_lines vs)
unfolding all_volume_lines
every_volume [] h = tt
every_volume (v ∷ vs) h =
    All-append Line (volume_lines v) (all_volume_lines vs) (volume-Line v h.0) (every_volume vs h.1)

every_snapshot : (ss : List Snapshot) → All IsKept ss → All Line (all_snapshot_lines ss)
unfolding all_snapshot_lines
every_snapshot [] h = tt
every_snapshot (s ∷ ss) h =
    All-append Line (snapshot_lines s) (all_snapshot_lines ss) (snapshot-Line s h.0)
      (every_snapshot ss h.1)

pub state_lines-Line :
    (vs : List Volume) (ss : List Snapshot)
    → All IsStorable vs
    → All IsKept ss
    → All Line (state_lines vs ss)
unfolding state_lines one_line ends_solid
state_lines-Line vs ss hv hs = (
  ((one_line-OneLine first_comment refl, ground arith), trim_line _ _ refl refl),
  (
    ((one_line-OneLine second_comment refl, ground arith), trim_line _ _ refl refl),
    (
      empty_Line,
      (All-append Line (all_volume_lines vs) (all_snapshot_lines ss) (every_volume vs hv)
          (every_snapshot ss hs)),
    ),
  ),
)

pub lines_fit : (ls : List Bytes) → All Line ls → All (λ l. OneLine l × (length l + 1 < 2048)) ls
lines_fit [] h = tt
lines_fit (l ∷ ls) h = (h.0.0, lines_fit ls h.1)
