-- ===== src/Prelude/Lines.antt =====
-- The lines that fgets reads from a text, and their trimming.
use hwrun_os_linux.Prelude.{
  ℕ, ◌+◌, ◌<◌, ◌≡◌, ◌≢◌, refl, ◌∙◌, ap, Bool, true, false, not, ◌&&◌, ◌||◌, List, [], ◌∷◌, ◌++◌,
  map, append_assoc, Bytes, length, length-append, if◌then◌else◌, leb, ◌==◌, arith, All, is_empty,
}

abbrev pub newline : ℕ
newline = 10

abbrev emit : Bytes → List Bytes → List Bytes
emit [] rest = rest
emit (c ∷ cur) rest = (c ∷ cur) ∷ rest

-- fgets (buf, n, fp) until the end of the file, with `cur` read of the present line: a line ends
-- behind its newline, or where the buffer has one byte left.
unfoldable pub fgets_lines : ℕ → Bytes → Bytes → List Bytes
fgets_lines n cur [] = emit cur []
fgets_lines n cur (c ∷ s) = elim (c == newline || leb n (length cur + 2)) [
  | true ↦ (cur ++ c ∷ []) ∷ fgets_lines n [] s
  | false ↦ fgets_lines n (cur ++ c ∷ []) s
]

-- Each line with its newline.
unfoldable pub unlines : List Bytes → Bytes
unlines [] = []
unlines (l ∷ ls) = l ++ (newline ∷ unlines ls)

abbrev pub OneLine : Bytes → Type 0
OneLine s = All (λ c. c ≢ newline) s

fgets_lines-line :
    (n : ℕ) (cur l s : Bytes)
    → OneLine l
    → length cur + length l + 1 < n
    → fgets_lines n cur (l ++ (newline ∷ s)) ≡ (cur ++ (l ++ newline ∷ [])) ∷ fgets_lines n [] s
unfolding fgets_lines
fgets_lines-line n cur [] s h room = refl
fgets_lines-line n cur (c ∷ l) s h room =
    let go : (c == newline || leb n (length cur + 2)) ≡ false = ground (arith, h.0) in
    rw (go, fgets_lines)
      (fgets_lines-line n (cur ++ c ∷ []) l s h.1 (omega (arith, length-append cur (c ∷ [])))
        ∙ ap (λ x. x ∷ fgets_lines n [] s) (append_assoc cur (c ∷ []) (l ++ newline ∷ [])))

-- Lines that fit the buffer, with their newline and the NUL, are read back one by one.
pub fgets_lines-unlines :
    (n : ℕ) (ls : List Bytes)
    → All (λ l. OneLine l × (length l + 1 < n)) ls
    → fgets_lines n [] (unlines ls) ≡ map (λ l. l ++ newline ∷ []) ls
unfolding fgets_lines unlines
fgets_lines-unlines n [] h = refl
fgets_lines-unlines n (l ∷ ls) h =
    fgets_lines-line n [] l (unlines ls) h.0.0 (omega (arith, h.0.1))
    ∙ ap (λ r. (l ++ newline ∷ []) ∷ r) (fgets_lines-unlines n ls h.1)

-- Blank, tab, carriage return or newline.
abbrev pub is_blank : ℕ → Bool
is_blank c = c == 32 || (c == 9 || (c == 13 || c == 10))

unfoldable pub trim_front : Bytes → Bytes
trim_front [] = []
trim_front (c ∷ s) = if is_blank c then trim_front s else c ∷ s

unfoldable pub trim_back : Bytes → Bytes
trim_back [] = []
trim_back (c ∷ s) = let rest = trim_back s in if is_empty rest && is_blank c then [] else c ∷ rest

unfoldable pub trim : Bytes → Bytes
unfolding trim_front trim_back
trim s = trim_back (trim_front s)

-- The last byte is there and is no blank.
unfoldable pub ends_solid : Bytes → Bool
ends_solid [] = false
ends_solid (c ∷ []) = not (is_blank c)
ends_solid (c ∷ d ∷ s) = ends_solid (d ∷ s)

pub trim_back-newline : (s : Bytes) → trim_back (s ++ newline ∷ []) ≡ trim_back s
unfolding trim_back
trim_back-newline [] = refl
trim_back-newline (c ∷ s) = rw (trim_back-newline s) refl

pub trim_back_solid : (s : Bytes) → ends_solid s ≡ true → trim_back s ≡ s
unfolding trim_back ends_solid
trim_back_solid [] h = refl
trim_back_solid (c ∷ []) h = ground arith
trim_back_solid (c ∷ d ∷ s) h = ground (arith, trim_back_solid (d ∷ s) h)

-- A line that begins and ends with a solid byte is what remains of it and its newline.
pub trim_line :
    (c : ℕ) (s : Bytes)
    → is_blank c ≡ false
    → ends_solid (c ∷ s) ≡ true
    → trim (c ∷ (s ++ newline ∷ [])) ≡ c ∷ s
unfolding trim trim_front
trim_line c s solid ends = rw solid (trim_back-newline (c ∷ s) ∙ trim_back_solid (c ∷ s) ends)

-- A blank line.
pub trim_nil : trim (newline ∷ []) ≡ []
unfolding trim
trim_nil = refl

pub ends_solid-append : (a b : Bytes) → b ≢ [] → ends_solid (a ++ b) ≡ ends_solid b
unfolding ends_solid
ends_solid-append [] b ne = refl
ends_solid-append (c ∷ []) [] ne = absurd (ne refl)
ends_solid-append (c ∷ []) (d ∷ b) ne = refl
ends_solid-append (c ∷ d ∷ a) b ne = ends_solid-append (d ∷ a) b ne
