-- ===== src/Permission/Glob.antt =====
-- `glob_match` of permission/src/permission_impl.c, and what it means for a text to match.
use hwrun_os_linux.Prelude.{
  ℕ, ◌≡◌, ◌≢◌, ◌↔◌, refl, ap, Bool, true, false, ◌||◌, [], ◌∷◌, ◌++◌, Bytes, is_empty, ◌==◌,
  if◌then◌else◌, Bool-cases, inl, inr, ◌⊎◌, arith,
}

-- Some suffix of the text passes, the empty one included.
unfoldable pub any_suffix : (Bytes → Bool) → Bytes → Bool
any_suffix next [] = next []
any_suffix next (x ∷ s) = if next (x ∷ s) then true else any_suffix next s

one_char : ℕ → (Bytes → Bool) → Bytes → Bool
one_char c next [] = false
one_char c next (x ∷ s) = if c == b'?' || c == x then next s else false

unfoldable pub glob_match : Bytes → Bytes → Bool
unfolding any_suffix one_char
glob_match [] s = is_empty s
glob_match (c ∷ pat) s =
    if c == b'*' then any_suffix (glob_match pat) s else one_char c (glob_match pat) s

-- '*' stands for any text and '?' for any byte; any other byte stands for itself.
pub data Matches : Bytes → Bytes → Type 0 where
  empty : Matches [] []
  star :
      {c : ℕ} {pat : Bytes} (skipped rest : Bytes) {s : Bytes}
      → c ≡ b'*'
      → s ≡ skipped ++ rest
      → Matches pat rest
      → Matches (c ∷ pat) s
  byte :
      {c x : ℕ} {pat s : Bytes}
      → c ≢ b'*'
      → (c ≡ b'?') ⊎ (c ≡ x)
      → Matches pat s
      → Matches (c ∷ pat) (x ∷ s)

any_suffix_sound :
    (next : Bytes → Bool) (s : Bytes)
    → any_suffix next s ≡ true
    → (x : Bytes) × (y : Bytes) × (s ≡ x ++ y) × (next y ≡ true)
unfolding any_suffix
any_suffix_sound next [] h = ([], [], refl, h)
any_suffix_sound next (c ∷ s) h = elim (Bool-cases (next (c ∷ s))) [
  | inl e ↦ ([], c ∷ s, refl, e)
  | inr e ↦ let (x, y, p, q) = any_suffix_sound next s (rw e at h) in (c ∷ x, y, ap (◌∷◌ c) p, q)
]

any_suffix_complete :
    (next : Bytes → Bool) (x y : Bytes) → next y ≡ true → any_suffix next (x ++ y) ≡ true
unfolding any_suffix
any_suffix_complete next [] [] h = h
any_suffix_complete next [] (c ∷ y) h = rw h
any_suffix_complete next (c ∷ x) y h = ground (arith, any_suffix_complete next x y h)

one_char-test :
    (c x : ℕ) (found : Bool)
    → (if c == b'?' || c == x then found else false) ≡ true
    → (c ≡ b'?') ⊎ (c ≡ x)
one_char-test c x found h = grind arith

one_char_sound :
    (c : ℕ) (pat s : Bytes)
    → (c == b'*') ≡ false
    → one_char c (glob_match pat) s ≡ true
    → ((t : Bytes) → glob_match pat t ≡ true → Matches pat t)
    → Matches (c ∷ pat) s
unfolding one_char
one_char_sound c pat [] e h sound = absurd (ground arith)
one_char_sound c pat (x ∷ s) e h sound =
    byte (ground arith) (one_char-test c x (glob_match pat s) h) (sound s (ground arith))

glob_match_sound : (pat s : Bytes) → glob_match pat s ≡ true → Matches pat s
unfolding glob_match one_char
glob_match_sound [] [] h = empty
glob_match_sound [] (x ∷ s) h = absurd (ground arith)
glob_match_sound (c ∷ pat) s h = elim (Bool-cases (c == b'*')) [
  | inl e ↦
      let (x, y, p, q) = any_suffix_sound (glob_match pat) s (rw e at h) in
      star x y (ground arith) p (glob_match_sound pat y q)
  | inr e ↦ one_char_sound c pat s e (rw e at h) (glob_match_sound pat)
]

glob_match_complete : {pat s : Bytes} → Matches pat s → glob_match pat s ≡ true
unfolding glob_match
glob_match_complete empty = refl
glob_match_complete {pat = c ∷ pat} (star x y e p m) =
    rw p (ground (arith, any_suffix_complete (glob_match pat) x y (glob_match_complete m)))
glob_match_complete (byte n e m) = ground (arith, glob_match_complete m)

-- The matcher returns true exactly on the texts that the pattern stands for.
pub glob_match_iff : (pat s : Bytes) → (glob_match pat s ≡ true) ↔ Matches pat s
glob_match_iff pat s = (glob_match_sound pat s, glob_match_complete)
