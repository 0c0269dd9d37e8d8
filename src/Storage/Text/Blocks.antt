-- ===== src/Storage/Text/Blocks.antt =====
-- The rounds of the loop of storage_load in storage/src/storage_impl.c on the blocks of a state file.
use hwrun_os_linux.Prelude.{
  ℕ, suc, ◌+◌, ◌≡◌, ◌≢◌, refl, sym, ◌∙◌, ap, subst, true, false, List, [], ◌∷◌, ◌++◌, map, Bytes,
  Bytes-discrete, length, is_empty, fit_all, ℤ, pos, arith, All, ◌⊎◌, inl, inr,
}
use hwrun_os_linux.Prelude.Lines.{newline}
use hwrun_os_linux.Prelude.Decimal.{decimal_int, strtoull-decimal, atoi, atoi-decimal}
use hwrun_os_linux.Storage.{Volume, Snapshot}
use hwrun_os_linux.Storage.Text.{
  rec_vol, rec_snap, Parse, volume_lines, snapshot_lines, all_volume_lines, all_snapshot_lines,
  commit, split_at, set_field, read_line, read_lines,
}
use hwrun_os_linux.Storage.Text.Printed.{IsStorable, IsKept, Line}

unfoldable pub reverse_onto : {A : Type 0} → List A → List A → List A
reverse_onto [] out = out
reverse_onto (x ∷ xs) out = reverse_onto xs (x ∷ out)

-- The rounds of the loop on trimmed lines.
unfoldable pub read_trimmed : Parse → List Bytes → Parse
read_trimmed p [] = p
read_trimmed p (l ∷ ls) = read_trimmed (read_line p l) ls

pub read_lines-trimmed :
    (ls : List Bytes) (p : Parse)
    → All Line ls
    → read_lines p (map (λ l. l ++ newline ∷ []) ls) ≡ read_trimmed p ls
unfolding read_lines read_trimmed
read_lines-trimmed [] p h = refl
read_lines-trimmed (l ∷ ls) p h =
    ap (λ x. read_lines (read_line p x) (map (λ l. l ++ newline ∷ []) ls)) h.0.1
    ∙ read_lines-trimmed ls (read_line p l) h.1

pub read_trimmed-append :
    (a b : List Bytes) (p : Parse) → read_trimmed p (a ++ b) ≡ read_trimmed (read_trimmed p a) b
unfolding read_trimmed
read_trimmed-append [] b p = refl
read_trimmed-append (l ∷ a) b p = read_trimmed-append a b (read_line p l)

has_bytes : (s : Bytes) → s ≢ [] → is_empty s ≡ false
has_bytes [] ne = absurd (ne refl)
has_bytes (c ∷ s) ne = refl

atoi-bit : (z : ℤ) → (z ≡ pos 0) ⊎ (z ≡ pos 1) → atoi (decimal_int z) ≡ z
atoi-bit z (inl e) = ap (λ x. atoi (decimal_int x)) e ∙ atoi-decimal 0 (omega arith) ∙ sym e
atoi-bit z (inr e) = ap (λ x. atoi (decimal_int x)) e ∙ atoi-decimal 1 (omega arith) ∙ sym e

volume_block :
    (v : Volume) (p : Parse)
    → IsStorable v
    → read_trimmed p (volume_lines v) ≡ record (commit p) { cur = rec_vol; v = v; have = true }
unfolding read_trimmed volume_lines read_line Bytes-discrete split_at set_field
volume_block v p h =
    rw
      (
        fit_all 40 v.id h.id.0.0,
        fit_all 128 v.name h.name.0.0,
        fit_all 512 v.path h.path.0.0,
        fit_all 256 v.description h.description.0,
        strtoull-decimal v.size_limit h.size_limit,
        strtoull-decimal v.created_at h.created_at,
        atoi-bit v.readonly h.readonly,
        has_bytes v.id h.id.1,
        has_bytes v.name h.name.1,
        has_bytes v.path h.path.1,
      )
      refl

snapshot_block :
    (s : Snapshot) (p : Parse)
    → IsKept s
    → read_trimmed p (snapshot_lines s) ≡ record (commit p) { cur = rec_snap; s = s; have = true }
unfolding read_trimmed snapshot_lines read_line Bytes-discrete split_at set_field
snapshot_block s p h =
    rw
      (
        fit_all 40 s.id h.id.0.0,
        fit_all 128 s.name h.name.0.0,
        fit_all 128 s.volume h.volume.0.0,
        fit_all 512 s.path h.path.0.0,
        strtoull-decimal s.created_at h.created_at,
        atoi-bit s.active h.active,
        has_bytes s.id h.id.1,
        has_bytes s.name h.name.1,
        has_bytes s.volume h.volume.1,
        has_bytes s.path h.path.1,
      )
      refl

-- What the loop has after it has taken up the block at hand.
abbrev pub Holds : Parse → List Volume → List Snapshot → ℕ → Type 0
Holds p vs ss left =
    ((commit p).volumes ≡ vs) × ((commit p).snapshots ≡ ss) × ((commit p).left ≡ left)

pub read_volumes :
    (vs : List Volume) (p : Parse) (us : List Volume) (ss : List Snapshot) (left : ℕ)
    → All IsStorable vs
    → Holds p us ss (length vs + left)
    → Holds (read_trimmed p (all_volume_lines vs)) (reverse_onto vs us) ss left
unfolding all_volume_lines read_trimmed reverse_onto Holds commit
read_volumes [] p us ss left h e = (e.0, e.1, omega (arith, e.2))
read_volumes (v ∷ vs) p us ss left h e =
    subst (λ x. Holds x (reverse_onto vs (v ∷ us)) ss left)
      (sym (read_trimmed-append (volume_lines v) (all_volume_lines vs) p))
      (read_volumes vs (read_trimmed p (volume_lines v)) (v ∷ us) ss left h.1 (
        let one_more : (commit p).left ≡ suc (length vs + left) = omega (arith, e.2) in
        rw (volume_block v p h.0, e.0, e.1, one_more) (refl, refl, refl)))

pub read_snapshots :
    (ss : List Snapshot) (p : Parse) (vs : List Volume) (us : List Snapshot) (left : ℕ)
    → All IsKept ss
    → Holds p vs us (length ss + left)
    → Holds (read_trimmed p (all_snapshot_lines ss)) vs (reverse_onto ss us) left
unfolding all_snapshot_lines read_trimmed reverse_onto Holds commit
read_snapshots [] p vs us left h e = (e.0, e.1, omega (arith, e.2))
read_snapshots (s ∷ ss) p vs us left h e =
    subst (λ x. Holds x vs (reverse_onto ss (s ∷ us)) left)
      (sym (read_trimmed-append (snapshot_lines s) (all_snapshot_lines ss) p))
      (read_snapshots ss (read_trimmed p (snapshot_lines s)) vs (s ∷ us) left h.1 (
        let one_more : (commit p).left ≡ suc (length ss + left) = omega (arith, e.2) in
        rw (snapshot_block s p h.0, e.0, e.1, one_more) (refl, refl, refl)))
