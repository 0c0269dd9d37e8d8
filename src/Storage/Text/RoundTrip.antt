-- ===== src/Storage/Text/RoundTrip.antt =====
-- What storage_load of storage/src/storage_impl.c reads from the file that storage_persist wrote.
use hwrun_os_linux.Prelude.{ℕ, ◌+◌, ◌≡◌, refl, sym, ◌∙◌, ap, ap₂, subst, List, [], length, All}
use hwrun_os_linux.Prelude.Lines.{fgets_lines-unlines}
use hwrun_os_linux.Storage.{Volume, Snapshot}
use hwrun_os_linux.Storage.Text.{
  Parse, all_volume_lines, all_snapshot_lines, state_lines, state_text, commit, read_line,
  read_lines, load_text, before,
}
use hwrun_os_linux.Storage.Text.Printed.{IsStorable, IsKept, state_lines-Line, lines_fit}
use hwrun_os_linux.Storage.Text.Blocks.{
  Holds, read_trimmed, read_trimmed-append, reverse_onto, read_lines-trimmed, read_volumes,
  read_snapshots,
}

-- The comments change nothing.
read_state_lines :
    (p : Parse) (vs : List Volume) (ss : List Snapshot)
    → read_trimmed p (state_lines vs ss)
      ≡ read_trimmed (read_trimmed p (all_volume_lines vs)) (all_snapshot_lines ss)
unfolding read_trimmed state_lines read_line
read_state_lines p vs ss = read_trimmed-append (all_volume_lines vs) (all_snapshot_lines ss) p

-- Where there is memory for the records, a context without any that loads the text that is written
-- for lists of volumes and snapshots gets these very records, each list in reverse order. The fields
-- of the records fit their buffers, are one line each, do not end in a blank, are not empty but for
-- the description, and hold numbers of 64 bits and flags of 0 or 1.
pub load_text-state_text :
    (left : ℕ) (vs : List Volume) (ss : List Snapshot)
    → All IsStorable vs
    → All IsKept ss
    → load_text (length vs + (length ss + left)) (state_text vs ss)
      ≡ (reverse_onto vs [], reverse_onto ss [])
unfolding load_text state_text Holds
load_text-state_text left vs ss hv hs =
    let total = length vs + (length ss + left) in
    let p = before total in
    let got : Holds (read_trimmed p (state_lines vs ss)) (reverse_onto vs []) (reverse_onto ss [])
        left =
      subst (λ x. Holds x (reverse_onto vs []) (reverse_onto ss []) left)
        (sym (read_state_lines p vs ss))
        (read_snapshots ss (read_trimmed p (all_volume_lines vs)) (reverse_onto vs []) [] left hs
          (read_volumes vs p [] [] (length ss + left) hv (refl, refl, refl))) in
    let lines = state_lines-Line vs ss hv hs in
    ap (λ x. let q = commit (read_lines p x) in (q.volumes, q.snapshots))
      (fgets_lines-unlines 2048 (state_lines vs ss) (lines_fit (state_lines vs ss) lines))
    ∙ ap (λ q. ((commit q).volumes, (commit q).snapshots))
        (read_lines-trimmed (state_lines vs ss) p lines)
    ∙ ap₂ (λ a b. (a, b)) got.0 got.1
