-- ===== src/Samples/Paths.antt =====
-- Runs of fsp/src/fsp_path.c, of the parameter tree and of the fields of an audit line.
use hwrun_os_linux.Prelude.{
  ◌<◌, ◌≡◌, ◌≢◌, ◌⊎◌, inr, refl, ap, List, [], ◌∷◌, none, some, Bytes, codes, length, is_empty, fit,
  arith, Bytes-discrete, if◌then◌else◌, pos, negsuc, ◌↔◌, true, false,
}
use hwrun_os_linux.Errno.{Errno, ok, err, enomem}
use hwrun_os_linux.Fsp.Path.{path, add_byte, fsp_path_normalize, fsp_path_join, fsp_path_parent}
use hwrun_os_linux.Fsp.Path.Render.{render}
use hwrun_os_linux.Fsp.Path.Canonical.{IsName, IsCanonical, normalize-IsCanonical}
use hwrun_os_linux.Fsp.Path.Join.{normalize-canonical, join-render}
use hwrun_os_linux.Fsp.Path.Parent.{parent-join}
use hwrun_os_linux.Param.{leaf, hw_param_set, hw_param_get, heads}
use hwrun_os_linux.Param.Tree.{get-set, get-set_other}
use hwrun_os_linux.Audit.Query.{Event, Query, Selects, event_matches, event_matches_iff}

abbrev home : Errno ⊎ Bytes
home = inr (codes "/home")

dots_removed : fsp_path_normalize home (some (codes "a/./../b//c")) 64 ≡ path (codes "/home/b/c")
unfolding fsp_path_normalize Bytes-discrete add_byte
dots_removed = refl

normalize-IsCanonical_example : IsCanonical (codes "/home/b/c") × (length (codes "/home/b/c") < 64)
normalize-IsCanonical_example =
    normalize-IsCanonical home (some (codes "a/./../b//c")) 64 (codes "/home/b/c") dots_removed

home-IsName : IsName (codes "home")
home-IsName = (
  (
    (λ e. cc),
    (
      ((λ e. omega arith), ((λ e. omega arith), ((λ e. omega arith), ((λ e. omega arith), tt)))),
      omega arith,
    ),
  ),
  ((λ e. cc), (λ e. cc)),
)

normalize-canonical_example :
    fsp_path_normalize home (some (codes "/home")) 64 ≡ path (codes "/home")
normalize-canonical_example =
    normalize-canonical home 64 (codes "/home")
      (record {
        stack = codes "home" ∷ [];
        names = (home-IsName, tt);
        depth = omega arith;
        text = refl;
      })
      (omega arith)

join-render_example :
    fsp_path_join home 64 (some (render (codes "home" ∷ []))) (some (codes "home"))
    ≡ path (render (codes "home" ∷ codes "home" ∷ []))
join-render_example =
    join-render home 64 (codes "home" ∷ []) (codes "home") (home-IsName, tt) home-IsName
      (omega arith) (omega arith) (omega arith)

parent-join_example :
    fsp_path_parent home (some (render (codes "home" ∷ codes "home" ∷ []))) 64
    ≡ path (fit 64 (render (codes "home" ∷ [])))
parent-join_example =
    parent-join home 64 (codes "home" ∷ []) (codes "home") (home-IsName, tt) home-IsName
      (omega arith) (omega arith) (omega arith)

set_done : (hw_param_set 2 leaf (some (codes "a.b")) (some (codes "1")) 0 none).1 ≡ ok
unfolding hw_param_set heads
set_done = refl

get-set_example :
    hw_param_get
      (hw_param_set 2 leaf (some (codes "a.b")) (some (codes "1")) 0 none).0
      (some (codes "a.b"))
    ≡ (if is_empty (fit 256 (codes "1")) then none else some (fit 256 (codes "1")))
get-set_example = get-set 2 leaf (codes "a.b") (codes "1") 0 none set_done

longer : (a b : List Bytes) → length a ≡ 1 → length b ≡ 2 → a ≢ b
longer a b p q e = let same = ap length e in absurd (omega arith)

other_heads : heads [] (codes "x") ≢ heads [] (codes "a.b")
unfolding heads
other_heads = longer (heads [] (codes "x")) (heads [] (codes "a.b")) refl refl

get-set_other_example :
    hw_param_get
      (hw_param_set 2 leaf (some (codes "a.b")) (some (codes "1")) 0 none).0
      (some (codes "x"))
    ≡ hw_param_get leaf (some (codes "x"))
get-set_other_example =
    get-set_other 2 leaf (codes "a.b") (codes "x") (some (codes "1")) 0 none other_heads

-- One node too few.
set_full : (hw_param_set 1 leaf (some (codes "a.b")) (some (codes "1")) 0 none).1 ≡ err enomem
unfolding hw_param_set heads
set_full = refl

-- A login that failed, at second 100.
abbrev login : Event
login = record {
  seq = 1;
  ts = pos 100;
  result = negsuc 12;
  subject = codes "alice";
  action = codes "login";
  target = [];
  detail = [];
}

-- The events of alice since second 50.
abbrev query : Query
query = record {
  start_ts = pos 50;
  end_ts = pos 0;
  subject = codes "alice";
  action = [];
  result = pos 0;
  result_set = false;
  order = 0;
  limit = 0;
}

event_matches_iff_example : (event_matches login (some query) ≡ true) ↔ Selects query login
event_matches_iff_example = event_matches_iff login query
