-- ===== src/Metaproto/Resolve.antt =====
-- Looking a protocol up, and checking a plugin's requirements, in bus/src/metaproto.c.
use hwrun_os_linux.Prelude.{
  ℕ, ◌≡◌, ◌↔◌, refl, true, List, [], ◌∷◌, Option, none, some, Bytes, find?, arith, All, ◌⊎◌, inl,
  inr, Bool-cases, sym, ◌∙◌, ap, ℤ, pos, negsuc, take, take_all, length,
}
use mathlib.Core.Bool.{false≢true}
use hwrun_os_linux.Errno.{ok, err, enoent}
use hwrun_os_linux.Metaproto.{
  Route, Registry, hw_metaproto_resolve, hw_metaproto_check_deps, first_missing, acceptable,
}
use hwrun_os_linux.Metaproto.Version.{hw_proto_version_compat}

-- A route that answers a request for a protocol, in the words of metaproto.h.
abbrev pub Answers : Bytes → Option Bytes → Route → Type 0
Answers p none r = r.protocol ≡ p
Answers p (some req) r =
    (r.protocol ≡ p) × ((req ≡ []) ⊎ (hw_proto_version_compat r.version req ≡ true))

acceptable_iff :
    (p : Bytes) (req : Option Bytes) (r : Route) → (acceptable p req r ≡ true) ↔ Answers p req r
unfolding acceptable
acceptable_iff p none r = ground arith
acceptable_iff p (some []) r = ground arith
acceptable_iff p (some (c ∷ req)) r = ground arith

-- The first route of a list that answers, and none before it does.
pub data FirstAnswer (p : Bytes) (req : Option Bytes) : List Route → Option Route → Type 0 where
  nothing : FirstAnswer p req [] none
  here : (r : Route) (rs : List Route) → Answers p req r → FirstAnswer p req (r ∷ rs) (some r)
  there :
      (r : Route) (rs : List Route) (found : Option Route)
      → ¬ Answers p req r
      → FirstAnswer p req rs found
      → FirstAnswer p req (r ∷ rs) found

find?-FirstAnswer :
    (p : Bytes) (req : Option Bytes) (rs : List Route)
    → FirstAnswer p req rs (find? (acceptable p req) rs)
unfolding find?
find?-FirstAnswer p req [] = nothing
find?-FirstAnswer p req (r ∷ rs) = elim (Bool-cases (acceptable p req r)) [
  | inl e ↦ rw e (here r rs ((acceptable_iff p req r).0 e))
  | inr e ↦ rw e (
      there r rs (find? (acceptable p req) rs)
        (λ a. false≢true (sym e ∙ (acceptable_iff p req r).1 a)) (find?-FirstAnswer p req rs))
]

-- `hw_metaproto_resolve` sets `*out` to the first route that answers the request, and returns
-- ENOENT, leaving it, exactly where no route answers.
pub resolve-FirstAnswer :
    (reg : Registry) (p : Bytes) (req : Option Bytes)
    → let out = hw_metaproto_resolve reg (some p) req in
      FirstAnswer p req reg.routes out.1
      × (out.0 ≡ (elim out.1 [ none ↦ err enoent | some _ ↦ ok ]))
unfolding hw_metaproto_resolve
resolve-FirstAnswer reg p req = ground (arith, find?-FirstAnswer p req reg.routes)

pub first_missing_lem :
    (reg : Registry) (ps : List Bytes)
    → (first_missing reg.routes ps ≡ none)
      ↔ All (λ p. (hw_metaproto_resolve reg (some p) none).0 ≡ ok) ps
unfolding hw_metaproto_resolve first_missing
first_missing_lem reg [] = (λ _. tt, λ _. refl)
first_missing_lem reg (p ∷ ps) = ground (arith, first_missing_lem reg ps)

-- The check of requirements passes exactly when the number of names is not negative and every one of
-- that many names on the list resolves.
pub check_deps_iff :
    (reg : Registry) (ps : List Bytes) (count : ℤ) (cap : ℕ)
    → ((hw_metaproto_check_deps reg (some ps) count cap).0 ≡ ok) ↔ (
        (n : ℕ) × (count ≡ pos n)
        × All (λ p. (hw_metaproto_resolve reg (some p) none).0 ≡ ok) (take n ps))
unfolding hw_metaproto_check_deps
check_deps_iff reg ps (negsuc k) cap =
    (λ h. absurd (ground arith), λ h. absurd (ground (arith, h.1)))
check_deps_iff reg ps (pos k) cap =
    let (to, back) = first_missing_lem reg (take k ps) in
    (λ h. (k, refl, to (ground arith)), λ (n, e, all). ground arith)

pub check_deps-All :
    (reg : Registry) (ps : List Bytes) (cap : ℕ)
    → (hw_metaproto_check_deps reg (some ps) (pos (length ps)) cap).0 ≡ ok
    → All (λ p. (hw_metaproto_resolve reg (some p) none).0 ≡ ok) ps
unfolding hw_metaproto_check_deps
check_deps-All reg ps cap h =
    let all = take_all (length ps) ps (omega arith) in
    (first_missing_lem reg ps).0 (ap (first_missing reg.routes) (sym all) ∙ ground arith)
