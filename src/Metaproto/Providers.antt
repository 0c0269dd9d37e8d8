-- ===== src/Metaproto/Providers.antt =====
-- The registry of bus/src/metaproto.c as a map from (protocol, plugin) to a route.
use mathlib.Core.Option
use hwrun_os_linux.Prelude.{
  ℕ, ◌<◌, ◌≡◌, refl, ap, Bool, true, ◌&&◌, map, Bool-cases, inl, inr, List, [], ◌∷◌, Option, none,
  some, Bytes, str_eq, fit_all, length, find?, update_first, if◌then◌else◌, arith,
}
use hwrun_os_linux.Errno.{ok}
use hwrun_os_linux.Metaproto.{
  Route, Registry, hw_metaproto_register, provided_by, new_route, replaced,
}

-- The route that a plugin provides a protocol by.
abbrev pub provider : List Route → Bytes → Bytes → Option Route
provider routes p q = find? (provided_by p q) routes

pub provider-update_first :
    (p q p' q' : Bytes) (v : Option Bytes) (impl : ℕ) (rs : List Route)
    → provider (update_first (provided_by p q) (replaced v impl) rs) p' q' ≡ (
        if str_eq p p' && str_eq q q'
        then Option.map (replaced v impl) (provider rs p q)
        else provider rs p' q')
unfolding find? update_first
provider-update_first p q p' q' v impl [] = ground arith
provider-update_first p q p' q' v impl (x ∷ rs) =
    ground (arith, provider-update_first p q p' q' v impl rs)

-- What a route is found by.
abbrev pub key : Route → Bytes × Bytes
key r = (r.protocol, r.plugin_id)

update_first-keys :
    (test : Route → Bool) (v : Option Bytes) (impl : ℕ) (rs : List Route)
    → map key (update_first test (replaced v impl) rs) ≡ map key rs
unfolding update_first
update_first-keys test v impl [] = refl
update_first-keys test v impl (x ∷ rs) = elim (Bool-cases (test x)) [
  | inl e ↦ rw e refl
  | inr e ↦ rw e (ap (λ ks. key x ∷ ks) (update_first-keys test v impl rs))
]

-- Registering a protocol under names that fit their fields makes the plugin's route for it the new
-- one: a route that was there keeps its place and gets the implementation and the version, if one
-- is given, and otherwise the new route goes to the front. The sequence of pairs of protocol and plugin
-- is otherwise what it was, and so is the first route of every other pair.
pub provider-register :
    (reg : Registry) (p q p' q' : Bytes) (v : Option Bytes) (impl : ℕ)
    → reg.initialized ≡ true
    → length p < 64
    → length q < 64
    → let out = hw_metaproto_register true reg (some p) v (some q) impl in
      (out.1 ≡ ok)
      × (map key out.0.routes ≡ (elim (provider reg.routes p q) [
        | some r ↦ map key reg.routes
        | none ↦ (p, q) ∷ map key reg.routes
      ]))
      × (provider out.0.routes p' q' ≡ (
          if str_eq p p' && str_eq q q'
          then elim (provider reg.routes p q) [
            | some r ↦ some (replaced v impl r)
            | none ↦ some (new_route p v q impl)
          ]
          else provider reg.routes p' q'))
unfolding hw_metaproto_register find?
provider-register reg p q p' q' v impl up hp hq = ground (
  arith,
  fit_all 64 p hp,
  fit_all 64 q hq,
  provider-update_first p q p' q' v impl reg.routes,
  update_first-keys (provided_by p q) v impl reg.routes,
)
