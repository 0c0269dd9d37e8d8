-- ===== src/Metaproto/Unique.antt =====
-- The invariant of the route table of bus/src/metaproto.c.
use hwrun_os_linux.Prelude.{
  ℕ, ◌<◌, ◌≡◌, refl, Bool, ◌&&◌, List, [], ◌∷◌, Option, none, some, Bytes, str_eq, fit_all, length,
  find?, drop_first, update_first, if◌then◌else◌, arith, All, All-drop_first,
}
use hwrun_os_linux.Errno.{ok, err, enoent}
use hwrun_os_linux.Metaproto.{
  Route, Registry, hw_metaproto_register, hw_metaproto_unregister, provided_by, removable, replaced,
}
use hwrun_os_linux.Metaproto.Providers.{provider, provider-update_first}

abbrev pub IsUnique : List Route → Type 0
IsUnique [] = Unit
IsUnique (r ∷ rs) = (provider rs r.protocol r.plugin_id ≡ none) × IsUnique rs

-- The names of a route end within their fields.
abbrev pub Fits : Route → Type 0
Fits r = (length r.protocol < 64) × (length r.plugin_id < 64)

pub record IsValid (reg : Registry) : Type 0 where
  pub unique : IsUnique reg.routes
  pub fits : All Fits reg.routes

update_first-IsUnique :
    (p q : Bytes) (v : Option Bytes) (impl : ℕ) (rs : List Route)
    → IsUnique rs
    → IsUnique (update_first (provided_by p q) (replaced v impl) rs)
unfolding update_first
update_first-IsUnique p q v impl [] u = tt
update_first-IsUnique p q v impl (x ∷ rs) u = ground (
  arith,
  update_first-IsUnique p q v impl rs u.1,
  provider-update_first p q x.protocol x.plugin_id v impl rs,
)

update_first-Fits :
    (p q : Bytes) (v : Option Bytes) (impl : ℕ) (rs : List Route)
    → All Fits rs
    → All Fits (update_first (provided_by p q) (replaced v impl) rs)
unfolding update_first
update_first-Fits p q v impl [] u = tt
update_first-Fits p q v impl (x ∷ rs) u = ground (arith, update_first-Fits p q v impl rs u.1)

pub provider-drop_first-none :
    (f : Route → Bool) (p q : Bytes) (rs : List Route)
    → provider rs p q ≡ none
    → provider (drop_first f rs) p q ≡ none
unfolding find? drop_first
provider-drop_first-none f p q [] h = refl
provider-drop_first-none f p q (x ∷ rs) h = ground (arith, provider-drop_first-none f p q rs)

drop_first-IsUnique :
    (f : Route → Bool) (rs : List Route) → IsUnique rs → IsUnique (drop_first f rs)
unfolding drop_first
drop_first-IsUnique f [] u = tt
drop_first-IsUnique f (x ∷ rs) u =
    ground (
      arith,
      drop_first-IsUnique f rs u.1,
      provider-drop_first-none f x.protocol x.plugin_id rs u.0,
    )

pub provider-drop_first :
    (p q p' q' : Bytes) (rs : List Route)
    → IsUnique rs
    → provider (drop_first (provided_by p q) rs) p' q'
      ≡ (if str_eq p p' && str_eq q q' then none else provider rs p' q')
unfolding find? drop_first
provider-drop_first p q p' q' [] u = ground arith
provider-drop_first p q p' q' (x ∷ rs) u = ground (arith, provider-drop_first p q p' q' rs u.1)

-- Registering a protocol and a plugin whose names fit their fields keeps a valid registry valid,
-- whether or not memory is found.
pub register-IsValid :
    (alloc : Bool) (reg : Registry) (p q : Bytes) (v : Option Bytes) (impl : ℕ)
    → length p < 64
    → length q < 64
    → IsValid reg
    → IsValid (hw_metaproto_register alloc reg (some p) v (some q) impl).0
unfolding hw_metaproto_register
register-IsValid alloc reg p q v impl hp hq w = ground (
  arith,
  fit_all 64 p hp,
  fit_all 64 q hq,
  update_first-IsUnique p q v impl reg.routes,
  update_first-Fits p q v impl reg.routes,
)

-- Removing a route keeps the registry valid, for a named plugin and for any.
pub unregister-IsValid :
    (reg : Registry) (p q : Option Bytes)
    → IsValid reg
    → IsValid (hw_metaproto_unregister reg p q).0
unfolding hw_metaproto_unregister
unregister-IsValid reg none q w = w
unregister-IsValid reg (some p) q w = ground (
  arith,
  drop_first-IsUnique (removable p q) reg.routes,
  All-drop_first Fits (removable p q) reg.routes w.fits,
)

-- In a valid registry, unregistering a plugin's protocol fails with ENOENT exactly where the plugin
-- does not provide it; afterwards it does not, and every other pair is provided as before.
pub provider-unregister :
    (reg : Registry) (p q p' q' : Bytes)
    → IsValid reg
    → let out = hw_metaproto_unregister reg (some p) (some q) in
      (out.1 ≡ (elim (provider reg.routes p q) [ none ↦ err enoent | some _ ↦ ok ]))
      × (provider out.0.routes p' q'
          ≡ (if str_eq p p' && str_eq q q' then none else provider reg.routes p' q'))
unfolding hw_metaproto_unregister
provider-unregister reg p q p' q' w =
    ground (arith, provider-drop_first p q p' q' reg.routes w.unique)
