-- ===== src/Bus/Loader/Owned.antt =====
-- The routes that a plugin owns, and how the loader of bus/src/loader.c changes them.
use hwrun_os_linux.Prelude.{
  ℕ, ◌<◌, ◌≡◌, ◌≢◌, refl, Bool, not, List, [], ◌∷◌, Option, none, some, Bytes, str_eq, fit_all,
  length, find?, keep, drop_first, update_first, arith, All, Any, All-drop_first, ◌∙◌, inl, inr,
  Bool-cases, ◌⊎◌,
}
use hwrun_os_linux.Errno.{Errno, err}
use hwrun_os_linux.Metaproto.{
  Route, Registry, hw_metaproto_register, hw_metaproto_unregister, provided_by, new_route, replaced,
}
use hwrun_os_linux.Metaproto.Providers.{provider}
use hwrun_os_linux.Metaproto.Unique.{IsUnique, provider-drop_first}

abbrev is_foreign : Bytes → Route → Bool
is_foreign q r = not (str_eq r.plugin_id q)

-- The routes of the other plugins, in order.
abbrev pub foreign : Bytes → List Route → List Route
foreign q rs = keep (is_foreign q) rs

-- Every route of the plugin is for one of these protocols.
abbrev pub OwnsOnly : Bytes → List Bytes → List Route → Type 0
OwnsOnly q names rs = All (λ r. r.plugin_id ≡ q → Any (λ p. r.protocol ≡ p) names) rs

-- The plugin has no route.
abbrev pub OwnsNone : Bytes → List Route → Type 0
OwnsNone q rs = All (λ r. r.plugin_id ≢ q) rs

pub OwnsNone-foreign : (q : Bytes) (rs : List Route) → OwnsNone q rs → foreign q rs ≡ rs
unfolding keep
OwnsNone-foreign q [] h = refl
OwnsNone-foreign q (r ∷ rs) h = ground (arith, OwnsNone-foreign q rs h.1, h.0)

foreign-update_first :
    (p q : Bytes) (v : Option Bytes) (impl : ℕ) (rs : List Route)
    → foreign q (update_first (provided_by p q) (replaced v impl) rs) ≡ foreign q rs
unfolding keep update_first
foreign-update_first p q v impl [] = refl
foreign-update_first p q v impl (r ∷ rs) = ground (arith, foreign-update_first p q v impl rs)

foreign-drop_first :
    (p q : Bytes) (rs : List Route) → foreign q (drop_first (provided_by p q) rs) ≡ foreign q rs
unfolding keep drop_first
foreign-drop_first p q [] = refl
foreign-drop_first p q (r ∷ rs) = ground (arith, foreign-drop_first p q rs)

pub foreign-register :
    (alloc : Bool) (reg : Registry) (p q : Bytes) (v : Option Bytes) (impl : ℕ)
    → length q < 64
    → foreign q (hw_metaproto_register alloc reg (some p) v (some q) impl).0.routes
      ≡ foreign q reg.routes
unfolding hw_metaproto_register keep
foreign-register alloc reg p q v impl h =
    ground (arith, fit_all 64 q h, foreign-update_first p q v impl reg.routes)

pub foreign-unregister :
    (reg : Registry) (p q : Bytes)
    → foreign q (hw_metaproto_unregister reg (some p) (some q)).0.routes ≡ foreign q reg.routes
unfolding hw_metaproto_unregister
foreign-unregister reg p q = ground (arith, foreign-drop_first p q reg.routes)

OwnsOnly-update_first :
    (p q : Bytes) (v : Option Bytes) (impl : ℕ) (names : List Bytes) (rs : List Route)
    → OwnsOnly q names rs
    → OwnsOnly q names (update_first (provided_by p q) (replaced v impl) rs)
unfolding update_first
OwnsOnly-update_first p q v impl names [] h = tt
OwnsOnly-update_first p q v impl names (r ∷ rs) h = elim (Bool-cases (provided_by p q r)) [
  | inl e ↦ rw e h
  | inr e ↦ rw e (h.0, OwnsOnly-update_first p q v impl names rs h.1)
]

pub OwnsOnly-weaken :
    (p q : Bytes) (names : List Bytes) (rs : List Route)
    → OwnsOnly q names rs
    → OwnsOnly q (p ∷ names) rs
OwnsOnly-weaken p q names [] h = tt
OwnsOnly-weaken p q names (r ∷ rs) h = (λ e. inr (h.0 e), OwnsOnly-weaken p q names rs h.1)

-- What registering does to the table.
register_cases :
    (alloc : Bool) (reg : Registry) (p q : Bytes) (v : Option Bytes) (impl : ℕ)
    → let rs = (hw_metaproto_register alloc reg (some p) v (some q) impl).0.routes in
      (rs ≡ reg.routes)
      ⊎ ((rs ≡ update_first (provided_by p q) (replaced v impl) reg.routes)
          ⊎ (rs ≡ new_route p v q impl ∷ reg.routes))
unfolding hw_metaproto_register
register_cases alloc reg p q v impl = ground arith

-- A registration that fails leaves the registry alone.
pub register_failed :
    (alloc : Bool) (reg : Registry) (p q : Bytes) (v : Option Bytes) (impl : ℕ) (x : Errno)
    → (hw_metaproto_register alloc reg (some p) v (some q) impl).1 ≡ err x
    → (hw_metaproto_register alloc reg (some p) v (some q) impl).0 ≡ reg
unfolding hw_metaproto_register
register_failed alloc reg p q v impl x h = ground arith

pub OwnsOnly-register :
    (alloc : Bool) (reg : Registry) (p q : Bytes) (v : Option Bytes) (impl : ℕ) (names : List Bytes)
    → length p < 64
    → OwnsOnly q names reg.routes
    → OwnsOnly q (p ∷ names) (hw_metaproto_register alloc reg (some p) v (some q) impl).0.routes
OwnsOnly-register alloc reg p q v impl names hp h = elim (register_cases alloc reg p q v impl) [
  | inl e ↦ rw e (OwnsOnly-weaken p q names reg.routes h)
  | inr (inl e) ↦ rw e (
      OwnsOnly-weaken p q names (update_first (provided_by p q) (replaced v impl) reg.routes)
        (OwnsOnly-update_first p q v impl names reg.routes h))
  | inr (inr e) ↦ rw e (λ _. inl (fit_all 64 p hp), OwnsOnly-weaken p q names reg.routes h)
]

drop_first-none :
    (p q : Bytes) (rs : List Route)
    → find? (provided_by p q) rs ≡ none
    → drop_first (provided_by p q) rs ≡ rs
unfolding find? drop_first
drop_first-none p q [] h = refl
drop_first-none p q (r ∷ rs) h = ground (arith, drop_first-none p q rs)

unregister-routes :
    (reg : Registry) (p q : Bytes)
    → (hw_metaproto_unregister reg (some p) (some q)).0.routes
      ≡ drop_first (provided_by p q) reg.routes
unfolding hw_metaproto_unregister
unregister-routes reg p q = ground (arith, drop_first-none p q reg.routes)

-- Where the plugin does not provide `p`, its routes are for the other names.
OwnsOnly-strengthen :
    (p q : Bytes) (names : List Bytes) (rs : List Route)
    → provider rs p q ≡ none
    → OwnsOnly q (p ∷ names) rs
    → OwnsOnly q names rs
unfolding find?
OwnsOnly-strengthen p q names [] n h = tt
OwnsOnly-strengthen p q names (r ∷ rs) n h = (
  λ e. elim (h.0 e) [ inl f ↦ absurd (ground arith) | inr a ↦ a ],
  OwnsOnly-strengthen p q names rs (ground arith) h.1,
)

OwnsOnly-drop_first :
    (f : Route → Bool) (q : Bytes) (names : List Bytes) (rs : List Route)
    → OwnsOnly q names rs
    → OwnsOnly q names (drop_first f rs)
unfolding drop_first
OwnsOnly-drop_first f q names rs h = All-drop_first _ f rs h

-- Unregistering a name strikes it off.
pub OwnsOnly-unregister :
    (reg : Registry) (p q : Bytes) (names : List Bytes)
    → IsUnique reg.routes
    → OwnsOnly q (p ∷ names) reg.routes
    → OwnsOnly q names (hw_metaproto_unregister reg (some p) (some q)).0.routes
OwnsOnly-unregister reg p q names u h = rw (unregister-routes reg p q) (
    OwnsOnly-strengthen p q names (drop_first (provided_by p q) reg.routes)
      (provider-drop_first p q p q reg.routes u ∙ ground arith)
      (OwnsOnly-drop_first (provided_by p q) q (p ∷ names) reg.routes h))

pub OwnsOnly-none : (q : Bytes) (rs : List Route) → OwnsOnly q [] rs → OwnsNone q rs
OwnsOnly-none q [] h = tt
OwnsOnly-none q (r ∷ rs) h = (h.0, OwnsOnly-none q rs h.1)

pub OwnsNone-only :
    (q : Bytes) (names : List Bytes) (rs : List Route) → OwnsNone q rs → OwnsOnly q names rs
OwnsNone-only q names [] h = tt
OwnsNone-only q names (r ∷ rs) h = (λ e. absurd (h.0 e), OwnsNone-only q names rs h.1)
