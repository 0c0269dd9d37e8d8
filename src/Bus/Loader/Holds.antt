-- ===== src/Bus/Loader/Holds.antt =====
-- What the registry holds while the loader of bus/src/loader.c registers and unregisters a plugin's
-- protocols.
use hwrun_os_linux.Prelude.{
  ℕ, suc, ◌+◌, ◌<◌, ◌≡◌, refl, ap, sym, ◌∙◌, subst, Bool, List, [], ◌∷◌, ◌++◌, Option, none, some,
  Bytes, length, take, append-nil, arith, All, Any, inl, inr, Bool-cases, codes, ◌==◌, ◌⊎◌, ℤ, pos,
  sub_ℕ,
}
use hwrun_os_linux.Errno.{Rc, err, Rc-cases, Errno}
use hwrun_os_linux.Metaproto.{PluginState, Route, hw_metaproto_resolve, default_version}
use hwrun_os_linux.Metaproto.Unique.{IsValid, register-IsValid, unregister-IsValid}
use hwrun_os_linux.Bus.Loader.{
  Machine, bind_with, git_pointer, set_state, invoke, implementation_of, register_one,
  register_from, unregister_one, unregister_all, plugin_unregister_provides,
  hw_plugin_inject_runtime,
}
use hwrun_os_linux.Bus.Loader.Owned.{
  foreign, register_failed, OwnsOnly, OwnsNone-foreign, foreign-register, foreign-unregister,
  OwnsOnly-register, OwnsOnly-unregister, OwnsOnly-none, OwnsNone-only,
}

abbrev pub NamesFit : List Bytes → Type 0
NamesFit names = All (λ p. length p < 64) names

-- The plugin has the id `q` and provides `names`, the registry is valid, the plugin's routes are for `owned` only, and the other routes are `rest`.
pub record Holds {W : Type 0} (q : Bytes) (rest : List Route) (names : List Bytes)
    (owned : List Bytes) (m : Machine W) : Type 0 where
  pub valid : IsValid m.meta
  pub owns : OwnsOnly m.plugin.id owned m.meta.routes
  pub others : foreign m.plugin.id m.meta.routes ≡ rest
  pub id_fits : length m.plugin.id < 64
  pub provides : m.plugin.provides ≡ names
  pub is : m.plugin.id ≡ q

Any-middle :
    (P : Bytes → Type 0) (p : Bytes) (xs ys : List Bytes)
    → Any P (xs ++ p ∷ ys)
    → Any P (p ∷ xs ++ ys)
Any-middle P p [] ys a = a
Any-middle P p (x ∷ xs) ys (inl h) = inr (inl h)
Any-middle P p (x ∷ xs) ys (inr a) = elim (Any-middle P p xs ys a) [
  | inl h ↦ inl h
  | inr b ↦ inr (inr b)
]

OwnsOnly-middle :
    (q p : Bytes) (xs ys : List Bytes) (rs : List Route)
    → OwnsOnly q (xs ++ p ∷ ys) rs
    → OwnsOnly q (p ∷ xs ++ ys) rs
OwnsOnly-middle q p xs ys [] h = tt
OwnsOnly-middle q p xs ys (r ∷ rs) h =
    (λ e. Any-middle (λ x. r.protocol ≡ x) p xs ys (h.0 e), OwnsOnly-middle q p xs ys rs h.1)

-- How many of `names` got registered, as the loop's result tells it.
abbrev pub Told : ℕ → ℕ → List Bytes → ℤ → Type 0
Told n k names z = ((z ≡ pos (n + k)) × (k ≡ length names)) ⊎ (z ≡ sub_ℕ 0 (n + k))

Told-next :
    (n k : ℕ) (p : Bytes) (names : List Bytes) {z : ℤ}
    → Told (suc n) k names z
    → Told n (suc k) (p ∷ names) z
Told-next n k p names (inl (e, l)) =
    let s : suc n + k ≡ n + suc k = omega arith in inl (rw (← s) e, ap suc l)
Told-next n k p names (inr e) = let s : suc n + k ≡ n + suc k = omega arith in inr (rw (← s) e)

module _ {W : Type 0} (q : Bytes) (rest : List Route) (names : List Bytes) where
  pub set_state-Holds :
      (s : PluginState) (owned : List Bytes) (m : Machine W)
      → Holds q rest names owned m
      → Holds q rest names owned (set_state s m)
  set_state-Holds s owned m h = record {
    valid = h.valid;
    owns = h.owns;
    others = h.others;
    id_fits = h.id_fits;
    provides = h.provides;
    is = h.is;
  }

  pub invoke-Holds :
      (f : Option (W → Rc × W)) (owned : List Bytes) (m : Machine W)
      → Holds q rest names owned m
      → Holds q rest names owned (invoke f m).0
  unfolding invoke
  invoke-Holds none owned m h = h
  invoke-Holds (some f) owned m h = record {
    valid = h.valid;
    owns = h.owns;
    others = h.others;
    id_fits = h.id_fits;
    provides = h.provides;
    is = h.is;
  }

  register_one-Holds :
      (alloc : Bool) (p : Bytes) (owned : List Bytes) (m : Machine W)
      → length p < 64
      → Holds q rest names owned m
      → Holds q rest names (p ∷ owned) (register_one alloc p m).0
  unfolding register_one
  register_one-Holds alloc p owned m fits h = record {
    valid =
        register-IsValid alloc m.meta p m.plugin.id (some default_version)
          (implementation_of m.plugin p) fits h.id_fits h.valid;
    owns =
        OwnsOnly-register alloc m.meta p m.plugin.id (some default_version)
          (implementation_of m.plugin p) owned fits h.owns;
    others =
        foreign-register alloc m.meta p m.plugin.id (some default_version)
          (implementation_of m.plugin p) h.id_fits
        ∙ h.others;
    id_fits = h.id_fits;
    provides = h.provides;
    is = h.is;
  }

  pub unregister_one-Holds :
      (p : Bytes) (owned : List Bytes) (m : Machine W)
      → Holds q rest names (p ∷ owned) m
      → Holds q rest names owned (unregister_one p m)
  unfolding unregister_one
  unregister_one-Holds p owned m h = record {
    valid = unregister-IsValid m.meta (some p) (some m.plugin.id) h.valid;
    owns = OwnsOnly-unregister m.meta p m.plugin.id owned h.valid.unique h.owns;
    others = foreign-unregister m.meta p m.plugin.id ∙ h.others;
    id_fits = h.id_fits;
    provides = h.provides;
    is = h.is;
  }

  pub unregister_all-Holds :
      (some_names owned : List Bytes) (m : Machine W)
      → Holds q rest names (some_names ++ owned) m
      → Holds q rest names owned (unregister_all some_names m)
  unfolding unregister_all
  unregister_all-Holds [] owned m h = h
  unregister_all-Holds (p ∷ some_names) owned m h =
      unregister_all-Holds some_names owned (unregister_one p m)
        (unregister_one-Holds p (some_names ++ owned) m h)

  pub Holds-middle :
      (p : Bytes) (xs ys : List Bytes) (m : Machine W)
      → Holds q rest names (xs ++ p ∷ ys) m
      → Holds q rest names (p ∷ xs ++ ys) m
  Holds-middle p xs ys m h = record {
    valid = h.valid;
    owns = OwnsOnly-middle m.plugin.id p xs ys m.meta.routes h.owns;
    others = h.others;
    id_fits = h.id_fits;
    provides = h.provides;
    is = h.is;
  }

  register_one-failed :
      (alloc : Bool) (p : Bytes) (owned : List Bytes) (m : Machine W) (x : Errno)
      → (register_one alloc p m).1 ≡ err x
      → Holds q rest names owned m
      → Holds q rest names owned (register_one alloc p m).0
  unfolding register_one
  register_one-failed alloc p owned m x e h =
      let same =
        register_failed alloc m.meta p m.plugin.id (some default_version)
          (implementation_of m.plugin p) x e in
      record {
        valid = rw same h.valid;
        owns = rw same h.owns;
        others = rw same h.others;
        id_fits = h.id_fits;
        provides = h.provides;
        is = h.is;
      }

  pub register_from-Holds :
      (alloc : ℕ → Bool) (n : ℕ) (some_names owned : List Bytes) (m : Machine W)
      → NamesFit some_names
      → Holds q rest names owned m
      → let out = register_from alloc n some_names m in
        (k : ℕ) × Told n k some_names out.1 × Holds q rest names (take k some_names ++ owned) out.0
  unfolding register_from
  register_from-Holds alloc n [] owned m fits h = (0, inl (ground arith, refl), h)
  register_from-Holds alloc n (p ∷ some_names) owned m fits h =
      elim (Rc-cases (register_one (alloc n) p m).1) [
        | inl e ↦
            let m' = (register_one (alloc n) p m).0 in
            let h' = register_one-Holds (alloc n) p owned m fits.0 h in
            let (k, told, held) =
              register_from-Holds alloc (suc n) some_names (p ∷ owned) m' fits.1 h' in
            (
              suc k,
              rw (e, register_from) (Told-next n k p some_names told),
              rw (e, register_from)
                  (Holds-middle p (take k some_names) owned
                    (register_from alloc (suc n) some_names m').0 held),
            )
        | inr (x, e) ↦ (
          0,
          rw (e, register_from) (inr (ground arith)),
          rw (e, register_from) (register_one-failed (alloc n) p owned m x e h),
        )
      ]

  pub Holds-nothing : (m : Machine W) → Holds q rest names [] m → m.meta.routes ≡ rest
  Holds-nothing m h =
      sym (
        OwnsNone-foreign m.plugin.id m.meta.routes (OwnsOnly-none m.plugin.id m.meta.routes h.owns))
      ∙ h.others

  -- Taking all the plugin's protocols off the registry.
  pub unregister_all-rest :
      (m : Machine W) → Holds q rest names names m → (unregister_all names m).meta.routes ≡ rest
  unregister_all-rest m h =
      Holds-nothing (unregister_all names m)
        (unregister_all-Holds names [] m (rw (append-nil names) h))

  abbrev pub Registered : (ℕ → Bool) → Machine W → List Bytes → Type 0
  Registered alloc m ps =
      let out = register_from alloc 0 ps m in
      (k : ℕ) × Told 0 k names out.1 × Holds q rest names (take k names) out.0

  pub plugin_register_provides-Holds :
      (alloc : ℕ → Bool) (m : Machine W)
      → NamesFit names
      → Holds q rest names [] m
      → Registered alloc m m.plugin.provides
  plugin_register_provides-Holds alloc m fits h =
      let (k, told, held) = register_from-Holds alloc 0 names [] m fits h in
      subst (Registered alloc m) (sym h.provides) (k, told, rw append-nil at held)

  pub Holds-owned :
      (owned : List Bytes) (m : Machine W) → Holds q rest names [] m → Holds q rest names owned m
  Holds-owned owned m h = record {
    valid = h.valid;
    owns =
        OwnsNone-only m.plugin.id owned m.meta.routes
          (OwnsOnly-none m.plugin.id m.meta.routes h.owns);
    others = h.others;
    id_fits = h.id_fits;
    provides = h.provides;
    is = h.is;
  }

  -- Taking the first `k` protocols off again.
  pub rollback-rest :
      (k : ℕ) (m : Machine W)
      → Holds q rest names (take k names) m
      → (plugin_unregister_provides k m).meta.routes ≡ rest
  unfolding plugin_unregister_provides
  rollback-rest k m h =
      ap (λ ps. (unregister_all (take k ps) m).meta.routes) h.provides
      ∙ (Holds-nothing (unregister_all (take k names) m)
          (unregister_all-Holds (take k names) [] m (rw (append-nil (take k names)) h)))

  bind_with-Holds :
      (bind : Option (ℕ → W → W)) (git : ℕ) (owned : List Bytes) (m : Machine W)
      → Holds q rest names owned m
      → Holds q rest names owned (bind_with bind git m)
  unfolding bind_with
  bind_with-Holds none git owned m h = h
  bind_with-Holds (some bind) git owned m h = record {
    valid = h.valid;
    owns = h.owns;
    others = h.others;
    id_fits = h.id_fits;
    provides = h.provides;
    is = h.is;
  }

  pub inject-Holds :
      (owned : List Bytes) (m : Machine W)
      → Holds q rest names owned m
      → Holds q rest names owned (hw_plugin_inject_runtime m)
  unfolding hw_plugin_inject_runtime
  inject-Holds owned m h = elim (Bool-cases (m.plugin.handle == 0)) [
    | inl e ↦ rw (e, hw_plugin_inject_runtime) h
    | inr e ↦
        rw (e, hw_plugin_inject_runtime)
          (bind_with-Holds m.plugin.runtime_bind
            (git_pointer (hw_metaproto_resolve m.meta (some (codes "GIT")) none).1) owned m h)
  ]
