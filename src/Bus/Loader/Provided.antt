-- ===== src/Bus/Loader/Provided.antt =====
-- The protocols of a plugin on the registry, after the loop of bus/src/loader.c.
use hwrun_os_linux.Prelude.{
  ℕ, suc, ◌<◌, ◌≡◌, ◌≢◌, refl, sym, subst, ◌∙◌, Bool, true, false, List, [], ◌∷◌, Option, none,
  some, Bytes, length, arith, All, inl, inr, ℤ, pos, negsuc,
}
use hwrun_os_linux.Errno.{Rc, ok, Rc-cases}
use hwrun_os_linux.Metaproto.{started, Route, Registry, hw_metaproto_register, default_version}
use hwrun_os_linux.Metaproto.Providers.{provider, provider-register}
use hwrun_os_linux.Bus.Loader.{
  Machine, invoke, implementation_of, register_one, register_from, plugin_register_provides,
  run_start, run_provides,
}
use hwrun_os_linux.Bus.Loader.Holds.{NamesFit}

abbrev pub AllProvided : List Route → Bytes → List Bytes → Type 0
AllProvided rs q names = All (λ p. provider rs p q ≢ none) names

-- A registry in use, on which the plugin provides `names`.
pub record Provides {W : Type 0} (names : List Bytes) (m : Machine W) : Type 0 where
  pub up : m.meta.initialized ≡ true
  pub fits : length m.plugin.id < 64
  pub all : AllProvided m.meta.routes m.plugin.id names

register-initialized :
    (alloc : Bool) (reg : Registry) (p q v : Option Bytes) (impl : ℕ)
    → (hw_metaproto_register alloc reg p v q impl).0.initialized ≡ reg.initialized
unfolding hw_metaproto_register
register-initialized alloc reg none q v impl = refl
register-initialized alloc reg (some p) none v impl = refl
register-initialized alloc reg (some p) (some q) v impl = ground arith

register-AllProvided :
    (reg : Registry) (p q : Bytes) (v : Option Bytes) (impl : ℕ) (names : List Bytes)
    → reg.initialized ≡ true
    → length p < 64
    → length q < 64
    → AllProvided reg.routes q names
    → AllProvided (hw_metaproto_register true reg (some p) v (some q) impl).0.routes q names
register-AllProvided reg p q v impl [] up hp hq all = tt
register-AllProvided reg p q v impl (x ∷ names) up hp hq all = (
  ground (arith, provider-register reg p q x q v impl up hp hq, all.0),
  register-AllProvided reg p q v impl names up hp hq all.1,
)

-- Where a registration succeeds, it does what it does with memory at hand.
register_ok :
    (alloc : Bool) (reg : Registry) (p q : Bytes) (v : Option Bytes) (impl : ℕ)
    → (hw_metaproto_register alloc reg (some p) v (some q) impl).1 ≡ ok
    → (hw_metaproto_register alloc reg (some p) v (some q) impl).0
      ≡ (hw_metaproto_register true reg (some p) v (some q) impl).0
unfolding hw_metaproto_register
register_ok true reg p q v impl h = refl
register_ok false reg p q v impl h = ground arith

module _ {W : Type 0} where
  register_one-Provides :
      (alloc : Bool) (p : Bytes) (names : List Bytes) (m : Machine W)
      → length p < 64
      → (register_one alloc p m).1 ≡ ok
      → Provides names m
      → Provides (p ∷ names) (register_one alloc p m).0
  unfolding register_one
  register_one-Provides alloc p names m hp good h =
      let impl = implementation_of m.plugin p in
      let v : Option Bytes = some default_version in
      let same = register_ok alloc m.meta p m.plugin.id v impl good in
      record {
        up = register-initialized alloc m.meta (some p) (some m.plugin.id) v impl ∙ h.up;
        fits = h.fits;
        all =
            subst (λ reg. AllProvided reg.routes m.plugin.id (p ∷ names)) (sym same)
              (
                ground (
                  arith,
                  provider-register m.meta p m.plugin.id p m.plugin.id v impl h.up hp h.fits,
                ),
                register-AllProvided m.meta p m.plugin.id v impl names h.up hp h.fits h.all,
              );
      }

  register_one-true :
      (p : Bytes) (names : List Bytes) (m : Machine W)
      → length p < 64
      → Provides names m
      → (register_one true p m).1 ≡ ok
  unfolding register_one
  register_one-true p names m hp h =
      (provider-register m.meta p m.plugin.id p m.plugin.id (some default_version)
        (implementation_of m.plugin p) h.up hp h.fits).0

  register_from-plugin :
      (alloc : ℕ → Bool) (n : ℕ) (names : List Bytes) (m : Machine W)
      → (register_from alloc n names m).0.plugin ≡ m.plugin
  unfolding register_from
  register_from-plugin alloc n [] m = refl
  register_from-plugin alloc n (p ∷ names) m = elim (Rc-cases (register_one (alloc n) p m).1) [
    | inl e ↦
        rw (e, register_from)
          (register_from-plugin alloc (suc n) names (register_one (alloc n) p m).0)
    | inr (x, e) ↦ rw (e, register_from)
  ]

  register_from-ok :
      (alloc : ℕ → Bool) (n : ℕ) (p : Bytes) (names : List Bytes) (m : Machine W)
      → (register_one (alloc n) p m).1 ≡ ok
      → register_from alloc (suc n) names (register_one (alloc n) p m).0
        ≡ register_from alloc n (p ∷ names) m
  unfolding register_from
  register_from-ok alloc n p names m o = rw (o, register_from)

  -- A result that is not negative, from the second registration on.
  register_from-Provides :
      (alloc : ℕ → Bool) (n a : ℕ) (names done : List Bytes) (m : Machine W)
      → NamesFit names
      → Provides done m
      → (register_from alloc (suc n) names m).1 ≡ pos a
      → let rs = (register_from alloc (suc n) names m).0.meta.routes in
        AllProvided rs m.plugin.id names × AllProvided rs m.plugin.id done
  unfolding register_from
  register_from-Provides alloc n a [] done m fits h e = (tt, h.all)
  register_from-Provides alloc n a (p ∷ names) done m fits h e =
      elim (Rc-cases (register_one (alloc (suc n)) p m).1) [
        | inl o ↦
            let m' = (register_one (alloc (suc n)) p m).0 in
            let h' = register_one-Provides (alloc (suc n)) p done m fits.0 o h in
            let (a', d) =
              register_from-Provides alloc (suc n) a names (p ∷ done) m' fits.1 h'
                (rw (o, register_from) at e) in
            subst
              (λ out.
                AllProvided out.0.meta.routes m.plugin.id (p ∷ names)
                × AllProvided out.0.meta.routes m.plugin.id done)
              (register_from-ok alloc (suc n) p names m o) ((d.0, a'), d.1)
        | inr (x, o) ↦ absurd (ground arith)
      ]

  -- The loop over all the protocols, where the first finds memory.
  Provides-loop :
      (alloc : ℕ → Bool) (a : ℕ) (names : List Bytes) (m : Machine W)
      → alloc 0 ≡ true
      → NamesFit names
      → Provides [] m
      → (register_from alloc 0 names m).1 ≡ pos a
      → AllProvided (register_from alloc 0 names m).0.meta.routes m.plugin.id names
  unfolding register_from
  Provides-loop alloc a [] m first fits h e = tt
  Provides-loop alloc a (p ∷ names) m first fits h e =
      let o : (register_one (alloc 0) p m).1 ≡ ok = rw first (register_one-true p [] m fits.0 h) in
      let m' = (register_one (alloc 0) p m).0 in
      let (a', d) =
        register_from-Provides alloc 0 a names (p ∷ []) m' fits.1
          (register_one-Provides (alloc 0) p [] m fits.0 o h) (rw (o, register_from) at e) in
      subst (λ out. AllProvided out.0.meta.routes m.plugin.id (p ∷ names))
        (register_from-ok alloc 0 p names m o) (d.0, a')

  invoke-meta :
      (f : Option (W → Rc × W)) (m : Machine W)
      → ((invoke f m).0.meta ≡ m.meta) × ((invoke f m).0.plugin ≡ m.plugin)
  unfolding invoke
  invoke-meta none m = (refl, refl)
  invoke-meta (some f) m = (refl, refl)

  run_start_ok :
      (m : Machine W)
      → (run_start m).1 ≡ ok
      → ((run_start m).0.meta ≡ m.meta) × ((run_start m).0.plugin.state ≡ started)
  unfolding run_start
  run_start_ok m good = elim (Rc-cases (invoke m.plugin.ops.start m).1) [
    | inl o ↦ (rw (o, run_start) (invoke-meta m.plugin.ops.start m).0, rw (o, run_start))
    | inr (x, o) ↦ absurd (ground arith)
  ]

  pub run_provides_ok :
      (alloc : ℕ → Bool) (m : Machine W)
      → alloc 0 ≡ true
      → NamesFit m.plugin.provides
      → Provides [] m
      → (run_provides alloc m).1 ≡ ok
      → AllProvided (run_provides alloc m).0.meta.routes m.plugin.id m.plugin.provides
        × ((run_provides alloc m).0.plugin.state ≡ started)
  unfolding run_provides plugin_register_provides
  run_provides_ok alloc m first fits h good = go (register_from alloc 0 m.plugin.provides m).1 refl
    where
      go :
          (z : ℤ)
          → (register_from alloc 0 m.plugin.provides m).1 ≡ z
          → AllProvided (run_provides alloc m).0.meta.routes m.plugin.id m.plugin.provides
            × ((run_provides alloc m).0.plugin.state ≡ started)
      go (pos a) e =
          let m' = (register_from alloc 0 m.plugin.provides m).0 in
          let r = run_start_ok m' (rw (e, run_provides) at good) in
          let shape : run_start m' ≡ run_provides alloc m = rw (e, run_provides) in
          subst
            (λ out.
              AllProvided out.0.meta.routes m.plugin.id m.plugin.provides
              × (out.0.plugin.state ≡ started))
            shape
            (
              subst (λ meta. AllProvided meta.routes m.plugin.id m.plugin.provides) (sym r.0)
                  (Provides-loop alloc a m.plugin.provides m first fits h e),
              r.1,
            )
      go (negsuc k) e = absurd (ground arith)
