-- ===== src/Bus/Chain/Invariant.antt =====
-- The invariant of the bus of bus/src/bus.c.
use hwrun_os_linux.Prelude.{
  ◌<◌, ◌≡◌, ◌≢◌, sym, subst, ◌∙◌, false, not, List, [], ◌∷◌, Bytes, length, str_eq, keep,
  update_first, arith, All, Any, inl, inr, Bool-cases, All-keep,
}
use hwrun_os_linux.Metaproto.{Route}
use hwrun_os_linux.Metaproto.Unique.{IsValid}
use hwrun_os_linux.Bus.Plugin.{Plugin}
use hwrun_os_linux.Bus.Loader.Owned.{foreign, OwnsOnly, OwnsNone}
use hwrun_os_linux.Bus.Loader.Holds.{NamesFit}
use hwrun_os_linux.Bus.Chain.{Bus, has_id, is_started}

-- What a node may own: routes for its own protocols, and none unless it is started.
pub record IsGood {W : Type 0} (rs : List Route) (p : Plugin W) : Type 0 where
  pub id_fits : length p.id < 64
  pub names_fit : NamesFit p.provides
  pub owns : OwnsOnly p.id p.provides rs
  pub idle : is_started p.state ≡ false → OwnsNone p.id rs

-- The ids of the nodes are distinct.
abbrev pub DistinctIds : {W : Type 0} → List (Plugin W) → Type 0
DistinctIds [] = Unit
DistinctIds (p ∷ ps) = All (λ x. x.id ≢ p.id) ps × DistinctIds ps

pub record Inv {W : Type 0} (bus : Bus W) : Type 0 where
  pub valid : IsValid bus.meta
  pub distinct : DistinctIds bus.plugins
  pub good : All (IsGood bus.meta.routes) bus.plugins

-- Routes of another plugin do not depend on those of `q`.
across :
    (P : Route → Type 0) (q q' : Bytes) (rs : List Route)
    → q' ≢ q
    → All (λ r. r.plugin_id ≡ q' → P r) (foreign q rs)
    → All (λ r. r.plugin_id ≡ q' → P r) rs
unfolding keep
across P q q' [] ne h = tt
across P q q' (r ∷ rs) ne h = elim (Bool-cases (str_eq r.plugin_id q)) [
  | inl e ↦
      let e' : r.plugin_id ≡ q = ground arith in
      (λ f. absurd (ne (sym f ∙ e')), across P q q' rs ne (rw e at h))
  | inr e ↦ let h' = rw e at h in (h'.0, across P q q' rs ne h'.1)
]

foreign-All : (P : Route → Type 0) (q : Bytes) (rs : List Route) → All P rs → All P (foreign q rs)
foreign-All P q rs h = All-keep P (λ r. not (str_eq r.plugin_id q)) rs h

transfer :
    (P : Route → Type 0) (q q' : Bytes) (rs rs' : List Route)
    → q' ≢ q
    → foreign q rs' ≡ foreign q rs
    → All (λ r. r.plugin_id ≡ q' → P r) rs
    → All (λ r. r.plugin_id ≡ q' → P r) rs'
transfer P q q' rs rs' ne same h = across P q q' rs' ne (
    subst (All (λ r. r.plugin_id ≡ q' → P r)) (sym same)
      (foreign-All (λ r. r.plugin_id ≡ q' → P r) q rs h))

module _ {W : Type 0} where
  IsGood-transfer :
      (p : Plugin W) (q : Bytes) (rs rs' : List Route)
      → p.id ≢ q
      → foreign q rs' ≡ foreign q rs
      → IsGood rs p
      → IsGood rs' p
  IsGood-transfer p q rs rs' ne same g = record {
    id_fits = g.id_fits;
    names_fit = g.names_fit;
    owns = transfer (λ r. Any (λ x. r.protocol ≡ x) p.provides) q p.id rs rs' ne same g.owns;
    idle = λ s. transfer (λ r. ⊥) q p.id rs rs' ne same (g.idle s);
  }

  -- The nodes after the one with this id is replaced by `p'`, which has the same id.
  pub replace-IsGood :
      (p p' : Plugin W) (rs rs' : List Route) (ps : List (Plugin W))
      → p'.id ≡ p.id
      → foreign p.id rs' ≡ foreign p.id rs
      → IsGood rs' p'
      → DistinctIds ps
      → All (IsGood rs) ps
      → All (IsGood rs') (update_first (has_id p.id) (λ _. p') ps)
  unfolding update_first
  replace-IsGood p p' rs rs' [] same f g d h = tt
  replace-IsGood p p' rs rs' (x ∷ ps) same f g d h = elim (Bool-cases (str_eq x.id p.id)) [
    | inl e ↦
        let e' : x.id ≡ p.id = ground arith in
        rw e (g, rest_good ps (subst (λ i. All (λ y. y.id ≢ i) ps) e' d.0) h.1)
    | inr e ↦ rw e (
      IsGood-transfer x p.id rs rs' (ground arith) f h.0,
      replace-IsGood p p' rs rs' ps same f g d.1 h.1,
    )
  ]
    where
      rest_good :
          (xs : List (Plugin W))
          → All (λ y. y.id ≢ p.id) xs
          → All (IsGood rs) xs
          → All (IsGood rs') xs
      rest_good [] ne h = tt
      rest_good (y ∷ xs) ne h = (IsGood-transfer y p.id rs rs' ne.0 f h.0, rest_good xs ne.1 h.1)

  ids-replace :
      (q : Bytes) (p' : Plugin W) (i : Bytes) (ps : List (Plugin W))
      → p'.id ≡ q
      → All (λ x. x.id ≢ i) ps
      → All (λ x. x.id ≢ i) (update_first (has_id q) (λ _. p') ps)
  unfolding update_first
  ids-replace q p' i [] same h = tt
  ids-replace q p' i (x ∷ ps) same h = elim (Bool-cases (str_eq x.id q)) [
    | inl e ↦ let e' : x.id ≡ p'.id = ground arith in rw e (λ f. h.0 (e' ∙ f), h.1)
    | inr e ↦ rw e (h.0, ids-replace q p' i ps same h.1)
  ]

  pub replace-distinct :
      (q : Bytes) (p' : Plugin W) (ps : List (Plugin W))
      → p'.id ≡ q
      → DistinctIds ps
      → DistinctIds (update_first (has_id q) (λ _. p') ps)
  unfolding update_first
  replace-distinct q p' [] same d = tt
  replace-distinct q p' (x ∷ ps) same d = elim (Bool-cases (str_eq x.id q)) [
    | inl e ↦
        let e' : x.id ≡ p'.id = ground arith in
        rw e (subst (λ i. All (λ y. y.id ≢ i) ps) e' d.0, d.1)
    | inr e ↦ rw e (ids-replace q p' x.id ps same d.0, replace-distinct q p' ps same d.1)
  ]
