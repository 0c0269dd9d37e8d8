-- ===== src/Metaproto/Refine.antt =====
-- The registry of bus/src/metaproto.c and a plain table from protocols and plugins to routes.
use hwrun_os_linux.Prelude.{
  ℕ, ◌<◌, ◌≡◌, refl, ◌∙◌, ap, ap₂, fun_ext, true, ◌&&◌, List, [], ◌∷◌, Option, none, some, Bytes,
  str_eq, length, if◌then◌else◌, arith, All,
}
use hwrun_os_linux.Errno.{Rc, ok, err, enoent}
use hwrun_os_linux.Metaproto.{
  Route, Registry, hw_metaproto_register, hw_metaproto_unregister, new_route, replaced,
}
use hwrun_os_linux.Metaproto.Providers.{provider, provider-register}
use hwrun_os_linux.Metaproto.Unique.{
  IsValid, register-IsValid, unregister-IsValid, provider-unregister,
}

-- The route of each protocol and plugin.
abbrev pub Table : Type 0
Table = Bytes → Bytes → Option Route

pub data Call : Type 0 where
  -- with the version and the implementation
  provide : Bytes → Option Bytes → Bytes → ℕ → Call
  withdraw : Bytes → Bytes → Call

abbrev entry : Bytes → Bytes → Option Route → Table → Table
entry p q r t p' q' = if str_eq p p' && str_eq q q' then r else t p' q'

abbrev provided : Bytes → Option Bytes → Bytes → ℕ → Option Route → Option Route
provided p v q impl none = some (new_route p v q impl)
provided p v q impl (some r) = some (replaced v impl r)

abbrev withdrawn : Option Route → Rc
withdrawn none = err enoent
withdrawn (some r) = ok

-- A call on the table.
abbrev pub table_step : Table → Call → Table × Rc
table_step t (provide p v q impl) = (entry p q (provided p v q impl (t p q)) t, ok)
table_step t (withdraw p q) = (entry p q none t, withdrawn (t p q))

-- The same call on the registry, with memory for a route.
abbrev pub registry_step : Registry → Call → Registry × Rc
registry_step reg (provide p v q impl) =
    let out = hw_metaproto_register true reg (some p) v (some q) impl in (out.0, out.1)
registry_step reg (withdraw p q) =
    let out = hw_metaproto_unregister reg (some p) (some q) in (out.0, out.1)

-- The state after a list of calls, and what each call returned.
unfoldable pub table_run : Table → List Call → Table × List Rc
table_run t [] = (t, [])
table_run t (c ∷ cs) =
    let rest = table_run (table_step t c).0 cs in (rest.0, (table_step t c).1 ∷ rest.1)

unfoldable pub registry_run : Registry → List Call → Registry × List Rc
registry_run reg [] = (reg, [])
registry_run reg (c ∷ cs) =
    let rest = registry_run (registry_step reg c).0 cs in (rest.0, (registry_step reg c).1 ∷ rest.1)

abbrev pub Short : Call → Type 0
Short (provide p v q impl) = (length p < 64) × (length q < 64)
Short (withdraw p q) = Unit

step_refines :
    (reg : Registry) (c : Call)
    → IsValid reg
    → reg.initialized ≡ true
    → Short c
    → (provider (registry_step reg c).0.routes ≡ (table_step (provider reg.routes) c).0)
      × ((registry_step reg c).1 ≡ (table_step (provider reg.routes) c).1)
step_refines reg (provide p v q impl) w up h = (
  fun_ext (λ p'. fun_ext (λ q'. (provider-register reg p q p' q' v impl up h.0 h.1).2)),
  (provider-register reg p q [] [] v impl up h.0 h.1).0,
)
step_refines reg (withdraw p q) w up h = (
  fun_ext (λ p'. fun_ext (λ q'. (provider-unregister reg p q p' q' w).1)),
  (provider-unregister reg p q [] [] w).0 ∙ result (provider reg.routes p q),
)
  where
    result :
        (r : Option Route) → elim r as (λ x. Rc) [ none ↦ err enoent | some x ↦ ok ] ≡ withdrawn r
    result none = refl
    result (some r) = refl

step_keeps :
    (reg : Registry) (c : Call)
    → IsValid reg
    → reg.initialized ≡ true
    → Short c
    → IsValid (registry_step reg c).0 × ((registry_step reg c).0.initialized ≡ true)
unfolding hw_metaproto_register hw_metaproto_unregister
step_keeps reg (provide p v q impl) w up h =
    (register-IsValid true reg p q v impl h.0 h.1 w, ground (arith, up))
step_keeps reg (withdraw p q) w up h =
    (unregister-IsValid reg (some p) (some q) w, ground (arith, up))

-- For every list of calls that register and unregister protocols, from a valid registry that is set
-- up: the registry shows the routes of the table on which the same calls are made, and each call
-- returns the same code as on the table. The names that are registered fit their fields, and there is
-- memory for the routes.
pub registry_run-table_run :
    (cs : List Call) (reg : Registry)
    → IsValid reg
    → reg.initialized ≡ true
    → All Short cs
    → (provider (registry_run reg cs).0.routes ≡ (table_run (provider reg.routes) cs).0)
      × ((registry_run reg cs).1 ≡ (table_run (provider reg.routes) cs).1)
unfolding registry_run table_run
registry_run-table_run [] reg w up h = (refl, refl)
registry_run-table_run (c ∷ cs) reg w up h =
    let (same, code) = step_refines reg c w up h.0 in
    let (valid, still) = step_keeps reg c w up h.0 in
    let (rest, codes) = registry_run-table_run cs (registry_step reg c).0 valid still h.1 in
    (
      rest ∙ ap (λ t. (table_run t cs).0) same,
      ap₂ (λ x xs. x ∷ xs) code (codes ∙ ap (λ t. (table_run t cs).1) same),
    )
