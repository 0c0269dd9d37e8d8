-- ===== src/Permission/Check.antt =====
-- What `ops_check` of permission/src/permission_impl.c decides.
use hwrun_os_linux.Prelude.{
  ◌≡◌, ◌≢◌, ◌↔◌, refl, subst, Bool, true, false, ◌&&◌, ◌||◌, List, [], ◌∷◌, Option, some, Bytes,
  is_empty, str_eq, find?, if◌then◌else◌, Bool-cases, inl, inr, ◌⊎◌, arith, All, Any, and_iff,
  or_iff, is_empty_iff,
}
use mathlib.Core.Bool.{false≢true}
use hwrun_os_linux.Errno.{Rc, ok, err, eacces}
use hwrun_os_linux.Permission.{
  Perm, Role, Binding, Policy, named, permits, role_permits, is_allowed, ops_check, or_empty,
}
use hwrun_os_linux.Permission.Glob.{glob_match, Matches, glob_match_iff}

-- An entry covers an action on a resource; its empty resource pattern covers every resource.
abbrev pub Covers : Bytes → Bytes → Perm → Type 0
Covers action res p = Matches p.action action × ((p.resource ≡ []) ⊎ Matches p.resource res)

-- Some binding of the subject is to some role with an entry that covers the access.
abbrev pub Granted : Policy → Bytes → Bytes → Bytes → Type 0
Granted pol subject action res =
    Any
      (λ b.
        (b.subject ≡ subject)
        × Any (λ r. (r.name ≡ b.role) × Any (Covers action res) r.perms) pol.roles)
      pol.bindings

abbrev pub DistinctNames : List Role → Type 0
DistinctNames [] = Unit
DistinctNames (r ∷ rs) = All (λ x. x.name ≢ r.name) rs × DistinctNames rs

Covers-iff :
    (action res : Bytes) (p : Perm)
    → ((glob_match p.action action && (is_empty p.resource || glob_match p.resource res)) ≡ true)
      ↔ Covers action res p
Covers-iff action res p =
    let act = glob_match_iff p.action action in
    let whole = is_empty_iff p.resource in
    let pat = glob_match_iff p.resource res in
    let either = or_iff (is_empty p.resource) (glob_match p.resource res) in
    let all =
      and_iff (glob_match p.action action) (is_empty p.resource || glob_match p.resource res) in
    (
      λ h.
          let (a, r) = all.0 h in
          (act.0 a, elim (either.0 r) [ inl e ↦ inl (whole.0 e) | inr m ↦ inr (pat.0 m) ]),
      λ c.
          all.1
            (act.1 c.0, either.1 (elim c.1 [ inl e ↦ inl (whole.1 e) | inr m ↦ inr (pat.1 m) ])),
    )

-- A loop that stops at the first element that passes finds one exactly if there is one.
step_iff {κ} :
    {P : Type 0} {Q : Type κ} (test rest : Bool)
    → (test ≡ true) ↔ P
    → (rest ≡ true) ↔ Q
    → ((if test then true else rest) ≡ true) ↔ (P ⊎ Q)
step_iff true rest p q = (λ _. inl (p.0 refl), λ _. refl)
step_iff false rest p q =
    (λ h. inr (q.0 h), λ s. elim s [ inl x ↦ absurd (false≢true (p.1 x)) | inr y ↦ q.1 y ])

permits_iff :
    (action res : Bytes) (ps : List Perm)
    → (permits action res ps ≡ true) ↔ Any (Covers action res) ps
unfolding permits
permits_iff action res [] = (λ h. absurd (false≢true h), λ h. absurd h)
permits_iff action res (p ∷ ps) =
    step_iff (glob_match p.action action && (is_empty p.resource || glob_match p.resource res))
      (permits action res ps) (Covers-iff action res p) (permits_iff action res ps)

-- With distinct names the role that is found is the one that there is.
role_permits_iff :
    (action res name : Bytes) (rs : List Role)
    → DistinctNames rs
    → (role_permits action res (find? (named name) rs) ≡ true)
      ↔ Any (λ r. (r.name ≡ name) × Any (Covers action res) r.perms) rs
unfolding role_permits find?
role_permits_iff action res name [] d = (λ h. absurd (false≢true h), λ h. absurd h)
role_permits_iff action res name (r ∷ rs) d = elim (Bool-cases (str_eq r.name name)) [
  | inl e ↦
      let e' : r.name ≡ name = ground arith in
      let mine = permits_iff action res r.perms in
      rw e (
        λ h. inl (e', mine.0 h),
        λ a. elim a [
          | inl x ↦ mine.1 x.1
          | inr x ↦ absurd (none_named name rs (subst (λ n. All (λ y. y.name ≢ n) rs) e' d.0) x)
        ],
      )
  | inr e ↦
      let later = role_permits_iff action res name rs d.1 in
      let ne : r.name ≢ name = ground arith in
      rw e (λ h. inr (later.0 h), λ a. elim a [ inl x ↦ absurd (ne x.0) | inr x ↦ later.1 x ])
]
  where
    none_named :
        (n : Bytes) (xs : List Role)
        → All (λ y. y.name ≢ n) xs
        → Any (λ r. (r.name ≡ n) × Any (Covers action res) r.perms) xs
        → ⊥
    none_named n [] h a = a
    none_named n (x ∷ xs) h (inl e) = h.0 e.0
    none_named n (x ∷ xs) h (inr a) = none_named n xs h.1 a

is_allowed_iff :
    (roles : List Role) (subject action res : Bytes) (bs : List Binding)
    → DistinctNames roles
    → (is_allowed roles subject action res bs ≡ true)
      ↔ Granted (record { roles = roles; bindings = bs }) subject action res
unfolding is_allowed
is_allowed_iff roles subject action res [] d = (λ h. absurd (false≢true h), λ h. absurd h)
is_allowed_iff roles subject action res (b ∷ bs) d =
    let found = role_permits action res (find? (named b.role) roles) in
    let who = and_iff (str_eq b.subject subject) found in
    let role = role_permits_iff action res b.role roles d in
    step_iff (str_eq b.subject subject && found) (is_allowed roles subject action res bs)
      (λ h. let (s, f) = who.0 h in (ground arith, role.0 f), λ c. who.1 (ground arith, role.1 c.1))
      (is_allowed_iff roles subject action res bs d)

verdict_iff :
    {G : Type 0} (b : Bool)
    → (b ≡ true) ↔ G
    → let rc : Rc = (if b then ok else err eacces) in ((rc ≡ ok) ↔ G) × ((rc ≡ err eacces) ↔ (¬ G))
verdict_iff true g = ((λ _. g.0 refl, λ _. refl), (λ h. cc, λ n. absurd (n (g.0 refl))))
verdict_iff false g =
    ((λ h. cc, λ x. absurd (false≢true (g.1 x))), (λ _ x. false≢true (g.1 x), λ _. refl))

-- Where role names are distinct, a check with a subject and an action allows exactly the accesses
-- that some role bound to the subject has an entry for; it denies all others with EACCES.
pub ops_check_iff :
    (pol : Policy) (subject action : Bytes) (resource : Option Bytes)
    → DistinctNames pol.roles
    → subject ≢ []
    → action ≢ []
    → ((ops_check pol (some subject) (some action) resource ≡ ok)
        ↔ Granted pol subject action (or_empty resource))
      × ((ops_check pol (some subject) (some action) resource ≡ err eacces)
          ↔ (¬ Granted pol subject action (or_empty resource)))
unfolding ops_check
ops_check_iff pol [] action resource d s a = absurd (s refl)
ops_check_iff pol (x ∷ subject) [] resource d s a = absurd (a refl)
ops_check_iff pol (x ∷ subject) (y ∷ action) resource d s a =
    verdict_iff (is_allowed pol.roles (x ∷ subject) (y ∷ action) (or_empty resource) pol.bindings)
      (is_allowed_iff pol.roles (x ∷ subject) (y ∷ action) (or_empty resource) pol.bindings d)
