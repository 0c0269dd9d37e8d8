-- ===== src/Permission/Valid.antt =====
-- The invariant of the policy of permission/src/permission_impl.c, and its parts under changes of lists.
use hwrun_os_linux.Prelude.{
  ℕ, ◌<◌, ◌≤◌, ◌≡◌, ◌≢◌, refl, sym, ◌∙◌, subst, Bool, true, List, [], ◌∷◌, ◌++◌, Option, none, some,
  Bytes, length, find?, find?-append, keep, drop_first, update_first, Bool-cases, inl, inr, arith,
  All, All-append, All-drop_first,
}
use hwrun_os_linux.Permission.{
  Perm, Role, Binding, Policy, named, binds, grants, token_ok, free_text_ok, or_empty,
}
use hwrun_os_linux.Permission.Check.{DistinctNames}

abbrev pub DistinctBindings : List Binding → Type 0
DistinctBindings [] = Unit
DistinctBindings (b ∷ bs) = (find? (binds b.subject b.role) bs ≡ none) × DistinctBindings bs

abbrev pub DistinctPerms : List Perm → Type 0
DistinctPerms [] = Unit
DistinctPerms (p ∷ ps) = (find? (grants p.action p.resource) ps ≡ none) × DistinctPerms ps

-- A role has at most 64 entries, and no entry twice.
abbrev pub IsRole : Role → Type 0
IsRole r = (length r.perms ≤ 64) × DistinctPerms r.perms

abbrev pub Defined : List Role → Bytes → Type 0
Defined roles name = find? (named name) roles ≢ none

pub record IsValid (pol : Policy) : Type 0 where
  pub names : DistinctNames pol.roles
  pub roles : All IsRole pol.roles
  pub bindings : DistinctBindings pol.bindings
  -- no binding dangles
  pub defined : All (λ b. Defined pol.roles b.role) pol.bindings

-- What a test of a token tells.
pub token_fits : (s : Option Bytes) (max : ℕ) → token_ok s max ≡ true → length (or_empty s) < max
unfolding token_ok
token_fits none max h = absurd (ground arith)
token_fits (some []) max h = absurd (ground arith)
token_fits (some (c ∷ s)) max h = ground arith

pub text_fits : (s : Bytes) (max : ℕ) → free_text_ok s max ≡ true → length s < max
unfolding free_text_ok
text_fits s max h = ground arith

pub find?-append_some :
    {A : Type 0} (p : A → Bool) (xs ys : List A) → find? p xs ≢ none → find? p (xs ++ ys) ≢ none
unfolding find?
find?-append_some p [] ys h = absurd (h refl)
find?-append_some p (x ∷ xs) ys h = ground (arith, find?-append_some p xs ys)

pub DistinctNames-append :
    (rs : List Role) (r : Role)
    → DistinctNames rs
    → find? (named r.name) rs ≡ none
    → DistinctNames (rs ++ r ∷ [])
unfolding find?
DistinctNames-append [] r d h = (tt, tt)
DistinctNames-append (x ∷ rs) r d h = (
  All-append (λ y. y.name ≢ x.name) rs (r ∷ []) d.0 (ground arith, tt),
  DistinctNames-append rs r d.1 (ground arith),
)

pub DistinctBindings-append :
    (bs : List Binding) (b : Binding)
    → DistinctBindings bs
    → find? (binds b.subject b.role) bs ≡ none
    → DistinctBindings (bs ++ b ∷ [])
unfolding find?
DistinctBindings-append [] b d h = (refl, tt)
DistinctBindings-append (x ∷ bs) b d h = (
  ground (arith, find?-append (binds x.subject x.role) bs (b ∷ [])),
  DistinctBindings-append bs b d.1 (ground arith),
)

pub DistinctPerms-append :
    (ps : List Perm) (p : Perm)
    → DistinctPerms ps
    → find? (grants p.action p.resource) ps ≡ none
    → DistinctPerms (ps ++ p ∷ [])
unfolding find?
DistinctPerms-append [] p d h = (refl, tt)
DistinctPerms-append (x ∷ ps) p d h = (
  ground (arith, find?-append (grants x.action x.resource) ps (p ∷ [])),
  DistinctPerms-append ps p d.1 (ground arith),
)

find?-drop_first :
    {A : Type 0} (p f : A → Bool) (xs : List A)
    → find? p xs ≡ none
    → find? p (drop_first f xs) ≡ none
unfolding find? drop_first
find?-drop_first p f [] h = refl
find?-drop_first p f (x ∷ xs) h = ground (arith, find?-drop_first p f xs)

pub DistinctPerms-drop_first :
    (f : Perm → Bool) (ps : List Perm) → DistinctPerms ps → DistinctPerms (drop_first f ps)
unfolding drop_first
DistinctPerms-drop_first f [] d = tt
DistinctPerms-drop_first f (x ∷ ps) d = ground (
  arith,
  find?-drop_first (grants x.action x.resource) f ps d.0,
  DistinctPerms-drop_first f ps d.1,
)

pub DistinctBindings-drop_first :
    (f : Binding → Bool) (bs : List Binding)
    → DistinctBindings bs
    → DistinctBindings (drop_first f bs)
unfolding drop_first
DistinctBindings-drop_first f [] d = tt
DistinctBindings-drop_first f (x ∷ bs) d = ground (
  arith,
  find?-drop_first (binds x.subject x.role) f bs d.0,
  DistinctBindings-drop_first f bs d.1,
)

find?-keep :
    {A : Type 0} (p f : A → Bool) (xs : List A) → find? p xs ≡ none → find? p (keep f xs) ≡ none
unfolding find? keep
find?-keep p f [] h = refl
find?-keep p f (x ∷ xs) h = ground (arith, find?-keep p f xs)

pub DistinctBindings-keep :
    (f : Binding → Bool) (bs : List Binding) → DistinctBindings bs → DistinctBindings (keep f bs)
unfolding keep
DistinctBindings-keep f [] d = tt
DistinctBindings-keep f (x ∷ bs) d =
    ground (arith, find?-keep (binds x.subject x.role) f bs d.0, DistinctBindings-keep f bs d.1)

pub DistinctNames-drop_first :
    (f : Role → Bool) (rs : List Role) → DistinctNames rs → DistinctNames (drop_first f rs)
unfolding drop_first
DistinctNames-drop_first f [] d = tt
DistinctNames-drop_first f (x ∷ rs) d = elim (Bool-cases (f x)) [
  | inl e ↦ rw e d.1
  | inr e ↦ rw e (All-drop_first (λ y. y.name ≢ x.name) f rs d.0, DistinctNames-drop_first f rs d.1)
]

pub length-drop_first-le :
    {A : Type 0} (f : A → Bool) (xs : List A) → length (drop_first f xs) ≤ length xs
unfolding drop_first
length-drop_first-le f [] = omega arith
length-drop_first-le f (x ∷ xs) = ground (arith, length-drop_first-le f xs)

-- Removing one role leaves the others defined.
pub Defined-drop_first :
    (name other : Bytes) (rs : List Role)
    → other ≢ name
    → Defined rs other
    → Defined (drop_first (named name) rs) other
unfolding find? drop_first
Defined-drop_first name other [] ne d = absurd (d refl)
Defined-drop_first name other (x ∷ rs) ne d = ground (arith, Defined-drop_first name other rs ne)

-- A change that keeps the names keeps the roles distinct and defined.
module _ (f : Role → Role) (keeps : (r : Role) → (f r).name ≡ r.name) (name : Bytes) where
  names-update_first :
      (n : Bytes) (rs : List Role)
      → All (λ y. y.name ≢ n) rs
      → All (λ y. y.name ≢ n) (update_first (named name) f rs)
  unfolding update_first
  names-update_first n [] h = tt
  names-update_first n (x ∷ rs) h = elim (Bool-cases (named name x)) [
    | inl e ↦ rw e (λ g. h.0 (sym (keeps x) ∙ g), h.1)
    | inr e ↦ rw e (h.0, names-update_first n rs h.1)
  ]

  pub DistinctNames-update_first :
      (rs : List Role) → DistinctNames rs → DistinctNames (update_first (named name) f rs)
  unfolding update_first
  DistinctNames-update_first [] d = tt
  DistinctNames-update_first (x ∷ rs) d = elim (Bool-cases (named name x)) [
    | inl e ↦ rw e (subst (λ n. All (λ y. y.name ≢ n) rs) (sym (keeps x)) d.0, d.1)
    | inr e ↦ rw e (names-update_first x.name rs d.0, DistinctNames-update_first rs d.1)
  ]

  pub Defined-update_first :
      (rs : List Role) (n : Bytes) → Defined rs n → Defined (update_first (named name) f rs) n
  unfolding find? update_first
  Defined-update_first [] n d = d
  Defined-update_first (x ∷ rs) n d = ground (arith, keeps x, Defined-update_first rs n)
