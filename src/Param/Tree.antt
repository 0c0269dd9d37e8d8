-- ===== src/Param/Tree.antt =====
-- What hw_param_set of bus/src/hwrun.c changes in the tree, for every reader.
use hwrun_os_linux.Prelude.{
  ℕ, zero, suc, ◌≡◌, ◌≢◌, refl, ap, true, List, [], ◌∷◌, ◌++◌, Option, none, some, Bytes, str_eq,
  is_empty, fit, fit-fit, if◌then◌else◌, Bool-cases, inl, inr, ◌⊎◌, arith, ◌==◌, All,
}
use hwrun_os_linux.Errno.{ok}
use hwrun_os_linux.Param.{
  Forest, leaf, node, Info, heads, hw_param_find, grow, set, hw_param_set, shown, get_at,
  text_or_empty, hw_param_get,
}

-- The heads that fit the key of a node.
abbrev Fit : List Bytes → Type 0
Fit hs = All (λ h. fit 128 h ≡ h) hs

abbrev pub Holds : Bytes → ℕ → Option Info → Type 0
Holds v t none = ⊥
Holds v t (some i) = (i.value ≡ fit 256 v) × (i.type ≡ t)

grow-find :
    (budget : ℕ) (hs : List Bytes) (v : Bytes) (t : ℕ) (d : Bytes)
    → Fit hs
    → (grow budget hs v t d).1 ≡ ok
    → Holds v t (hw_param_find (grow budget hs v t d).0 hs)
unfolding grow hw_param_find
grow-find budget [] v t d f h = absurd (ground arith)
grow-find zero (h ∷ hs) v t d f e = absurd (ground arith)
grow-find (suc budget) (h ∷ []) v t d f e = rw f.0 (ground arith)
grow-find (suc budget) (h ∷ g ∷ hs) v t d f e =
    rw f.0 (ground (arith, grow-find budget (g ∷ hs) v t d f.1 e))

set-find :
    (budget : ℕ) (f : Forest) (hs : List Bytes) (v : Bytes) (t : ℕ) (d : Bytes)
    → Fit hs
    → (set budget f hs v t d).1 ≡ ok
    → Holds v t (hw_param_find (set budget f hs v t d).0 hs)
unfolding set hw_param_find
set-find budget leaf hs v t d f e = grow-find budget hs v t d f e
set-find budget (node k w u x c s) [] v t d f e = absurd (ground arith)
set-find budget (node k w u x c s) (h ∷ []) v t d f e =
    ground (arith, set-find budget s (h ∷ []) v t d f)
set-find budget (node k w u x c s) (h ∷ g ∷ hs) v t d f e =
    ground (arith, set-find budget s (h ∷ g ∷ hs) v t d f, set-find budget c (g ∷ hs) v t d f.1)

grow_other :
    (budget : ℕ) (hs other : List Bytes) (v : Bytes) (t : ℕ) (d : Bytes)
    → Fit hs
    → (other ≢ hs) ⊎ ((grow budget hs v t d).1 ≢ ok)
    → get_at (grow budget hs v t d).0 other ≡ none
unfolding grow get_at hw_param_find shown
grow_other budget [] other v t d f n = refl
grow_other zero (h ∷ hs) other v t d f n = refl
grow_other (suc budget) (h ∷ []) [] v t d f n = refl
grow_other (suc budget) (h ∷ []) (o ∷ []) v t d f n = rw f.0 (ground arith)
grow_other (suc budget) (h ∷ []) (o ∷ p ∷ os) v t d f n = ground arith
grow_other (suc budget) (h ∷ g ∷ hs) [] v t d f n = refl
grow_other (suc budget) (h ∷ g ∷ hs) (o ∷ []) v t d f n = ground arith
grow_other (suc budget) (h ∷ g ∷ hs) (o ∷ p ∷ os) v t d f n =
    elim (Bool-cases (str_eq (fit 128 h) o)) [
      | inl e ↦ rw e (grow_other budget (g ∷ hs) (p ∷ os) v t d f.1 (below n (ground arith)))
      | inr e ↦ rw e refl
    ]
  where
    below :
        (other_lem : (o ∷ p ∷ os ≢ h ∷ g ∷ hs) ⊎ ((grow budget (g ∷ hs) v t d).1 ≢ ok))
        → o ≡ h
        → (p ∷ os ≢ g ∷ hs) ⊎ ((grow budget (g ∷ hs) v t d).1 ≢ ok)
    below (inl ne) e = inl (λ q. ne cc)
    below (inr no_room) e = inr no_room

cons_ne : (h o : Bytes) (hs os : List Bytes) → o ∷ os ≢ h ∷ hs → o ≡ h → os ≢ hs
cons_ne h o hs os ne e q = ne cc

set_last :
    (budget : ℕ) (k w : Bytes) (u : ℕ) (x : Bytes) (c s : Forest) (h : Bytes) (other : List Bytes)
    (v : Bytes) (t : ℕ) (d : Bytes)
    → ((other ≢ h ∷ []) ⊎ ((set budget s (h ∷ []) v t d).1 ≢ ok)
        → get_at (set budget s (h ∷ []) v t d).0 other ≡ get_at s other)
    → (other ≢ h ∷ []) ⊎ ((set budget (node k w u x c s) (h ∷ []) v t d).1 ≢ ok)
    → get_at (set budget (node k w u x c s) (h ∷ []) v t d).0 other
      ≡ get_at (node k w u x c s) other
unfolding set get_at hw_param_find
set_last budget k w u x c s h other v t d ih n = elim (Bool-cases (str_eq k h)) [
  | inl e ↦ rw e (hit e other (ground arith))
  | inr e ↦ rw e (miss other (ih (rw e at n)))
]
  where
    hit :
        str_eq k h ≡ true
        → (other_path : List Bytes) → other_path ≢ h ∷ []
        → get_at (node k (fit 256 v) t x c s) other_path ≡ get_at (node k w u x c s) other_path
    hit e [] ne = refl
    hit e (o ∷ []) ne = elim (Bool-cases (str_eq k o)) [
      | inl q ↦ let same : o ≡ h = ground arith in absurd (ne (ap (λ z. z ∷ []) same))
      | inr q ↦ rw q refl
    ]
    hit e (o ∷ p ∷ os) ne = refl

    miss :
        (other_path : List Bytes)
        → get_at (set budget s (h ∷ []) v t d).0 other_path ≡ get_at s other_path
        → get_at (node k w u x c (set budget s (h ∷ []) v t d).0) other_path
          ≡ get_at (node k w u x c s) other_path
    miss [] e = refl
    miss (o ∷ []) e = ground arith
    miss (o ∷ p ∷ os) e = ground arith

set_below :
    (budget : ℕ) (k w : Bytes) (u : ℕ) (x : Bytes) (c s : Forest) (h g : Bytes)
    (hs other : List Bytes) (v : Bytes) (t : ℕ) (d : Bytes)
    → ((o : List Bytes)
        → (o ≢ g ∷ hs) ⊎ ((set budget c (g ∷ hs) v t d).1 ≢ ok)
        → get_at (set budget c (g ∷ hs) v t d).0 o ≡ get_at c o)
    → ((other ≢ h ∷ g ∷ hs) ⊎ ((set budget s (h ∷ g ∷ hs) v t d).1 ≢ ok)
        → get_at (set budget s (h ∷ g ∷ hs) v t d).0 other ≡ get_at s other)
    → (other ≢ h ∷ g ∷ hs) ⊎ ((set budget (node k w u x c s) (h ∷ g ∷ hs) v t d).1 ≢ ok)
    → get_at (set budget (node k w u x c s) (h ∷ g ∷ hs) v t d).0 other
      ≡ get_at (node k w u x c s) other
unfolding set get_at hw_param_find
set_below budget k w u x c s h g hs other v t d in_child in_right n =
    elim (Bool-cases (str_eq k h)) [
      | inl e ↦ rw e (hit e other (rw e at n))
      | inr e ↦ rw e (miss other (in_right (rw e at n)))
    ]
  where
    hit :
        str_eq k h ≡ true
        → (other_path : List Bytes)
        → (other_path ≢ h ∷ g ∷ hs) ⊎ ((set budget c (g ∷ hs) v t d).1 ≢ ok)
        → get_at (node k w u x (set budget c (g ∷ hs) v t d).0 s) other_path
          ≡ get_at (node k w u x c s) other_path
    hit e [] ne = refl
    hit e (o ∷ []) ne = refl
    hit e (o ∷ p ∷ os) (inr full) = elim (Bool-cases (str_eq k o)) [
      | inl q ↦ rw q (in_child (p ∷ os) (inr full))
      | inr q ↦ rw q refl
    ]
    hit e (o ∷ p ∷ os) (inl ne) = elim (Bool-cases (str_eq k o)) [
      | inl q ↦
          let same : o ≡ h = ground arith in
          rw q (in_child (p ∷ os) (inl (cons_ne h o (g ∷ hs) (p ∷ os) ne same)))
      | inr q ↦ rw q refl
    ]

    miss :
        (other_path : List Bytes)
        → get_at (set budget s (h ∷ g ∷ hs) v t d).0 other_path ≡ get_at s other_path
        → get_at (node k w u x c (set budget s (h ∷ g ∷ hs) v t d).0) other_path
          ≡ get_at (node k w u x c s) other_path
    miss [] e = refl
    miss (o ∷ []) e = ground arith
    miss (o ∷ p ∷ os) e = ground arith

set_other :
    (budget : ℕ) (f : Forest) (hs other : List Bytes) (v : Bytes) (t : ℕ) (d : Bytes)
    → Fit hs
    → (other ≢ hs) ⊎ ((set budget f hs v t d).1 ≢ ok)
    → get_at (set budget f hs v t d).0 other ≡ get_at f other
unfolding set get_at hw_param_find shown
set_other budget leaf hs other v t d f n = grow_other budget hs other v t d f n
set_other budget (node k w u x c s) [] other v t d f n = refl
set_other budget (node k w u x c s) (h ∷ []) other v t d f n =
    set_last budget k w u x c s h other v t d (set_other budget s (h ∷ []) other v t d f) n
set_other budget (node k w u x c s) (h ∷ g ∷ hs) other v t d f n =
    set_below budget k w u x c s h g hs other v t d (λ o. set_other budget c (g ∷ hs) o v t d f.1)
      (set_other budget s (h ∷ g ∷ hs) other v t d f) n

heads-Fit : (cur s : Bytes) → Fit (heads cur s)
unfolding heads
heads-Fit cur [] = (fit-fit 128 cur (omega arith), tt)
heads-Fit cur (c ∷ s) = elim (Bool-cases (c == b'.')) [
  | inl e ↦ rw e (fit-fit 128 cur (omega arith), heads-Fit [] s)
  | inr e ↦ rw e (heads-Fit (cur ++ c ∷ []) s)
]

shown-Holds :
    (v : Bytes) (t : ℕ) (o : Option Info)
    → Holds v t o
    → shown o ≡ (if is_empty (fit 256 v) then none else some (fit 256 v))
unfolding shown
shown-Holds v t none h = absurd h
shown-Holds v t (some i) h = rw h.0 refl

-- A set that reports success gives the key its value: what a later get finds is the value, cut to
-- the 255 bytes of its field, or nothing where the value is empty.
pub get-set :
    (budget : ℕ) (root : Forest) (key value : Bytes) (type : ℕ) (desc : Option Bytes)
    → (hw_param_set budget root (some key) (some value) type desc).1 ≡ ok
    → hw_param_get (hw_param_set budget root (some key) (some value) type desc).0 (some key)
      ≡ (if is_empty (fit 256 value) then none else some (fit 256 value))
unfolding hw_param_set hw_param_get get_at shown
get-set budget root key value type desc done =
    shown-Holds value type
      (hw_param_find (set budget root (heads [] key) value type (text_or_empty desc)).0
        (heads [] key))
      (set-find budget root (heads [] key) value type (text_or_empty desc) (heads-Fit [] key) done)

-- Every other key keeps its value under a set, whatever the set reports. Keys are the same where
-- their heads are.
pub get-set_other :
    (budget : ℕ) (root : Forest) (key other : Bytes) (value : Option Bytes) (type : ℕ)
    (desc : Option Bytes)
    → heads [] other ≢ heads [] key
    → hw_param_get (hw_param_set budget root (some key) value type desc).0 (some other)
      ≡ hw_param_get root (some other)
unfolding hw_param_set hw_param_get
get-set_other budget root key other none type desc ne = refl
get-set_other budget root key other (some value) type desc ne =
    set_other budget root (heads [] key) (heads [] other) value type (text_or_empty desc)
      (heads-Fit [] key) (inl ne)

-- A set that fails, for a missing key or value or for want of memory, changes no value at all.
get-set_failed :
    (budget : ℕ) (root : Forest) (key value : Option Bytes) (type : ℕ) (desc : Option Bytes)
    (other : Option Bytes)
    → (hw_param_set budget root key value type desc).1 ≢ ok
    → hw_param_get (hw_param_set budget root key value type desc).0 other ≡ hw_param_get root other
unfolding hw_param_set hw_param_get
get-set_failed budget root key value type desc none failed = refl
get-set_failed budget root none value type desc (some other) failed = refl
get-set_failed budget root (some key) none type desc (some other) failed = refl
get-set_failed budget root (some key) (some value) type desc (some other) failed =
    set_other budget root (heads [] key) (heads [] other) value type (text_or_empty desc)
      (heads-Fit [] key) (inr failed)
