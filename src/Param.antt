-- ===== src/Param.antt =====
-- The parameter tree of bus/src/hwrun.c and its context, bus/src/param.c.
-- A node's `child` and `sibling` pointers make the tree a forest of first children and siblings.
-- The calls of `calloc` that succeed are counted by `budget`; `fnmatch` is a parameter. The lock
-- makes each operation atomic. A call of a watcher or of the revision hook is an entry of a log.
pub mod Tree
use hwrun_os_linux.Prelude.{
  ℕ, zero, suc, Bool, true, false, not, ◌&&◌, ◌||◌, List, [], ◌∷◌, ◌++◌, Option, none, some, Bytes,
  codes, str_eq, is_empty, fit, keep, take, if◌then◌else◌, ◌==◌,
}
use hwrun_os_linux.Errno.{Rc, ok, err, enomem, einval}

-- struct hw_param; the siblings of the root are not used
pub data Forest : Type 0 where
  leaf : Forest
  node :
      (key value : Bytes) → (type : ℕ) → (description : Bytes) → (child sibling : Forest) → Forest

-- The fields of a node that a caller reads.
pub record Info : Type 0 where
  pub value : Bytes
  pub type : ℕ
  pub description : Bytes

abbrev pub head_cap : ℕ
head_cap = 128

abbrev pub value_cap : ℕ
value_cap = 256

-- `hw_param_split_key` applied until no dot is left: the heads, each cut to its buffer.
unfoldable pub heads : Bytes → Bytes → List Bytes
heads cur [] = fit head_cap cur ∷ []
heads cur (c ∷ s) = if c == b'.' then fit head_cap cur ∷ heads [] s else heads (cur ++ c ∷ []) s

unfoldable pub hw_param_find : Forest → List Bytes → Option Info
hw_param_find leaf hs = none
hw_param_find (node k v t d child sibling) [] = none
hw_param_find (node k v t d child sibling) (h ∷ []) =
    if str_eq k h
    then some (record { value = v; type = t; description = d })
    else hw_param_find sibling (h ∷ [])
hw_param_find (node k v t d child sibling) (h ∷ g ∷ hs) =
    if str_eq k h then hw_param_find child (g ∷ hs) else hw_param_find sibling (h ∷ g ∷ hs)

abbrev pub text_or_empty : Option Bytes → Bytes
text_or_empty none = []
text_or_empty (some s) = s

-- A new node behind the last sibling, and below it the rest of the path. Each new node takes the
-- type and the description; only the last has the value.
unfoldable pub grow : ℕ → List Bytes → Bytes → ℕ → Bytes → Forest × Rc
grow budget [] value type desc = (leaf, err einval)
grow zero (h ∷ hs) value type desc = (leaf, err enomem)
grow (suc budget) (h ∷ []) value type desc =
    (node (fit head_cap h) (fit value_cap value) type (fit value_cap desc) leaf leaf, ok)
grow (suc budget) (h ∷ g ∷ hs) value type desc =
    let rest = grow budget (g ∷ hs) value type desc in
    (node (fit head_cap h) [] type (fit value_cap desc) rest.0 leaf, rest.1)

unfoldable pub set : ℕ → Forest → List Bytes → Bytes → ℕ → Bytes → Forest × Rc
unfolding grow
set budget leaf hs value type desc = grow budget hs value type desc
set budget (node k v t d child sibling) [] value type desc =
    (node k v t d child sibling, err einval)
set budget (node k v t d child sibling) (h ∷ []) value type desc =
    let right = set budget sibling (h ∷ []) value type desc in
    if str_eq k h
    then (node k (fit value_cap value) type d child sibling, ok)
    else (node k v t d child right.0, right.1)
set budget (node k v t d child sibling) (h ∷ g ∷ hs) value type desc =
    let below = set budget child (g ∷ hs) value type desc in
    let right = set budget sibling (h ∷ g ∷ hs) value type desc in
    if str_eq k h
    then (node k v t d below.0 sibling, below.1)
    else (node k v t d child right.0, right.1)

unfoldable pub hw_param_set :
    ℕ → Forest → Option Bytes → Option Bytes → ℕ → Option Bytes → Forest × Rc
unfolding set heads
hw_param_set budget root none value type desc = (root, err einval)
hw_param_set budget root (some key) none type desc = (root, err einval)
hw_param_set budget root (some key) (some value) type desc =
    set budget root (heads [] key) value type (text_or_empty desc)

-- The value where there is one; an empty value counts as none.
unfoldable pub shown : Option Info → Option Bytes
shown none = none
shown (some i) = if is_empty i.value then none else some i.value

unfoldable pub get_at : Forest → List Bytes → Option Bytes
unfolding hw_param_find shown
get_at root hs = shown (hw_param_find root hs)

unfoldable pub hw_param_get : Forest → Option Bytes → Option Bytes
unfolding get_at heads
hw_param_get root none = none
hw_param_get root (some key) = get_at root (heads [] key)

unfoldable pub as_bool : Bytes → Bool → Bool
as_bool s def =
    if str_eq s (codes "true") || (str_eq s (codes "1") || str_eq s (codes "yes"))
    then true
    else if str_eq s (codes "false") || (str_eq s (codes "0") || str_eq s (codes "no"))
    then false
    else def

unfoldable pub hw_param_get_bool : Forest → Option Bytes → Bool → Bool
unfolding hw_param_get as_bool
hw_param_get_bool root key def = elim (hw_param_get root key) [
  | none ↦ def
  | some s ↦ as_bool (fit value_cap s) def
]

-- hw_param_watcher_t; `callback` stands for the function and its user data
pub record Watcher : Type 0 where
  pub plugin_id : Bytes
  pub callback : ℕ
  pub pattern : Bytes

pub record Context : Type 0 where
  pub root : Forest
  pub watchers : List Watcher
  -- whether `on_revision` is set
  pub has_hook : Bool

-- A call that leaves the context, in the order of the calls.
pub data Call : Type 0 where
  changed : (callback : ℕ) → (key : Bytes) → (old : Option Bytes) → (new : Bytes) → Call
  revised : (reason : Bytes) → Call

unfoldable pub hw_param_watch :
    Bool → Context → Option Bytes → Option Bytes → Option ℕ → Context × Rc
hw_param_watch alloc ctx none pattern cb = (ctx, err einval)
hw_param_watch alloc ctx (some id) pattern none = (ctx, err einval)
hw_param_watch alloc ctx (some id) pattern (some cb) =
    if alloc
    then (
      record ctx {
        watchers =
            record {
              plugin_id = fit 64 id;
              callback = cb;
              pattern = fit 128 (text_or_empty pattern);
            }
            ∷ ctx.watchers;
      },
      ok,
    )
    else (ctx, err enomem)

module _ (fnmatch : Bytes → Bytes → Bool) where
  abbrev concerns : Bytes → Watcher → Bool
  concerns key w = is_empty w.pattern || fnmatch w.pattern key

  unfoldable pub call_each : Bytes → Option Bytes → Bytes → List Watcher → List Call
  call_each key old new [] = []
  call_each key old new (w ∷ ws) = changed w.callback key old new ∷ call_each key old new ws

  -- At most 64 watchers are called.
  unfoldable pub hw_param_notify : Context → Bytes → Option Bytes → Bytes → List Call
  unfolding call_each
  hw_param_notify ctx key old new =
      call_each key old new (take 64 (keep (concerns key) ctx.watchers))

  unfoldable pub hw_param_mark_revision : Context → Bytes → List Call
  hw_param_mark_revision ctx reason = if ctx.has_hook then revised reason ∷ [] else []

  unfoldable pub hw_param_set_value :
      ℕ → Context → Option Bytes → Option Bytes → ℕ → Option Bytes → (Context × List Call) × Rc
  unfolding hw_param_set hw_param_get hw_param_notify hw_param_mark_revision
  hw_param_set_value budget ctx key value type desc =
      let old = hw_param_get ctx.root key in
      let out = hw_param_set budget ctx.root key value type desc in
      let ctx' = record ctx { root = out.0 } in
      let k = text_or_empty key in
      elim out.1 [
        | err e ↦ ((ctx', []), err e)
        | ok ↦ (
          (ctx', hw_param_notify ctx' k old (text_or_empty value) ++ hw_param_mark_revision ctx' k),
          ok,
        )
      ]
