-- ===== src/Metaproto.antt =====
-- bus/src/metaproto.c and metaproto.h: the registry of protocols.
-- The two linked lists are lists in the same order. Pointers to implementations and callbacks are
-- numbers, 0 for NULL; a text that the code compares with NULL is an `Option`. `alloc` says whether
-- `calloc` succeeds. An operation returns the notices that it hands to subscribers after unlocking,
-- in order; what a callback then does is a later operation.
pub mod Version
pub mod Providers
pub mod Unique
pub mod Resolve
pub mod LongNames
pub mod Refine
use hwrun_os_linux.Prelude.{
  ℕ, Bool, true, false, not, ◌&&◌, ◌||◌, List, [], ◌∷◌, ◌++◌, Option, none, some, map, Bytes,
  str_eq, is_empty, fit, codes, find?, keep, drop_first, update_first, take, length, if◌then◌else◌,
  ◌==◌, ℤ, pos, negsuc,
}
use hwrun_os_linux.Errno.{Rc, ok, err, enoent, einval, enomem}
use Version.{hw_proto_version_compat}

-- hwplugin_state_t
pub data PluginState : Type 0 where
  uninstalled installed loaded started stopped failed : PluginState

-- hw_protocol_route_t
pub record Route : Type 0 where
  pub protocol : Bytes
  pub version : Bytes
  pub plugin_id : Bytes
  pub implementation : ℕ
  pub provider_state : PluginState
  pub kernel_backed : Bool

-- hw_protocol_sub_t
pub record Sub : Type 0 where
  pub plugin_id : Bytes
  pub protocol : Bytes
  pub on_protocol_change : ℕ

-- HWPROTO_STATE_REGISTERED, HWPROTO_STATE_REMOVED and HWPROTO_STATE_CHANGED
pub data Change : Type 0 where
  registered removed changed : Change

-- A call of a subscriber's callback.
pub record Notice : Type 0 where
  pub callback : ℕ
  pub protocol : Bytes
  pub version : Bytes
  pub plugin_id : Bytes
  pub state : Change

-- hw_metaproto_registry_t
pub record Registry : Type 0 where
  pub routes : List Route
  pub subscribers : List Sub
  pub state_file : Bytes
  pub initialized : Bool

abbrev pub protocol_cap : ℕ
protocol_cap = 64

abbrev pub version_cap : ℕ
version_cap = 16

abbrev pub plugin_id_cap : ℕ
plugin_id_cap = 64

-- HWRUN_PROTOCOL_VERSION
abbrev pub default_version : Bytes
default_version = codes "1.0"

unfoldable pub hw_metaproto_init : Option Bytes → Registry
hw_metaproto_init dir = record {
  routes = [];
  subscribers = [];
  state_file = state_path dir;
  initialized = true;
}
  where
    state_path : Option Bytes → Bytes
    state_path none = []
    state_path (some d) = fit 256 (d ++ codes "/metaproto.state")

unfoldable pub hw_metaproto_shutdown : Registry → Registry
hw_metaproto_shutdown reg = record reg { routes = []; subscribers = []; initialized = false }

-- The subscription is to every protocol, or to this one.
unfoldable pub interested : Bytes → Sub → Bool
interested p s = is_empty s.protocol || str_eq s.protocol p

-- The callbacks are taken down under the lock, 64 at most, and called after it is released.
unfoldable pub hw_metaproto_notify : Registry → Bytes → Bytes → Bytes → Change → List Notice
unfolding interested
hw_metaproto_notify reg p v q change = map call (keep has_callback (take 64 matching))
  where
    matching : List Sub
    matching = keep (interested p) reg.subscribers

    has_callback : Sub → Bool
    has_callback s = not (s.on_protocol_change == 0)

    call : Sub → Notice
    call s = record {
      callback = s.on_protocol_change;
      protocol = p;
      version = v;
      plugin_id = q;
      state = change;
    }

abbrev pub provided_by : Bytes → Bytes → Route → Bool
provided_by p q r = str_eq r.protocol p && str_eq r.plugin_id q

abbrev pub version_or : Option Bytes → Bytes → Bytes
version_or none old = old
version_or (some v) old = fit version_cap v

abbrev pub new_route : Bytes → Option Bytes → Bytes → ℕ → Route
new_route p v q impl = record {
  protocol = fit protocol_cap p;
  version = version_or v default_version;
  plugin_id = fit plugin_id_cap q;
  implementation = impl;
  provider_state = started;
  kernel_backed = false;
}

abbrev pub replaced : Option Bytes → ℕ → Route → Route
replaced v impl r = record r { implementation = impl; version = version_or v r.version }

-- The write-locked part of `hw_metaproto_register`, and the notification after it.
unfoldable pub register_locked :
    Bool → Registry → Bytes → Option Bytes → Bytes → ℕ → Registry × Rc × List Notice
unfolding hw_metaproto_notify
register_locked alloc reg p v q impl = elim (find? (provided_by p q) reg.routes) [
  | some r ↦ (
    record reg { routes = update_first (provided_by p q) (replaced v impl) reg.routes },
    ok,
    hw_metaproto_notify reg r.protocol (replaced v impl r).version q changed,
  )
  | none ↦
      if alloc
      then (
        record reg { routes = new_route p v q impl ∷ reg.routes },
        ok,
        hw_metaproto_notify reg (fit protocol_cap p) (new_route p v q impl).version q registered,
      )
      else (reg, err enomem, [])
]

unfoldable pub hw_metaproto_register :
    Bool → Registry → Option Bytes → Option Bytes → Option Bytes → ℕ → Registry × Rc × List Notice
unfolding register_locked
hw_metaproto_register alloc reg (some p) v (some q) impl =
    if reg.initialized then register_locked alloc reg p v q impl else (reg, err einval, [])
hw_metaproto_register alloc reg _ v _ impl = (reg, err einval, [])

-- A NULL plugin id stands for any plugin.
abbrev pub removable : Bytes → Option Bytes → Route → Bool
removable p none r = str_eq r.protocol p
removable p (some q) r = provided_by p q r

unfoldable pub hw_metaproto_unregister :
    Registry → Option Bytes → Option Bytes → Registry × Rc × List Notice
unfolding hw_metaproto_notify
hw_metaproto_unregister reg none q = (reg, err einval, [])
hw_metaproto_unregister reg (some p) q = elim (find? (removable p q) reg.routes) [
  | none ↦ (reg, err enoent, [])
  | some r ↦ (
    record reg { routes = drop_first (removable p q) reg.routes },
    ok,
    hw_metaproto_notify reg r.protocol r.version r.plugin_id removed,
  )
]

-- A NULL or empty version accepts every route of the protocol.
unfoldable pub acceptable : Bytes → Option Bytes → Route → Bool
acceptable p none r = str_eq r.protocol p
acceptable p (some req) r =
    str_eq r.protocol p && (is_empty req || hw_proto_version_compat r.version req)

-- The route that `*out` is set to; `none` leaves it.
unfoldable pub hw_metaproto_resolve : Registry → Option Bytes → Option Bytes → Rc × Option Route
unfolding acceptable
hw_metaproto_resolve reg none req = (err einval, none)
hw_metaproto_resolve reg (some p) req = elim (find? (acceptable p req) reg.routes) [
  | none ↦ (err enoent, none)
  | some r ↦ (ok, some r)
]

-- `*count` and the array; a table with no route allocates nothing.
unfoldable pub hw_metaproto_list : Bool → Registry → Rc × ℕ × List Route
hw_metaproto_list alloc reg =
    if length reg.routes == 0 || alloc
    then (ok, length reg.routes, reg.routes)
    else (err enomem, length reg.routes, [])

abbrev pub subscribed : Bytes → Option Bytes → Sub → Bool
subscribed q none s = str_eq s.plugin_id q
subscribed q (some p) s = str_eq s.plugin_id q && str_eq s.protocol p

abbrev pub text_or_empty : Option Bytes → Bytes
text_or_empty none = []
text_or_empty (some p) = fit protocol_cap p

abbrev pub new_sub : Bytes → Option Bytes → ℕ → Sub
new_sub q p cb = record {
  plugin_id = fit plugin_id_cap q;
  protocol = text_or_empty p;
  on_protocol_change = cb;
}

unfoldable pub hw_metaproto_subscribe :
    Bool → Registry → Option Bytes → Option Bytes → ℕ → Registry × Rc
hw_metaproto_subscribe alloc reg none p cb = (reg, err einval)
hw_metaproto_subscribe alloc reg (some q) p cb =
    if cb == 0 then (reg, err einval) else elim (find? (subscribed q p) reg.subscribers) [
      | some _ ↦ (
        record reg {
          subscribers =
              update_first (subscribed q p) (λ s. record s { on_protocol_change = cb })
                reg.subscribers;
        },
        ok,
      )
      | none ↦
          if alloc
          then (record reg { subscribers = new_sub q p cb ∷ reg.subscribers }, ok)
          else (reg, err enomem)
    ]

-- The first required protocol that no route provides.
unfoldable pub first_missing : List Route → List Bytes → Option Bytes
first_missing routes [] = none
first_missing routes (p ∷ ps) = elim (find? (λ r. str_eq r.protocol p) routes) [
  | some _ ↦ first_missing routes ps
  | none ↦ some p
]

-- `requires` is `none` for a NULL array, and `count` of its names are looked at. The second part is what
-- `missing` then holds.
unfoldable pub hw_metaproto_check_deps : Registry → Option (List Bytes) → ℤ → ℕ → Rc × Bytes
unfolding first_missing
hw_metaproto_check_deps reg none count cap = (err einval, [])
hw_metaproto_check_deps reg (some ps) (negsuc _) cap = (err einval, [])
hw_metaproto_check_deps reg (some ps) (pos n) cap = elim (first_missing reg.routes (take n ps)) [
  | none ↦ (ok, [])
  | some p ↦ (err enoent, fit cap p)
]
