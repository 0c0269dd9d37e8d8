-- ===== src/Metaproto/LongNames.antt =====
-- Protocol names that do not fit the 64 bytes of a route, in bus/src/metaproto.c.
use hwrun_os_linux.Prelude.{
  ℕ, suc, ◌≤◌, ◌≡◌, true, List, [], ◌∷◌, Option, none, some, Bytes, length-fit-lt, length, find?,
  arith, All,
}
use hwrun_os_linux.Errno.{ok, err, enoent}
use hwrun_os_linux.Metaproto.{
  Route, Registry, hw_metaproto_register, hw_metaproto_unregister, hw_metaproto_resolve, acceptable,
  provided_by,
}
use hwrun_os_linux.Metaproto.Unique.{Fits}

pub provider-long :
    (p q : Bytes) (rs : List Route)
    → 64 ≤ length p
    → All Fits rs
    → find? (provided_by p q) rs ≡ none
unfolding find?
provider-long p q [] h f = ground arith
provider-long p q (x ∷ rs) h f = ground (arith, provider-long p q rs h f.1)

acceptable-long :
    (p : Bytes) (rs : List Route)
    → 64 ≤ length p
    → All Fits rs
    → find? (acceptable p none) rs ≡ none
unfolding find? acceptable
acceptable-long p [] h f = ground arith
acceptable-long p (x ∷ rs) h f = ground (arith, acceptable-long p rs h f.1)

-- A name of 64 bytes or more registers with success, and always as one more route, yet afterwards it
-- neither resolves nor can be unregistered.
pub register-long :
    (reg : Registry) (p q : Bytes) (v : Option Bytes) (impl : ℕ)
    → reg.initialized ≡ true
    → All Fits reg.routes
    → 64 ≤ length p
    → let out = hw_metaproto_register true reg (some p) v (some q) impl in
      (out.1 ≡ ok)
      × (length out.0.routes ≡ suc (length reg.routes))
      × ((hw_metaproto_resolve out.0 (some p) none).0 ≡ err enoent)
      × ((hw_metaproto_unregister out.0 (some p) (some q)).1 ≡ err enoent)
unfolding hw_metaproto_register hw_metaproto_resolve hw_metaproto_unregister find?
register-long reg p q v impl up f h =
    ground (
      arith,
      provider-long p q reg.routes h f,
      acceptable-long p reg.routes h f,
      length-fit-lt 64 p,
    )
