-- ===== src/Audit/Query.antt =====
-- audit/src/audit_impl.c: which events a query selects. Times and results are integers.
use hwrun_os_linux.Prelude.{
  ℕ, ◌≡◌, ◌↔◌, ◌⊎◌, Bool, true, false, not, ◌&&◌, [], Option, none, some, Bytes, str_eq, is_empty,
  if◌then◌else◌, arith, ℤ, pos, ◌≤ℤ◌, ltb_ℤ, eqb_ℤ,
}

-- hw_audit_event_t
pub record Event : Type 0 where
  pub seq : ℕ
  pub ts : ℤ
  pub result : ℤ
  pub subject : Bytes
  pub action : Bytes
  pub target : Bytes
  pub detail : Bytes

-- hw_audit_query_t
pub record Query : Type 0 where
  pub start_ts : ℤ
  pub end_ts : ℤ
  pub subject : Bytes
  pub action : Bytes
  pub result : ℤ
  pub result_set : Bool
  pub order : ℕ
  pub limit : ℕ

unfoldable pub event_matches : Event → Option Query → Bool
event_matches ev none = true
event_matches ev (some q) =
    if ltb_ℤ (pos 0) q.start_ts && ltb_ℤ ev.ts q.start_ts
    then false
    else if ltb_ℤ (pos 0) q.end_ts && ltb_ℤ q.end_ts ev.ts
    then false
    else if not (is_empty q.subject) && not (str_eq ev.subject q.subject)
    then false
    else if not (is_empty q.action) && not (str_eq ev.action q.action)
    then false
    else if q.result_set && not (eqb_ℤ ev.result q.result)
    then false
    else true

-- The event lies within the bounds that are set, and agrees with the fields that are set.
abbrev pub Selects : Query → Event → Type 0
Selects q ev =
    ((q.start_ts ≤ℤ pos 0) ⊎ (q.start_ts ≤ℤ ev.ts))
    × ((q.end_ts ≤ℤ pos 0) ⊎ (ev.ts ≤ℤ q.end_ts))
    × ((q.subject ≡ []) ⊎ (ev.subject ≡ q.subject))
    × ((q.action ≡ []) ⊎ (ev.action ≡ q.action))
    × ((q.result_set ≡ false) ⊎ (eqb_ℤ ev.result q.result ≡ true))

-- A query selects exactly the events within its bounds of time and with its subject, action and
-- result, where each of these counts only if it is set.
pub event_matches_iff : (ev : Event) (q : Query) → (event_matches ev (some q) ≡ true) ↔ Selects q ev
unfolding event_matches
event_matches_iff ev q = (λ h. ground arith, λ h. ground arith)
