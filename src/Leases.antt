-- ===== src/Leases.antt =====
-- packages/tekmemo/src/agentfs/leases/in-memory-lease-manager.ts: which agent may write to a
-- store, for how long. A method takes the state and the clock's reading where the source calls
-- `this.now()`, and gives the result beside the new state; a throw leaves the state as it was,
-- since every check stands before the first write.
pub mod Methods
pub mod Holding
pub mod Scoped
pub mod Exclusion
mod Tests
use tekbreed_oss.Prelude.{
  ℕ, ◌+◌, String, Bool, true, false, ◌||◌, not, Option, none, some, List, [], ◌∷◌, ◌==◌, leb,
  if◌then◌else◌,
}
use tekbreed_oss.Prelude.Number.{JsNumber, is_finite, le-zero, pos}
use tekbreed_oss.Prelude.Result.{Result, ok, throw, ◌>>=◌, ◌>>◌}
use tekbreed_oss.JsMap
use tekbreed_oss.JsMap.{JsMap}

pub record MemoryLeaseRecord : Type 0 where
  pub store_id : String
  pub owner_id : String
  pub expires_at : ℕ

-- AgentfsLeaseError, by the message that it carries.
pub data LeaseError : Type 0 where
  store_id_empty owner_id_empty ttl_not_positive : LeaseError

abbrev pub Leases : Type 0
Leases = JsMap MemoryLeaseRecord

-- `now + ttlMs` reads the number behind a ttl that passed the check.
abbrev pub millis : JsNumber → ℕ
millis (pos n) = n
millis _ = 0

abbrev pub check : Bool → LeaseError → Result LeaseError (Unit {0})
check true e = throw e
check false e = ok tt

-- `String.prototype.trim` is the language's.
module _ (trim : String → String) where
  unfoldable pub is_blank : String → Bool
  is_blank s = trim s == ""

  abbrev pub bad_ttl : Option JsNumber → Bool
  bad_ttl none = false
  bad_ttl (some t) = not (is_finite t) || le-zero t

  unfoldable pub assert_lease_input :
      String → String → Option JsNumber → Result LeaseError (Unit {0})
  unfolding is_finite le-zero
  assert_lease_input store_id owner_id ttl = do
    check (is_blank store_id) store_id_empty
    check (is_blank owner_id) owner_id_empty
    check (bad_ttl ttl) ttl_not_positive

  abbrev pub lease : String → String → JsNumber → ℕ → MemoryLeaseRecord
  lease store_id owner_id ttl now = record {
    store_id = store_id;
    owner_id = owner_id;
    expires_at = now + millis ttl;
  }

  -- `existing && existing.expiresAt <= now`, and the delete under it
  unfoldable pub drop_expired : Leases → String → ℕ → Leases
  drop_expired leases store_id now = elim (JsMap.get leases store_id) [
    | none ↦ leases
    | some e ↦ if leb e.expires_at now then JsMap.delete leases store_id else leases
  ]

  -- `active && active.ownerId !== ownerId`
  abbrev pub held_by_other : Option MemoryLeaseRecord → String → Bool
  held_by_other none owner_id = false
  held_by_other (some e) owner_id = not (e.owner_id == owner_id)

  unfoldable pub acquire :
      Leases → String → String → JsNumber → ℕ → Result LeaseError (Bool × Leases)
  acquire leases store_id owner_id ttl now = do
    assert_lease_input store_id owner_id (some ttl)
    let leases' = drop_expired leases store_id now
    if held_by_other (JsMap.get leases' store_id) owner_id
        then ok (false, leases')
        else ok (true, JsMap.set leases' store_id (lease store_id owner_id ttl now))

  -- `!existing || existing.expiresAt <= now || existing.ownerId !== ownerId`
  abbrev pub cannot_extend : Option MemoryLeaseRecord → String → ℕ → Bool
  cannot_extend none owner_id now = true
  cannot_extend (some e) owner_id now = leb e.expires_at now || not (e.owner_id == owner_id)

  unfoldable pub extend :
      Leases → String → String → JsNumber → ℕ → Result LeaseError (Bool × Leases)
  extend leases store_id owner_id ttl now = do
    assert_lease_input store_id owner_id (some ttl)
    if cannot_extend (JsMap.get leases store_id) owner_id now
        then ok (false, leases)
        else ok (true, JsMap.set leases store_id (lease store_id owner_id ttl now))

  -- `!existing || existing.ownerId !== ownerId`
  abbrev pub cannot_release : Option MemoryLeaseRecord → String → Bool
  cannot_release none owner_id = true
  cannot_release (some e) owner_id = not (e.owner_id == owner_id)

  unfoldable pub release : Leases → String → String → Result LeaseError Leases
  release leases store_id owner_id = do
    assert_lease_input store_id owner_id none
    if cannot_release (JsMap.get leases store_id) owner_id
        then ok leases
        else ok (JsMap.delete leases store_id)

  -- deletes what it reports as gone
  unfoldable pub get_lease :
      Leases → String → ℕ → Result LeaseError (Option MemoryLeaseRecord × Leases)
  get_lease leases store_id now = do
    check (is_blank store_id) store_id_empty
    elim (JsMap.get leases store_id) [
      | none ↦ ok (none, JsMap.delete leases store_id)
      | some e ↦
          if leb e.expires_at now
          then ok (none, JsMap.delete leases store_id)
          else ok (some e, leases)
    ]

-- The owner whose lease on the store runs at time `now`.
unfoldable pub holder : Leases → String → ℕ → Option String
holder leases store_id now = elim (JsMap.get leases store_id) [
  | none ↦ none
  | some e ↦ if leb e.expires_at now then none else some e.owner_id
]
