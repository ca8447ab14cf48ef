-- ===== src/Service/Context.antt =====
-- What every method of `Service` works with: the acting user, the default store and the audit log,
-- and the text formats of Go's standard library that appear in its answers.
use kasirinaja.Prelude.{
  ℕ, ◌+◌, Bool, false, String, Option, none, some, List, str_eq, if◌then◌else◌,
}
use kasirinaja.Domain.{Time, Env, Actor, PaymentSplit}
use kasirinaja.Store.{Result, ok, Action}
use kasirinaja.Memory.State.{Store}
use kasirinaja.Memory.Catalog.{create_audit_log}

-- The user in the context of a request, and the `defaultStoreID` of the service.
pub record Context : Type 0 where
  pub actor : Option Actor
  pub default_store_id : String

-- `json.Marshal` and `json.Unmarshal` on payment splits, and `Format(time.RFC3339)`.
pub record Formats : Type 0 where
  pub marshal_splits : List PaymentSplit → String
  pub unmarshal_splits : String → Option (List PaymentSplit)
  pub rfc3339 : Time → String

-- The outside world once `k` times and identifiers were taken.
unfoldable pub later : ℕ → Env → Env
later k env = record { now = λ i. env.now (k + i); new_id = λ prefix i. env.new_id prefix (k + i) }

unfoldable pub is_admin : Context → Bool
is_admin ctx = elim ctx.actor [ none ↦ false | some actor ↦ str_eq actor.role "admin" ]

-- `if storeID == "" { storeID = s.defaultStoreID }`
unfoldable pub or_default_store : Context → String → String
or_default_store ctx store = if str_eq store "" then ctx.default_store_id else store

unfoldable pub actor_or_system : Context → Actor
actor_or_system ctx = elim ctx.actor [
  | none ↦ record { username = "system"; role = "system" }
  | some actor ↦ actor
]

-- `actor.Username`, empty where no user is known
unfoldable pub actor_name : Context → String
actor_name ctx = elim ctx.actor [ none ↦ "" | some actor ↦ actor.username ]

-- The result of a call as a value, for code that looks at the error.
abbrev pub attempt : {S A : Type 0} → Action S A → Action S (Result A)
attempt m s = let (r, s') = m s in (ok r, s')

module _ {F : Type 0} where
  unfoldable pub log_audit :
      Context → Env → String → String → String → String → String → Action (Store F) (Unit {0})
  unfolding or_default_store actor_or_system
  log_audit ctx env store action entity_type entity_id detail =
      let actor = actor_or_system ctx in
      create_audit_log env (record {
        id = env.new_id "audit" 0;
        store_id = or_default_store ctx store;
        actor_username = actor.username;
        actor_role = actor.role;
        action = action;
        entity_type = entity_type;
        entity_id = entity_id;
        detail = detail;
        created_at = env.now 0;
      })
