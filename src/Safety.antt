-- ===== src/Safety.antt =====
-- src/safety.rs: the risk classes of operations and the confirmation hook.
use libwing.Prelude.{◌≡◌, ◌≢◌, ◌⊎◌, refl, Bool, true, false, not, ◌&&◌, inl, inr, if◌then◌else◌}

pub data RiskClass : Type 0 where
  read_only transient state_changing persistent_storage snapshot_recall routing : RiskClass
  gain_phantom gpio recorder_transport destructive_schema_crawl : RiskClass

abbrev pub requires_confirmation : RiskClass → Bool
requires_confirmation read_only = false
requires_confirmation transient = false
requires_confirmation _ = true

pub data Operation : Type 0 where
  read_node_data read_node_definition discover connect subscribe_meters read_meters : Operation
  keep_alive set_node_value schema_crawl : Operation

abbrev pub risk_class : Operation → RiskClass
risk_class read_node_data = read_only
risk_class read_node_definition = read_only
risk_class discover = read_only
risk_class connect = transient
risk_class subscribe_meters = transient
risk_class read_meters = transient
risk_class keep_alive = transient
risk_class set_node_value = state_changing
risk_class schema_crawl = destructive_schema_crawl

pub record ConfirmationRequired : Type 0 where
  pub operation : Operation
  pub class : RiskClass

pub data Allowed : Type 0 where
  allowed : Allowed
  blocked : ConfirmationRequired → Allowed

-- `confirm` is the guard's predicate.
unfoldable pub ensure_allowed : (Operation → Bool) → Operation → Allowed
ensure_allowed confirm op =
    if requires_confirmation (risk_class op) && not (confirm op)
    then blocked (record { operation = op; class = risk_class op })
    else allowed

-- What the outcome says of the operation. A node write and a schema crawl are the operations that
-- ask for confirmation.
abbrev pub Explains : (Operation → Bool) → Operation → Allowed → Type 0
Explains confirm op allowed = (confirm op ≡ true) ⊎ ((op ≢ set_node_value) × (op ≢ schema_crawl))
Explains confirm op (blocked required) =
    (confirm op ≡ false)
    × (required.operation ≡ op)
    × (((op ≡ set_node_value) × (required.class ≡ state_changing))
        ⊎ ((op ≡ schema_crawl) × (required.class ≡ destructive_schema_crawl)))

answer :
    (confirm : Operation → Bool) (op : Operation) (c : RiskClass) (b : Bool)
    → ((op ≡ set_node_value) × (c ≡ state_changing))
      ⊎ ((op ≡ schema_crawl) × (c ≡ destructive_schema_crawl))
    → confirm op ≡ b
    → Explains confirm op
        (if not b then blocked (record { operation = op; class = c }) else allowed)
answer confirm op c true h e = inl e
answer confirm op c false h e = (e, refl, h)

-- The guard blocks a node write and a schema crawl where its predicate does not grant them, as a
-- state-changing operation and as a destructive schema crawl, and blocks no other operation; what
-- it lets through is granted or is neither of the two.
pub ensure_allowed-Explains :
    (confirm : Operation → Bool) (op : Operation) → Explains confirm op (ensure_allowed confirm op)
unfolding ensure_allowed
ensure_allowed-Explains confirm set_node_value =
    answer confirm set_node_value state_changing (confirm set_node_value) (inl (refl, refl)) refl
ensure_allowed-Explains confirm schema_crawl =
    answer confirm schema_crawl destructive_schema_crawl (confirm schema_crawl) (inr (refl, refl))
      refl
ensure_allowed-Explains confirm _ = inr (λ e. absurd cc, λ e. absurd cc)
