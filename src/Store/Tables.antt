-- ===== src/Store/Tables.antt =====
-- The tables of migrations/tenant/0004_ledger_outbox_schema.sql that the core of the program
-- reads and writes, with the rows of src/dispatcher/model.rs, and those of the gates. Uuids are
-- numbers, instants are milliseconds, byte strings are lists of numbers.
use messgr.Base.{ℕ, String, Bool, Option, List, []}

-- `outbox`, and `ClaimedOutbox` of src/dispatcher/model.rs, which mirrors it.
pub record OutboxRow : Type 0 where
  pub comms_request_id : ℕ
  pub created_at : ℕ
  pub channel : String
  pub class : String
  pub priority : ℕ
  pub customer_id : ℕ
  pub address_id : ℕ
  pub producer_id : ℕ
  pub campaign_id : Option String
  pub next_attempt_at : ℕ
  pub expires_at : Option ℕ
  pub cancelled_at : Option ℕ
  pub attempts : ℕ
  pub leased_until : Option ℕ

-- `comms_request`, the ledger.
pub record Request : Type 0 where
  pub tenant_id : ℕ
  pub id : ℕ
  pub created_at : ℕ
  pub customer_id : ℕ
  pub channel : String
  pub class : String
  pub template_id : String
  pub template_version : ℕ
  pub campaign_id : Option String
  pub destination_hmac : List ℕ
  pub destination_ciphertext : List ℕ
  pub payload_ciphertext : Option (List ℕ)
  pub producer_id : ℕ
  pub scheduled_for : Option ℕ
  pub expires_at : Option ℕ
  pub final_status : Option String
  pub finalized_at : Option ℕ

-- `comms_event`.
pub record Event : Type 0 where
  pub comms_request_id : ℕ
  pub customer_id : ℕ
  pub occurred_at : ℕ
  pub event_type : String
  pub provider_ref : String
  pub provider_status : Option String
  pub provider_payload : Option (List ℕ)

pub record Idempotency : Type 0 where
  pub producer_id : ℕ
  pub key : String
  pub comms_request_id : ℕ
  pub expires_at : ℕ

pub record Suppression : Type 0 where
  pub destination_hmac : List ℕ
  pub reason : String
  pub added_at : ℕ
  pub review_at : ℕ

pub record Consent : Type 0 where
  pub address_id : ℕ
  pub class : String
  pub opted_in : Bool

-- `customer_address`, and `CustomerAddress` of src/customer/model.rs.
pub record Address : Type 0 where
  pub id : ℕ
  pub customer_id : ℕ
  pub kind : String
  pub value_ciphertext : List ℕ
  pub value_hmac : List ℕ
  pub rank : ℕ
  pub label : Option String
  pub verified_at : Option ℕ
  pub active_from : ℕ
  pub active_to : Option ℕ
  pub source_updated_at : ℕ

-- `customer`.
pub record Customer : Type 0 where
  pub id : ℕ
  pub locale : String
  pub timezone : String
  pub provisional : Bool
  pub source_system : Option String
  pub source_updated_at : Option ℕ
  pub created_at : ℕ

-- `customer_external_id`.
pub record ExternalId : Type 0 where
  pub customer_id : ℕ
  pub system : String
  pub external_id : String

-- `customer_alias`.
pub record Alias : Type 0 where
  pub old_customer_id : ℕ
  pub customer_id : ℕ

-- `customer_dek`.
pub record CustomerDek : Type 0 where
  pub customer_id : ℕ
  pub wrapped_dek : String
  pub created_at : ℕ
  pub shredded_at : Option ℕ

-- `orphan_event`: receipts of a provider that no send matched yet. Json values are their texts.
pub record OrphanEvent : Type 0 where
  pub id : ℕ
  pub provider : String
  pub provider_ref : String
  pub occurred_at : ℕ
  pub event_type : String
  pub provider_status : Option String
  pub provider_payload_raw : Option (List ℕ)
  pub reconcile_attempts : ℕ

-- `webhook_receipt_staging`.
pub record StagingReceipt : Type 0 where
  pub id : ℕ
  pub provider : String
  pub provider_ref : String
  pub occurred_at : ℕ
  pub event_type : String
  pub provider_status : Option String
  pub provider_payload_raw : List ℕ

-- `template`. The body is a list of code points.
pub record Template : Type 0 where
  pub template_id : String
  pub version : ℕ
  pub channel : String
  pub locale : String
  pub body : List ℕ
  pub approved_by : String
  pub approved_at : ℕ

pub record Db : Type 0 where
  pub outbox : List OutboxRow
  pub ledger : List Request
  pub events : List Event
  pub idempotency : List Idempotency
  pub suppression : List Suppression
  pub consent : List Consent
  pub addresses : List Address
  pub customers : List Customer
  pub external_ids : List ExternalId
  pub aliases : List Alias
  pub deks : List CustomerDek
  pub templates : List Template
  pub orphans : List OrphanEvent
  pub staging : List StagingReceipt

abbrev pub empty_db : Db
empty_db = record {
  outbox = [];
  ledger = [];
  events = [];
  idempotency = [];
  suppression = [];
  consent = [];
  addresses = [];
  customers = [];
  external_ids = [];
  aliases = [];
  deks = [];
  templates = [];
  orphans = [];
  staging = [];
}
