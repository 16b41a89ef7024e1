-- ===== src/Ingest/Repo.antt =====
-- src/ingest/repo.rs: the idempotency claim with the ledger and outbox rows in one transaction,
-- and cancellation.
use messgr.Base.{
  ℕ, ◌+◌, ◌*◌, String, Bool, true, false, ◌&&◌, Option, none, some, List, [], ◌∷◌, ◌++◌,
  if◌then◌else◌, ◌==◌, is_some, any, find, get_or, nat_eq, string_eq, option_eq, list_eq,
}
use messgr.Zone.{day_ms}
use messgr.Store.Tables.{Db, OutboxRow, Request, Idempotency}
use messgr.Store.Exec.{Exec, pure, raise, ◌>>=◌, ◌>>◌, utc_now, query, sql, execute, transaction}
use messgr.Ingest.Request.{IngestError, database, panic, comms_request_not_found}

abbrev pub idempotency_ttl_days : ℕ
idempotency_ttl_days = 30

pub data InsertOutcome : Type 0 where
  created : InsertOutcome
  replayed : ℕ → InsertOutcome

-- The arguments of `insert_transactional`.
pub record Insert : Type 0 where
  pub idempotency_key : String
  pub comms_request_id : ℕ
  pub tenant_id : ℕ
  pub customer_id : ℕ
  pub channel : String
  pub class : String
  pub priority : ℕ
  pub template_id : String
  pub template_version : ℕ
  pub campaign_id : Option String
  pub destination_hmac : List ℕ
  pub destination_ciphertext : List ℕ
  pub payload_ciphertext : List ℕ
  pub producer_id : ℕ
  pub address_id : ℕ
  pub scheduled_for : Option ℕ
  pub expires_at : Option ℕ

abbrev pub is_key : ℕ → String → Idempotency → Bool
is_key producer_id key i = (i.producer_id == producer_id) && (i.key == key)

abbrev pub reply_of : Option Idempotency → Option ℕ
reply_of none = none
reply_of (some i) = some i.comms_request_id

unfoldable pub reply : ℕ → String → Db → Option ℕ
reply producer_id key db = reply_of (find (is_key producer_id key) db.idempotency)

unfoldable pub find_idempotent_reply : ℕ → String → Exec IngestError (Option ℕ)
find_idempotent_reply producer_id key = query database (reply producer_id key)

abbrev pub idempotency_row : Insert → ℕ → Idempotency
idempotency_row i now = record {
  producer_id = i.producer_id;
  key = i.idempotency_key;
  comms_request_id = i.comms_request_id;
  expires_at = now + idempotency_ttl_days * day_ms;
}

abbrev pub ledger_row : Insert → ℕ → Request
ledger_row i now = record {
  tenant_id = i.tenant_id;
  id = i.comms_request_id;
  created_at = now;
  customer_id = i.customer_id;
  channel = i.channel;
  class = i.class;
  template_id = i.template_id;
  template_version = i.template_version;
  campaign_id = i.campaign_id;
  destination_hmac = i.destination_hmac;
  destination_ciphertext = i.destination_ciphertext;
  payload_ciphertext = some i.payload_ciphertext;
  producer_id = i.producer_id;
  scheduled_for = i.scheduled_for;
  expires_at = i.expires_at;
  final_status = none;
  finalized_at = none;
}

abbrev pub queue_row : Insert → ℕ → OutboxRow
queue_row i now = record {
  comms_request_id = i.comms_request_id;
  created_at = now;
  channel = i.channel;
  class = i.class;
  priority = i.priority;
  customer_id = i.customer_id;
  address_id = i.address_id;
  producer_id = i.producer_id;
  campaign_id = i.campaign_id;
  next_attempt_at = get_or i.scheduled_for now;
  expires_at = i.expires_at;
  cancelled_at = none;
  attempts = 0;
  leased_until = none;
}

-- `ON CONFLICT (producer_id, key) DO NOTHING`: whether a row was inserted.
unfoldable pub claim_key : Insert → ℕ → Db → Bool × Db
claim_key i now db =
    if is_some (reply i.producer_id i.idempotency_key db)
    then (false, db)
    else (true, record db { idempotency = db.idempotency ++ idempotency_row i now ∷ [] })

abbrev pub write_rows : Insert → ℕ → Bool → Exec IngestError Bool
write_rows i now false = pure false
write_rows i now true =
    execute database (λ db. record db { ledger = db.ledger ++ ledger_row i now ∷ [] })
    >> (execute database (λ db. record db { outbox = db.outbox ++ queue_row i now ∷ [] })
        >> pure true)

abbrev pub replay : Option ℕ → Exec IngestError InsertOutcome
replay none = raise panic
replay (some id) = pure (replayed id)

abbrev pub finish_insert : Insert → Bool → Exec IngestError InsertOutcome
finish_insert i true = pure created
finish_insert i false = find_idempotent_reply i.producer_id i.idempotency_key >>= replay

-- A lost claim wrote nothing, so that its rollback is a commit of no change. The new row's id is a
-- fresh uuid, which no row has.
unfoldable pub insert_transactional : Insert → Exec IngestError InsertOutcome
insert_transactional i = do
  now ← utc_now
  won ← transaction database (sql database (claim_key i now) >>= write_rows i now)
  finish_insert i won

pub data CancelOutcome : Type 0 where
  cancelled already_sent not_found : CancelOutcome

abbrev pub is_owned : ℕ → ℕ → OutboxRow → Bool
is_owned id producer_id row = (row.comms_request_id == id) && (row.producer_id == producer_id)

-- `SET cancelled_at = COALESCE(cancelled_at, now())`
unfoldable pub mark_cancelled : ℕ → ℕ → ℕ → List OutboxRow → List OutboxRow
mark_cancelled id producer_id now [] = []
mark_cancelled id producer_id now (row ∷ rest) =
    (if is_owned id producer_id row
      then record row { cancelled_at = some (get_or row.cancelled_at now) }
      else row)
    ∷ mark_cancelled id producer_id now rest

abbrev pub is_own_request : ℕ → ℕ → Request → Bool
is_own_request id producer_id r = (r.id == id) && (r.producer_id == producer_id)

abbrev pub status_of : Option Request → Option String
status_of none = none
status_of (some r) = r.final_status

unfoldable pub final_status_of : ℕ → ℕ → Db → Option String
final_status_of id producer_id db = status_of (find (is_own_request id producer_id) db.ledger)

abbrev pub resolved : Option String → CancelOutcome
resolved none = not_found
resolved (some status) = if status == "cancelled" then cancelled else CancelOutcome.already_sent

unfoldable pub cancel : ℕ → ℕ → Exec IngestError CancelOutcome
unfolding mark_cancelled final_status_of
cancel id producer_id = do
  now ← utc_now
  matched ← sql database (λ db. (
    any (is_owned id producer_id) db.outbox,
    record db { outbox = mark_cancelled id producer_id now db.outbox },
  ))
  if matched then pure cancelled else (do
    final_status ← query database (final_status_of id producer_id)
    pure (resolved final_status))

-- src/ingest/handler.rs cancel_comms, where success is `204 No Content`.
abbrev reply_to : CancelOutcome → Exec IngestError (Unit {0})
reply_to cancelled = pure tt
reply_to CancelOutcome.already_sent = raise IngestError.already_sent
reply_to not_found = raise comms_request_not_found

unfoldable pub cancel_comms : ℕ → ℕ → Exec IngestError (Unit {0})
cancel_comms id producer_id = do outcome ← cancel id producer_id; reply_to outcome
