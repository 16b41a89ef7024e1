-- ===== src/Otp/Repo.antt =====
-- src/otp/repo.rs: the audit record of a one-time password in the ledger and the event log.
use messgr.Base.{ℕ, String, none, some, [], ◌∷◌, ◌++◌, if◌then◌else◌, any}
use messgr.Store.Tables.{Db, Request, Event}
use messgr.Store.Exec.{Exec, ◌>>=◌, ◌>>◌, utc_now, execute, transaction}
use messgr.Dispatcher.Queries.{is_request, insert_event}
use messgr.Otp.Model.{AuditRecord, OtpError, database}

abbrev pub channel : String
channel = "sms"

abbrev pub class : String
class = "auth"

abbrev pub template_id : String
template_id = "otp"

abbrev pub template_version : ℕ
template_version = 1

abbrev pub audit_request : AuditRecord → ℕ → Request
audit_request r finalized_at = record {
  tenant_id = r.tenant_id;
  id = r.comms_request_id;
  created_at = r.created_at;
  customer_id = r.customer_id;
  channel = channel;
  class = class;
  template_id = template_id;
  template_version = template_version;
  campaign_id = none;
  destination_hmac = r.destination_hmac;
  destination_ciphertext = r.destination_ciphertext;
  payload_ciphertext = none;
  producer_id = r.producer_id;
  scheduled_for = none;
  expires_at = none;
  final_status = some r.final_status;
  finalized_at = some finalized_at;
}

abbrev pub audit_event : AuditRecord → Event
audit_event r = record {
  comms_request_id = r.comms_request_id;
  customer_id = r.customer_id;
  occurred_at = r.created_at;
  event_type = r.final_status;
  provider_ref = r.provider_ref;
  provider_status = r.provider_status;
  provider_payload = none;
}

-- `ON CONFLICT (created_at, id) DO NOTHING`
unfoldable pub insert_request : Request → Db → Db
insert_request r db =
    if any (is_request r.created_at r.id) db.ledger
    then db
    else record db { ledger = db.ledger ++ r ∷ [] }

unfoldable pub write_audit_record : AuditRecord → Exec OtpError (Unit {0})
write_audit_record r = transaction database (do
  finalized_at ← utc_now
  execute database (insert_request (audit_request r finalized_at))
  execute database (insert_event (audit_event r)))
