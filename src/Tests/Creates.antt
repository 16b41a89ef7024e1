-- ===== src/Tests/Creates.antt =====
-- Tests of the creation of requests.
use messgr.Base.{◌≡◌, refl, true, ◌||◌, none, some, [], ◌∷◌, is_some}
use messgr.Store.Tables.{Db, empty_db}
use messgr.Store.Exec.{utc_now, query, sql, execute, transaction, next_call, ok}
use messgr.Store.Steps.{Ends}
use messgr.KillSwitch.Model.{matches}
use messgr.KillSwitch.Cache.{blocking_scope}
use messgr.Ingest.Request.{
  validate_channel, validate_class, build_resolution_input, validate_schedule,
}
use messgr.Ingest.Repo.{reply, find_idempotent_reply, insert_transactional, claim_key}
use messgr.Ingest.Create.{
  Crates, Tenant, CreateCommsRequest, create_comms, accept_comms, kind_for_channel, find_template,
}
use messgr.Ingest.Front.{Unchanged, create_comms-Unchanged}
use messgr.Customers.Deks.{get_or_create_dek, find_dek, create_dek, unwrap_dek, insert_dek}
use messgr.Customers.Repo.{find_active_address_by_hmac, insert_customer, insert_address}
use messgr.Customers.Resolve.{resolve, mint_provisional_customer_and_address, transaction_if}
use messgr.Template.Render.{render, render_from, find_double}
use messgr.Tests.Samples.{keystore, parse_uuid, one_switch, world_with}

abbrev pub crates : Crates
crates = record {
  parse_uuid = parse_uuid;
  compute_hmac = λ pepper text. text;
  as_bytes = λ text. text;
}

abbrev pub tenant : Tenant
tenant = record {
  id = 1;
  default_locale = "en";
  default_timezone = "UTC";
  schedule_horizon_days = 30;
  pepper = [];
  kill_switches = one_switch;
}

abbrev pub calm_tenant : Tenant
calm_tenant = record tenant { kill_switches = record { switches = []; platform_ids = [] } }

abbrev pub sms_request : CreateCommsRequest
sms_request = record {
  customer_id = none;
  external_id = none;
  external_id_system = none;
  destination = 5 ∷ [];
  channel = "sms";
  class = "transactional";
  template_id = "welcome";
  template_version = 1;
  locale = none;
  campaign_id = none;
  scheduled_for = none;
  expires_at = none;
  variables = [];
}

abbrev pub template_db : Db
template_db = record empty_db {
  templates =
      record {
        template_id = "welcome";
        version = 1;
        channel = "sms";
        locale = "en";
        body = 72 ∷ [];
        approved_by = "ops";
        approved_at = 1;
      }
      ∷ [];
}

is_blocked :
    (is_some (reply 7 "k1" template_db)
      || is_some (
          blocking_scope parse_uuid one_switch
            (record { channel = "sms"; producer_id = 7; campaign_id = none })))
    ≡ true
unfolding reply blocking_scope matches
is_blocked = refl

create_comms-Unchanged_example :
    Ends
      (Unchanged 7 "k1" (world_with template_db))
      (create_comms crates keystore tenant 7 sms_request (some "k1"))
      (world_with template_db)
create_comms-Unchanged_example =
    create_comms-Unchanged crates keystore tenant 7 sms_request "k1" (world_with template_db)
      is_blocked

creates :
    (create_comms crates keystore calm_tenant 7 sms_request (some "k1") (world_with template_db)).0
    ≡ ok (true, 705)
unfolding create_comms validate_channel validate_class build_resolution_input validate_schedule
    utc_now find_idempotent_reply query sql reply blocking_scope accept_comms kind_for_channel
    resolve find_active_address_by_hmac mint_provisional_customer_and_address next_call create_dek
    transaction_if execute insert_customer insert_address insert_dek find_template render
    render_from find_double get_or_create_dek find_dek unwrap_dek insert_transactional transaction
    claim_key
creates = refl
