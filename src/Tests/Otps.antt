-- ===== src/Tests/Otps.antt =====
-- Tests of the one-time-password service.
use messgr.Base.{
  ℕ, ◌+◌, ◌≡◌, refl, true, false, none, some, [], ◌∷◌, if◌then◌else◌, ◌==◌, All, lookup, nat_eq,
  string_eq, option_eq, list_eq,
}
use messgr.Store.Tables.{empty_db}
use messgr.Store.Exec.{transaction, execute, sql, utc_now, ok, err, World, Result}
use messgr.Store.Steps.{Ends}
use messgr.Otp.Model.{AuditRecord, SendOtpRequest, ProviderConfig, OtpError}
use messgr.Otp.Service.{is_enabled, next_call, Service, Env, disk, on_tenant, unopened}
use messgr.Otp.Handler.{deliver_otp, ProducerContext, send_otp}
use messgr.Otp.Repo.{write_audit_record, insert_request}
use messgr.Otp.Drain.{drain, drain_read, drain_records, drain_record}
use messgr.Otp.Log.{written, write_audit_record-again}
use messgr.Otp.Drained.{Drained, drain-Drained}
use messgr.Otp.Filing.{logged_in}
use messgr.Otp.Emptied.{drain-empties}
use messgr.Otp.Race.{with_buffer, drain_read-forgets}
use messgr.Dispatcher.Worker.{provider as rejected}
use messgr.Tests.Samples.{keystore, world_with}
use messgr.Otp.Provider.{send_to, split_kv_path, resolve_configs, resolve_all, get_or_fetch}
use messgr.Dispatcher.Queries.{insert_event}

abbrev pub sms_provider : ℕ → ProviderConfig
sms_provider n = record {
  channel = "sms";
  priority = n;
  provider = "twilio";
  credential_path = "secret/data/acme/sms";
  rate_limit_per_sec = 10;
}

-- The first provider refuses and the second takes every message.
abbrev pub env : Env
env = record {
  new_uuid = λ call. 500 + call;
  get_or_open = λ call tenant. true;
  list_configs = λ call tenant. some (sms_provider 1 ∷ sms_provider 2 ∷ []);
  read_provider_credential = λ call path. some "key";
  keystore = λ tenant. keystore;
  pepper = λ tenant. 8 ∷ [];
  derive_key = λ pepper. 7 ∷ [];
  compute_hmac = λ pepper text. text;
  aad = λ id. id ∷ [];
  encrypt = λ key aad text. some text;
  decrypt = λ key aad text. some text;
  is_utf8 = λ text. true;
  send = λ call config m.
      if config.priority == 1
      then err (rejected 500)
      else ok (record { provider_ref = "ref-9"; provider_status = "queued" });
  show_status = λ n. "500";
}

abbrev pub record_of : ℕ → AuditRecord
record_of id = record {
  tenant_id = 1;
  comms_request_id = id;
  created_at = 900;
  customer_id = 20;
  producer_id = 7;
  destination_hmac = 1 ∷ [];
  destination_ciphertext = 2 ∷ [];
  final_status = "sent";
  provider_ref = "ref-8";
  provider_status = none;
}

abbrev pub service : Service
service = record {
  world = world_with empty_db;
  databases = λ t. empty_db;
  flags = [];
  providers = [];
  buffer = record { lines = record_of 400 ∷ []; torn = false };
  pending = record { lines = []; torn = false };
  disk_faults = [];
}

abbrev pub producer : ProducerContext
producer = record { producer_id = 7; tenant_id = 1 }

abbrev pub code_request : SendOtpRequest
code_request = record { customer_id = 20; destination = 5 ∷ []; body = 6 ∷ [] }

drain-Drained_example : Drained env service (drain env service).1
drain-Drained_example = drain-Drained env service

works : ¬ ((disk (drain_records env (record_of 400 ∷ []) service).1).0 ≡ some unopened)
unfolding drain_records drain_record on_tenant next_call disk write_audit_record transaction execute
    sql utc_now
works e = cc e

drain_read-forgets_example :
    drain_read env
      (record_of 400 ∷ [])
      (with_buffer (record { lines = record_of 400 ∷ record_of 401 ∷ []; torn = false }) service)
    ≡ drain_read env (record_of 400 ∷ []) service
drain_read-forgets_example =
    drain_read-forgets env (record_of 400 ∷ []) (record_of 401 ∷ []) service works

write_audit_record-again_example :
    Ends
      (λ (answer : Result OtpError (Unit {0})) (w : World).
        w.db ≡ written (record_of 400) 950 empty_db)
      (write_audit_record (record_of 400))
      (world_with (written (record_of 400) 950 empty_db))
unfolding insert_request insert_event
write_audit_record-again_example =
    write_audit_record-again (record_of 400) (world_with (written (record_of 400) 950 empty_db))
      refl

tries_both : (send_otp env producer code_request service).0 ≡ ok 500
unfolding send_otp deliver_otp get_or_fetch resolve_all resolve_configs split_kv_path send_to
    next_call utc_now is_enabled lookup
tries_both = refl

drain-empties_example :
    ((drain env service).1.buffer.lines ≡ [])
    × All (λ r. logged_in (drain env service).1 r ≡ true) (record_of 400 ∷ [])
drain-empties_example = drain-empties env (λ call tenant. refl) service refl refl
