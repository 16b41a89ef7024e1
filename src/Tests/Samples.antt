-- ===== src/Tests/Samples.antt =====
-- Data that the tests share: switches, rows and a world with one queued message.
use messgr.Base.{
  ℕ, ◌+◌, String, true, false, Option, none, some, [], ◌∷◌, if◌then◌else◌, ◌==◌, nat_eq, string_eq,
  option_eq, list_eq,
}
use messgr.KillSwitch.Scope
use messgr.KillSwitch.Model.{KillSwitch, PlatformKillSwitch, Target}
use messgr.KillSwitch.Cache.{ActiveSet}
use messgr.Store.Tables.{Db, OutboxRow, Request, empty_db}
use messgr.Store.Exec.{World, ok}
use messgr.Zone.{utc}
use messgr.Customers.Deks.{Keystore}
use messgr.Dispatcher.Worker.{Context}

abbrev pub parse_uuid : String → Option ℕ
parse_uuid s = if s == "7" then some 7 else none

abbrev pub switch_on : ℕ → String → Option String → KillSwitch
switch_on id scope scope_key = record {
  id = id;
  scope = scope;
  scope_key = scope_key;
  on_queued = Scope.hold;
  engaged_by = "ops";
  engaged_at = 10;
  reason = "incident";
  released_by = none;
  released_at = none;
}

abbrev pub sms_switch : KillSwitch
sms_switch = switch_on 1 Scope.channel (some "sms")

abbrev pub producer_switch : KillSwitch
producer_switch = switch_on 2 Scope.producer_channel (some "7:sms")

abbrev pub platform_switch : PlatformKillSwitch
platform_switch = record {
  id = 3;
  scope = Scope.platform;
  tenant_id = none;
  engaged_by = "provider";
  engaged_at = 5;
  reason = "outage";
  released_by = none;
  released_at = none;
}

abbrev pub one_switch : ActiveSet
one_switch = record { switches = sms_switch ∷ []; platform_ids = [] }

abbrev pub sms_target : Target
sms_target = record { channel = "sms"; producer_id = 7; campaign_id = none }

abbrev pub queued_row : OutboxRow
queued_row = record {
  comms_request_id = 100;
  created_at = 50;
  channel = "sms";
  class = "transactional";
  priority = 1;
  customer_id = 20;
  address_id = 30;
  producer_id = 7;
  campaign_id = none;
  next_attempt_at = 60;
  expires_at = some 100000;
  cancelled_at = none;
  attempts = 1;
  leased_until = none;
}

abbrev pub ledger_row : Request
ledger_row = record {
  tenant_id = 1;
  id = 100;
  created_at = 50;
  customer_id = 20;
  channel = "sms";
  class = "transactional";
  template_id = "welcome";
  template_version = 1;
  campaign_id = none;
  destination_hmac = 1 ∷ [];
  destination_ciphertext = 2 ∷ [];
  payload_ciphertext = some (3 ∷ []);
  producer_id = 7;
  scheduled_for = none;
  expires_at = some 100000;
  final_status = none;
  finalized_at = none;
}

abbrev pub one_queued : Db
one_queued = record empty_db { outbox = queued_row ∷ []; ledger = ledger_row ∷ [] }

abbrev pub world_with : Db → World
world_with db = record {
  db = db;
  quota = record { config = []; counters = [] };
  sent = [];
  clock = 1000;
  faults = [];
  elapses = [];
  calls = 0;
}

abbrev pub keystore : Keystore
keystore = record {
  cached = λ call id. none;
  create_dek = λ call. some (record { plaintext = 9 ∷ []; wrapped = "w" });
  unwrap_dek = λ call wrapped. some (9 ∷ []);
  encrypt = λ key aad text. some text;
  aad = λ id. id ∷ [];
  new_uuid = λ call. 700 + call;
}

-- A context whose crates and provider always answer well.
abbrev pub context : Context
context = record {
  enforce = false;
  default_timezone = "UTC";
  quiet_hours_policy = none;
  quota_zone = utc;
  parse_zone = λ s. some utc;
  random_range = λ call n. 0;
  keystore = keystore;
  aad = λ id. id ∷ [];
  decrypt = λ key aad text. some text;
  is_utf8 = λ text. true;
  send = λ call m. ok (record { provider_ref = "ref-1"; provider_status = "queued" });
  show_status = λ n. "500";
}
