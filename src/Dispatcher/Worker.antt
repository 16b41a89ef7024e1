-- ===== src/Dispatcher/Worker.antt =====
-- src/dispatcher/worker.rs and the sender interface of src/sender/mod.rs: what the dispatcher
-- does with one claimed row. Each gate of `try_process` is a function that returns early or goes
-- on with the rest.
use messgr.Base.{
  ℕ, zero, suc, ◌+◌, ◌*◌, ◌/◌, ◌^◌, min, max, String, Bool, true, false, ◌&&◌, ◌||◌, Option, none,
  some, List, ◌∷◌, ltb, leb, if◌then◌else◌, ◌==◌, is_some, get_or, nat_eq, string_eq, option_eq,
  list_eq,
}
use messgr.Zone.{Zone}
use messgr.Store.Tables.{OutboxRow}
use messgr.Store.Exec.{
  next_call, World, Message, Result, ok, err, Exec, pure, raise, ◌>>=◌, ◌>>◌, utc_now,
}
use messgr.Quota.Tracker.{Key, QuotaDecision, admit, soft_breach, defer, check_and_record}
use messgr.QuietHours.Window.{QuietHoursPolicy, resolve_reschedule}
use messgr.Customers.Deks.{ResolveError, Keystore, get_or_create_dek}
use messgr.Dispatcher.Queries.{
  DispatchError, Terminal, dek, encryption, invalid_utf8, missing_request, missing_payload,
  is_suppressed, load_verified_at, record_event, is_consented, load_customer_timezone,
  load_ciphertexts, is_cancelled, reschedule_retry, write_terminal,
}

-- src/sender/mod.rs
pub record SendOutcome : Type 0 where
  pub provider_ref : String
  pub provider_status : String

pub data SenderError : Type 0 where
  http : SenderError
  provider : ℕ → SenderError

unfoldable pub is_retryable : SenderError → Bool
is_retryable http = true
is_retryable (provider status) = leb 500 status

-- What `DispatcherContext` brings in from elsewhere: the tenant's settings, the crates, the
-- customer keys and the provider. Their first argument, where it is a number, counts the calls.
pub record Context : Type 0 where
  pub enforce : Bool
  pub default_timezone : String
  pub quiet_hours_policy : Option QuietHoursPolicy
  pub quota_zone : Zone
  pub parse_zone : String → Option Zone
  pub random_range : ℕ → ℕ → ℕ
  pub keystore : Keystore
  pub aad : ℕ → List ℕ
  pub decrypt : List ℕ → List ℕ → List ℕ → Option (List ℕ)
  pub is_utf8 : List ℕ → Bool
  pub send : ℕ → Message → Result SenderError SendOutcome
  pub show_status : ℕ → String

abbrev pub max_send_attempts : ℕ
max_send_attempts = 8

abbrev pub backoff_base : ℕ
backoff_base = 30000

abbrev pub backoff_cap : ℕ
backoff_cap = 1800000

-- The delay before jitter. At 0 attempts the exponent -1 becomes 2^32 - 1, and the product
-- saturates.
unfoldable pub capped_delay : ℕ → ℕ
capped_delay zero = backoff_cap
capped_delay (suc n) = min (backoff_base * 2 ^ min n 6) backoff_cap

-- `backoff_delay`, for a random generator that is asked for a number up to its argument.
unfoldable pub backoff_delay : (ℕ → ℕ) → ℕ → ℕ
unfolding capped_delay
backoff_delay random_range attempts =
    capped_delay attempts + random_range (max (capped_delay attempts / 2) 1)

abbrev pub transactional : String
transactional = "transactional"

abbrev pub marketing : String
marketing = "marketing"

abbrev pub terminal : OutboxRow → String → Option String → Option String → Terminal
terminal row status ref provider_status = record {
  created_at = row.created_at;
  comms_request_id = row.comms_request_id;
  customer_id = row.customer_id;
  event_type = status;
  provider_ref = ref;
  provider_status = provider_status;
  final_status = status;
}

abbrev pub Step : Type 0
Step = Exec DispatchError (Unit {0})

-- The terminal write that ends a gate.
unfoldable pub stop : OutboxRow → String → Exec DispatchError (Unit {0})
stop row status = write_terminal (terminal row status none none)

abbrev pub is_expired : OutboxRow → ℕ → Bool
is_expired row now = elim row.expires_at [ none ↦ false | some t ↦ leb t now ]

unfoldable pub expiry_gate : OutboxRow → Step → Step
unfolding stop
expiry_gate row rest = do now ← utc_now; if is_expired row now then stop row "expired" else rest

unfoldable pub suppression_gate : OutboxRow → Step → Step
unfolding stop
suppression_gate row rest = do
  hit ← is_suppressed row.created_at row.comms_request_id
  if hit then stop row "suppressed_list" else rest

abbrev pub is_verifiable : OutboxRow → Bool
is_verifiable row = (row.class == transactional) || (row.class == marketing)

unfoldable pub verification_gate : Context → OutboxRow → Step → Step
unfolding stop
verification_gate ctx row rest =
    if is_verifiable row
    then (do
      verified ← load_verified_at row.address_id
      if is_some verified
          then rest
          else (if ctx.enforce
              then stop row "unverified_address"
              else record_event row.comms_request_id row.customer_id "unverified_address" >> rest))
    else rest

unfoldable pub consent_gate : OutboxRow → Step → Step
unfolding stop
consent_gate row rest =
    if row.class == marketing
    then (do
      opted_in ← is_consented row.address_id row.class
      if opted_in then rest else stop row "suppressed_consent")
    else rest

abbrev pub quota_key : OutboxRow → Key
quota_key row = record { producer_id = row.producer_id; channel = row.channel; class = row.class }

-- `ctx.quota.check_and_record`, on the tracker that all rows share.
unfoldable pub check_quota_now : Context → OutboxRow → Exec DispatchError QuotaDecision
check_quota_now ctx row = do
  now ← utc_now
  λ w.
      let (quota, decision) = check_and_record ctx.quota_zone w.quota (quota_key row) now in
      (ok decision, record w { quota = quota })

abbrev pub after_quota : OutboxRow → Step → QuotaDecision → Step
after_quota row rest admit = rest
after_quota row rest soft_breach = rest
after_quota row rest (defer next_attempt_at) = reschedule_retry row.comms_request_id next_attempt_at

unfoldable pub quota_gate : Context → OutboxRow → Step → Step
quota_gate ctx row rest = do decision ← check_quota_now ctx row; after_quota row rest decision

abbrev pub after_quiet : OutboxRow → Step → Option ℕ → Step
after_quiet row rest none = rest
after_quiet row rest (some next_attempt_at) = reschedule_retry row.comms_request_id next_attempt_at

abbrev pub quiet_hours : Context → OutboxRow → Step → Option QuietHoursPolicy → Step
quiet_hours ctx row rest none = rest
quiet_hours ctx row rest (some policy) = do
  timezone ← load_customer_timezone row.customer_id
  now ← utc_now
  call ← next_call
  after_quiet row rest (
      resolve_reschedule ctx.parse_zone (ctx.random_range call) now
        (get_or timezone ctx.default_timezone) ctx.default_timezone policy)

unfoldable pub quiet_gate : Context → OutboxRow → Step → Step
quiet_gate ctx row rest = quiet_hours ctx row rest ctx.quiet_hours_policy

abbrev pub or_raise : {A : Type 0} → Option A → DispatchError → Exec DispatchError A
or_raise none e = raise e
or_raise (some a) e = pure a

-- `DispatchError::from` of an error of the customer keys; an `expect` of theirs that fails ends the
-- processing of the row too.
abbrev pub or_dek : {A : Type 0} → Exec ResolveError A → Exec DispatchError A
or_dek m w = let (r, u) = m w in (elim r [ ok a ↦ ok a | err e ↦ err dek ], u)

unfoldable pub decrypt_text : Context → OutboxRow → List ℕ → List ℕ → Exec DispatchError (List ℕ)
decrypt_text ctx row key blob = do
  text ← or_raise (ctx.decrypt key (ctx.aad row.comms_request_id) blob) encryption
  if ctx.is_utf8 text then pure text else raise invalid_utf8

-- From `load_ciphertexts` to the decrypted destination and body.
unfoldable pub load_message : Context → OutboxRow → Exec DispatchError Message
unfolding decrypt_text
load_message ctx row = do
  found ← load_ciphertexts row.created_at row.comms_request_id
  texts ← or_raise found (missing_request row.comms_request_id)
  key ← or_dek (get_or_create_dek ctx.keystore row.customer_id)
  destination ← decrypt_text ctx row key texts.destination_ciphertext
  payload ← or_raise texts.payload_ciphertext (missing_payload row.comms_request_id)
  body ← decrypt_text ctx row key payload
  pure (record { destination = destination; body = body })

-- `ctx.sender.send`: the message has left, whatever the answer is.
unfoldable pub send_message :
    Context → Message → Exec DispatchError (Result SenderError SendOutcome)
send_message ctx m = do
  call ← next_call
  λ w. (ok (ctx.send call m), record w { sent = m ∷ w.sent })

abbrev pub provider_status_of : Context → SenderError → Option String
provider_status_of ctx http = none
provider_status_of ctx (provider status) = some (ctx.show_status status)

unfoldable pub after_send : Context → OutboxRow → Result SenderError SendOutcome → Step
unfolding is_retryable backoff_delay
after_send ctx row (ok outcome) =
    write_terminal (terminal row "sent" (some outcome.provider_ref) (some outcome.provider_status))
after_send ctx row (err e) =
    if is_retryable e && ltb row.attempts max_send_attempts
    then (do
      now ← utc_now
      call ← next_call
      reschedule_retry row.comms_request_id
          (now + backoff_delay (ctx.random_range call) row.attempts))
    else write_terminal (terminal row "failed" none (provider_status_of ctx e))

unfoldable pub send_stage : Context → OutboxRow → Step
unfolding stop
send_stage ctx row = do
  m ← load_message ctx row
  dead ← is_cancelled row.comms_request_id
  if dead then stop row "cancelled" else (do answer ← send_message ctx m; after_send ctx row answer)

unfoldable pub try_process : Context → OutboxRow → Step
unfolding expiry_gate suppression_gate verification_gate consent_gate quota_gate quiet_gate
    send_stage
try_process ctx row = expiry_gate row (
    suppression_gate row (
      verification_gate ctx row
        (consent_gate row (quota_gate ctx row (quiet_gate ctx row (send_stage ctx row))))))

-- An error is logged, and the loop goes on.
unfoldable pub process_one : Context → OutboxRow → World → World
process_one ctx row w = (try_process ctx row w).1
