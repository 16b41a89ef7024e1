-- ===== src/Dispatcher/Outcome.antt =====
-- What src/dispatcher/worker.rs try_process may do with a row, apart from how it does it: when it
-- may hand the message to the provider, for what reasons it may give the row up, and the ways in
-- which it may end.
use messgr.Base.{
  ℕ, ◌+◌, ◌≤◌, ◌<◌, String, ◌≡◌, true, false, ◌&&◌, Option, none, some, List, ◌∷◌, ltb, ◌==◌,
  is_some, get_or, nat_eq, string_eq, option_eq, list_eq,
}
use messgr.Store.Tables.{CustomerDek, Event, Db, OutboxRow}
use messgr.Store.Exec.{World, Message, Result, ok, err}
use messgr.Dispatcher.Atomic.{concluded}
use messgr.Dispatcher.Queries.{
  DispatchError, RequestCiphertexts, ciphertexts, suppressed, verified_at, consented, cancelled,
  customer_timezone, reschedule,
}
use messgr.Quota.Tracker.{defer, check_and_record}
use messgr.QuietHours.Window.{QuietHoursPolicy, resolve_reschedule}
use messgr.Dispatcher.Worker.{
  Context, SendOutcome, SenderError, is_expired, is_verifiable, marketing, quota_key, is_retryable,
  max_send_attempts, capped_delay, terminal, provider_status_of,
}

-- Only the events and the customer keys of the first database may differ in the second.
abbrev pub Noted : Db → Db → Type 0
Noted d d' =
    (events : List Event) × (deks : List CustomerDek) × (d'
      ≡ record d { events = events; deks = deks })

-- A world in the middle of a row's gates: nothing but an event or a customer's key was written since
-- `v`.
pub record Reached (v w : World) : Type 0 where
  pub noted : Noted v.db w.db
  pub sent : w.sent ≡ v.sent
  pub later : v.clock ≤ w.clock

-- The quota tracker admits the row at some time from `v` to `last`.
pub record WithinQuota (ctx : Context) (row : OutboxRow) (v : World) (last : ℕ) : Type 0 where
  pub now : ℕ
  pub not_before : v.clock ≤ now
  pub not_after : now ≤ last
  pub admitted :
      (next_attempt_at : ℕ)
      → ¬ ((check_and_record ctx.quota_zone v.quota (quota_key row) now).1 ≡ defer next_attempt_at)

-- The customer's local time is outside the quiet hours at some time from `v` to `last`.
pub record OutsideQuiet (ctx : Context) (row : OutboxRow) (v : World) (last : ℕ)
    (policy : QuietHoursPolicy) : Type 0 where
  pub now : ℕ
  pub not_before : v.clock ≤ now
  pub not_after : now ≤ last
  pub call : ℕ
  pub awake :
      resolve_reschedule ctx.parse_zone
        (ctx.random_range call)
        now
        (get_or (customer_timezone row.customer_id v.db) ctx.default_timezone)
        ctx.default_timezone
        policy
      ≡ none

module _ (ctx : Context) (row : OutboxRow) (v : World) where
  -- The conditions on which the message of a row may leave, checked from `v` to `last`.
  pub record Permitted (last : ℕ) : Type 0 where
    pub in_time : is_expired row v.clock ≡ false
    pub screened_at : ℕ
    pub not_before : v.clock ≤ screened_at
    pub not_after : screened_at ≤ last
    pub not_suppressed : suppressed row.created_at row.comms_request_id screened_at v.db ≡ false
    pub verified :
        is_verifiable row ≡ true
        → ctx.enforce ≡ true
        → is_some (verified_at row.address_id v.db) ≡ true
    pub opted_in : (row.class == marketing) ≡ true → consented row.address_id row.class v.db ≡ true
    pub within_quota : WithinQuota ctx row v last
    pub outside_quiet :
        (policy : QuietHoursPolicy)
        → ctx.quiet_hours_policy ≡ some policy
        → OutsideQuiet ctx row v last policy
    pub not_cancelled : cancelled row.comms_request_id v.db ≡ some false

  -- A message is the row's own: the plaintexts of its two ciphertexts under one customer key.
  pub record IsOwn (m : Message) : Type 0 where
    pub key : List ℕ
    pub texts : RequestCiphertexts
    pub payload : List ℕ
    pub found : ciphertexts row.created_at row.comms_request_id v.db ≡ some texts
    pub has_payload : texts.payload_ciphertext ≡ some payload
    pub destination :
        ctx.decrypt key (ctx.aad row.comms_request_id) texts.destination_ciphertext
        ≡ some m.destination
    pub body : ctx.decrypt key (ctx.aad row.comms_request_id) payload ≡ some m.body

  -- The reasons for which a row ends without a send, by the status recorded, for checks from `v` to
  -- `last`.
  pub data Reason (last : ℕ) : String → Type 0 where
    expired : {t : ℕ} → v.clock ≤ t → t ≤ last → is_expired row t ≡ true → Reason last "expired"
    suppressed_list :
        {t : ℕ}
        → v.clock ≤ t
        → t ≤ last
        → suppressed row.created_at row.comms_request_id t v.db ≡ true
        → Reason last "suppressed_list"
    unverified_address :
        is_verifiable row ≡ true
        → is_some (verified_at row.address_id v.db) ≡ false
        → ctx.enforce ≡ true
        → Reason last "unverified_address"
    suppressed_consent :
        (row.class == marketing) ≡ true
        → consented row.address_id row.class v.db ≡ false
        → Reason last "suppressed_consent"
    cancelled_late : cancelled row.comms_request_id v.db ≡ some true → Reason last "cancelled"

  -- Why a row is sent later: the quota tracker says so, or the quiet hours, at a time from `v` to
  -- `last`.
  pub data Deferral (last next_attempt_at : ℕ) : Type 0 where
    over_quota :
        (now : ℕ)
        → v.clock ≤ now
        → now ≤ last
        → (check_and_record ctx.quota_zone v.quota (quota_key row) now).1 ≡ defer next_attempt_at
        → Deferral last next_attempt_at
    in_quiet_hours :
        (policy : QuietHoursPolicy) (now call : ℕ)
        → ctx.quiet_hours_policy ≡ some policy
        → v.clock ≤ now
        → now ≤ last
        → resolve_reschedule ctx.parse_zone
            (ctx.random_range call)
            now
            (get_or (customer_timezone row.customer_id v.db) ctx.default_timezone)
            ctx.default_timezone
            policy
          ≡ some next_attempt_at
        → Deferral last next_attempt_at

  -- One message left: it was permitted by checks made before, and the row's own.
  pub record Delivered (m : Message) (w : World) : Type 0 where
    pub last : ℕ
    pub not_after : last ≤ w.clock
    pub permitted : Permitted last
    pub own : IsOwn m
    pub sent : w.sent ≡ m ∷ v.sent

  abbrev pub Rescheduled : ℕ → World → Type 0
  Rescheduled next_attempt_at w =
      (d : Db) × Noted v.db d
      × (w.db ≡ record d { outbox = reschedule row.comms_request_id next_attempt_at d.outbox })

  abbrev pub Concluded : String → Option String → Option String → World → Type 0
  Concluded status ref provider_status w =
      (d : Db) × Noted v.db d
      × ((now : ℕ) × (v.clock ≤ now)
          × (now ≤ w.clock)
          × (w.db ≡ concluded (terminal row status ref provider_status) now d))

  -- How the processing of a row may end. `waits` is an error before any message left,
  -- `unrecorded` one after it; in both the row stays in the queue with its lease.
  pub data Outcome : Result DispatchError (Unit {0}) → World → Type 0 where
    waits : {e : DispatchError} {w : World} → Noted v.db w.db → w.sent ≡ v.sent → Outcome (err e) w
    deferred :
        {w : World} (last next_attempt_at : ℕ)
        → Deferral last next_attempt_at
        → last ≤ w.clock
        → Rescheduled next_attempt_at w
        → w.sent ≡ v.sent
        → Outcome (ok tt) w
    given_up :
        {w : World} {status : String}
        → Reason w.clock status
        → Concluded status none none w
        → w.sent ≡ v.sent
        → Outcome (ok tt) w
    accepted :
        {w : World} (m : Message) (call : ℕ) (o : SendOutcome)
        → Delivered m w
        → ctx.send call m ≡ ok o
        → Concluded "sent" (some o.provider_ref) (some o.provider_status) w
        → Outcome (ok tt) w
    retried :
        {w : World} (m : Message) (call : ℕ) (e : SenderError) (next_attempt_at : ℕ)
        → Delivered m w
        → ctx.send call m ≡ err e
        → is_retryable e ≡ true
        → row.attempts < max_send_attempts
        → v.clock + capped_delay row.attempts ≤ next_attempt_at
        → Rescheduled next_attempt_at w
        → Outcome (ok tt) w
    rejected :
        {w : World} (m : Message) (call : ℕ) (e : SenderError)
        → Delivered m w
        → ctx.send call m ≡ err e
        → (is_retryable e && ltb row.attempts max_send_attempts) ≡ false
        → Concluded "failed" none (provider_status_of ctx e) w
        → Outcome (ok tt) w
    unrecorded :
        {e : DispatchError} {w : World} (m : Message)
        → Noted v.db w.db
        → Delivered m w
        → Outcome (err e) w
