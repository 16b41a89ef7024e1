-- ===== src/Ingest/Create.antt =====
-- `create_comms` of src/ingest/handler.rs.
use messgr.Base.{
  ℕ, String, Bool, true, false, ◌&&◌, Option, none, some, List, if◌then◌else◌, ◌==◌, find, get_or,
  nat_eq, string_eq, option_eq, list_eq,
}
use messgr.Store.Tables.{Template}
use messgr.Store.Exec.{World, Result, ok, err, Exec, pure, raise, ◌>>=◌, ◌>>◌, query, next_call}
use messgr.KillSwitch.Model.{Target}
use messgr.KillSwitch.Cache.{ActiveSet, blocking_scope}
use messgr.Template.Render.{Text, RenderError, render}
use messgr.Customers.Deks.{ResolveError, Keystore, get_or_create_dek}
use messgr.Customers.Resolve.{Resolved, Destination, resolve}
use messgr.Ingest.Request.{
  IngestError, ResolutionInput, panic, missing_idempotency_key, template_not_found,
  kill_switch_engaged, build_resolution_input, validate_channel, validate_class, validate_schedule,
}
use messgr.Ingest.Repo.{
  Insert, InsertOutcome, created, replayed, find_idempotent_reply, insert_transactional,
}

pub record CreateCommsRequest : Type 0 where
  pub customer_id : Option ℕ
  pub external_id : Option String
  pub external_id_system : Option String
  pub destination : List ℕ
  pub channel : String
  pub class : String
  pub template_id : String
  pub template_version : ℕ
  pub locale : Option String
  pub campaign_id : Option String
  pub scheduled_for : Option ℕ
  pub expires_at : Option ℕ
  pub variables : List (Text × Text)

-- The tenant's context, with the switches that its cache holds.
pub record Tenant : Type 0 where
  pub id : ℕ
  pub default_locale : String
  pub default_timezone : String
  pub schedule_horizon_days : ℕ
  pub pepper : List ℕ
  pub kill_switches : ActiveSet

-- `Uuid::parse_str`, the keyed hash of a destination, and UTF-8.
pub record Crates : Type 0 where
  pub parse_uuid : String → Option ℕ
  pub compute_hmac : List ℕ → List ℕ → List ℕ
  pub as_bytes : Text → List ℕ

-- `kind_for_channel` of src/customer/model.rs; none where it is `unreachable!`.
unfoldable pub kind_for_channel : String → Option String
kind_for_channel channel =
    if channel == "sms"
    then some "msisdn"
    else if channel == "email"
    then some "email"
    else if channel == "whatsapp"
    then some "whatsapp"
    else none

-- `IngestError::from`
abbrev pub ingest_error : ResolveError → IngestError
ingest_error ResolveError.database = IngestError.database
ingest_error ResolveError.vault = IngestError.vault
ingest_error ResolveError.encryption = IngestError.encryption
ingest_error ResolveError.panic = IngestError.panic

abbrev pub lift_result : {A : Type 0} → Result ResolveError A × World → Result IngestError A × World
lift_result (ok a, w) = (ok a, w)
lift_result (err e, w) = (err (ingest_error e), w)

abbrev pub lift : {A : Type 0} → Exec ResolveError A → Exec IngestError A
lift m w = lift_result (m w)

abbrev pub or_raise : {A : Type 0} → Option A → IngestError → Exec IngestError A
or_raise none e = raise e
or_raise (some a) e = pure a

abbrev pub of_result : {A : Type 0} → Result IngestError A → Exec IngestError A
of_result (ok a) = pure a
of_result (err e) = raise e

-- Rendering always has an answer.
abbrev pub of_render : Option (Result RenderError Text) → Exec IngestError Text
of_render none = raise panic
of_render (some (ok text)) = pure text
of_render (some (err e)) = raise (IngestError.render e)

-- `filter(|v| !v.is_empty())`
abbrev pub filled : Option String → Option String
filled none = none
filled (some v) = if v == "" then none else some v

unfoldable pub find_template : String → ℕ → String → Exec IngestError (Option Template)
find_template template_id version locale = query IngestError.database (λ db.
    find
      (λ (t : Template).
        (t.template_id == template_id) && (t.version == version) && (t.locale == locale))
      db.templates)

-- 201 for a created request, 200 for a replayed one.
abbrev pub reply_to_insert : ℕ → InsertOutcome → Bool × ℕ
reply_to_insert id created = (true, id)
reply_to_insert id (replayed existing) = (false, existing)

module _ (crates : Crates) (keystore : Keystore) (tenant : Tenant) (producer_id : ℕ)
    (body : CreateCommsRequest) where
  abbrev pub insert_of : String → ℕ → Resolved → List ℕ → List ℕ → Insert
  insert_of key id resolved destination_ciphertext payload_ciphertext = record {
    idempotency_key = key;
    comms_request_id = id;
    tenant_id = tenant.id;
    customer_id = resolved.customer_id;
    channel = body.channel;
    class = body.class;
    priority = if body.class == "marketing" then 2 else 1;
    template_id = body.template_id;
    template_version = body.template_version;
    campaign_id = body.campaign_id;
    destination_hmac = crates.compute_hmac tenant.pepper body.destination;
    destination_ciphertext = destination_ciphertext;
    payload_ciphertext = payload_ciphertext;
    producer_id = producer_id;
    address_id = resolved.address_id;
    scheduled_for = body.scheduled_for;
    expires_at = body.expires_at;
  }

  abbrev pub destination_of : String → Destination
  destination_of kind = record {
    kind = kind;
    value_hmac = crates.compute_hmac tenant.pepper body.destination;
    destination = body.destination;
    locale = tenant.default_locale;
    timezone = tenant.default_timezone;
  }

  unfoldable pub accept_comms : String → ResolutionInput → Exec IngestError (Bool × ℕ)
  accept_comms key input = do
    kind ← or_raise (kind_for_channel body.channel) panic
    resolved ← lift (resolve keystore (destination_of kind) input)
    found ←
        find_template body.template_id body.template_version
          (get_or body.locale (get_or resolved.locale tenant.default_locale))
    template ← or_raise found template_not_found
    rendered_body ← of_render (render template.body body.variables)
    dek ← lift (get_or_create_dek keystore resolved.customer_id)
    call ← next_call
    destination_ciphertext ←
        or_raise (keystore.encrypt dek (keystore.aad (keystore.new_uuid call)) body.destination)
          IngestError.encryption
    payload_ciphertext ←
        or_raise
          (keystore.encrypt dek (keystore.aad (keystore.new_uuid call))
            (crates.as_bytes rendered_body))
          IngestError.encryption
    outcome ←
        insert_transactional (
          insert_of key (keystore.new_uuid call) resolved destination_ciphertext payload_ciphertext)
    pure (reply_to_insert (keystore.new_uuid call) outcome)

  abbrev pub target_of : Target
  target_of = record {
    channel = body.channel;
    producer_id = producer_id;
    campaign_id = body.campaign_id;
  }

  abbrev pub unless_blocked : String → ResolutionInput → Option String → Exec IngestError (Bool × ℕ)
  unless_blocked key input (some scope) = raise (kill_switch_engaged scope)
  unless_blocked key input none = accept_comms key input

  abbrev pub replay_or_accept : String → ResolutionInput → Option ℕ → Exec IngestError (Bool × ℕ)
  replay_or_accept key input (some existing) = pure (false, existing)
  replay_or_accept key input none =
      unless_blocked key input (blocking_scope crates.parse_uuid tenant.kill_switches target_of)

  -- Whether a request was created, and its id.
  unfoldable pub create_comms : Option String → Exec IngestError (Bool × ℕ)
  create_comms header = do
    key ← or_raise (filled header) missing_idempotency_key
    of_result (validate_channel body.channel)
    of_result (validate_class body.class body.campaign_id)
    input ←
        of_result (build_resolution_input body.customer_id body.external_id body.external_id_system)
    validate_schedule body.scheduled_for tenant.schedule_horizon_days
    existing ← find_idempotent_reply producer_id key
    replay_or_accept key input existing
