-- ===== src/Ingest/Request.antt =====
-- The checks of src/ingest/handler.rs on a request's body, before any statement is sent.
use messgr.Base.{
  ℕ, ◌+◌, ◌*◌, String, Bool, false, ◌&&◌, ◌||◌, Option, none, some, ltb, if◌then◌else◌, ◌==◌,
  is_some, nat_eq, string_eq, option_eq, list_eq,
}
use messgr.Zone.{day_ms}
use messgr.Template.Render.{RenderError}
use messgr.Store.Exec.{Result, ok, err, Exec, pure, raise, ◌>>=◌, utc_now}

-- src/ingest/model.rs
pub data IngestError : Type 0 where
  invalid_class invalid_channel : String → IngestError
  campaign_id_on_transactional invalid_resolution_input : IngestError
  schedule_horizon_exceeded : ℕ → IngestError
  comms_request_not_found already_sent database : IngestError
  missing_idempotency_key template_not_found encryption vault : IngestError
  kill_switch_engaged : String → IngestError
  render : RenderError → IngestError
  missing_peer_certificate unknown_producer producer_disabled tenant_not_active
        tenant_not_configured :
      IngestError
  -- The `expect` of `insert_transactional`.
  panic : IngestError

-- src/customer/resolve.rs, how a request names its customer.
pub data ResolutionInput : Type 0 where
  explicit : ℕ → ResolutionInput
  external : String → String → ResolutionInput
  address_only : ResolutionInput

unfoldable pub build_resolution_input :
    Option ℕ → Option String → Option String → Result IngestError ResolutionInput
build_resolution_input (some id) none none = ok (explicit id)
build_resolution_input none (some external_id) (some system) = ok (external system external_id)
build_resolution_input none none none = ok address_only
build_resolution_input (some id) (some x) s = err invalid_resolution_input
build_resolution_input (some id) none (some s) = err invalid_resolution_input
build_resolution_input none (some x) none = err invalid_resolution_input
build_resolution_input none none (some s) = err invalid_resolution_input

unfoldable pub validate_channel : String → Result IngestError (Unit {0})
validate_channel value =
    if (value == "sms") || ((value == "email") || (value == "whatsapp"))
    then ok tt
    else err (invalid_channel value)

unfoldable pub validate_class : String → Option String → Result IngestError (Unit {0})
validate_class value campaign_id =
    if (value == "transactional") && is_some campaign_id
    then err campaign_id_on_transactional
    else if (value == "transactional") || (value == "marketing")
    then ok tt
    else err (invalid_class value)

abbrev too_late : Option ℕ → ℕ → ℕ → Bool
too_late none horizon_days now = false
too_late (some scheduled_for) horizon_days now = ltb (now + horizon_days * day_ms) scheduled_for

unfoldable pub validate_schedule : Option ℕ → ℕ → Exec IngestError (Unit {0})
validate_schedule scheduled_for horizon_days = do
  now ← utc_now
  if too_late scheduled_for horizon_days now
      then raise (schedule_horizon_exceeded horizon_days)
      else pure tt
