-- ===== src/Otp/Model.antt =====
-- src/otp/model.rs, src/provider_config/model.rs, and the provider's credentials of src/otp/provider.rs.
use messgr.Base.{ℕ, String, Option, List}

pub record SendOtpRequest : Type 0 where
  pub customer_id : ℕ
  pub destination : List ℕ
  pub body : List ℕ

pub record AuditRecord : Type 0 where
  pub tenant_id : ℕ
  pub comms_request_id : ℕ
  pub created_at : ℕ
  pub customer_id : ℕ
  pub producer_id : ℕ
  pub destination_hmac : List ℕ
  pub destination_ciphertext : List ℕ
  pub final_status : String
  pub provider_ref : String
  pub provider_status : Option String

pub record PendingAuditRecord : Type 0 where
  pub tenant_id : ℕ
  pub comms_request_id : ℕ
  pub created_at : ℕ
  pub customer_id : ℕ
  pub producer_id : ℕ
  pub destination_ciphertext : List ℕ
  pub final_status : String
  pub provider_ref : String
  pub provider_status : Option String

pub data OtpError : Type 0 where
  missing_peer_certificate unknown_producer producer_disabled tenant_not_active
        tenant_not_configured auth_disabled send_failed database encryption vault dek :
      OtpError

pub record ProviderConfig : Type 0 where
  pub channel : String
  pub priority : ℕ
  pub provider : String
  pub credential_path : String
  pub rate_limit_per_sec : ℕ

pub record ResolvedProviderConfig : Type 0 where
  pub priority : ℕ
  pub credential_path : String
  pub api_key : String
