-- ===== src/Otp/Handler.antt =====
-- src/otp/handler.rs.
use messgr.Base.{ℕ, String, Option, none, some, List, [], if◌then◌else◌}
use messgr.Store.Exec.{Result, ok, err}
use messgr.Store.Exec
use messgr.Dispatcher.Worker.{SendOutcome, SenderError}
use messgr.Customers.Deks.{ResolveError, get_or_create_dek}
use messgr.Otp.Model.{
  AuditRecord, PendingAuditRecord, SendOtpRequest, OtpError, auth_disabled, send_failed,
}
use messgr.Otp.Repo.{write_audit_record}
use messgr.Otp.Service.{
  Env, Act, pure, ◌>>=◌, ◌>>◌, next_call, on_tenant, append, append_pending, is_enabled,
}
use messgr.Otp.Provider.{get_or_fetch, send_to, provider_status}

-- `producer`, as the identity of the request resolved it.
pub record ProducerContext : Type 0 where
  pub producer_id : ℕ
  pub tenant_id : ℕ

abbrev pub or_append : AuditRecord → Result OtpError (Unit {0}) → Act (Unit {0})
or_append r (ok a) = pure tt
or_append r (err e) = append r

unfoldable pub persist_or_buffer : AuditRecord → Act (Unit {0})
persist_or_buffer r = on_tenant r.tenant_id (write_audit_record r) >>= or_append r

-- What the provider said of a send.
pub record Sent : Type 0 where
  pub final_status : String
  pub provider_ref : String
  pub provider_status : Option String

module _ (env : Env) where
  abbrev pub encrypt_destination :
      (tenant_id comms_request_id : ℕ) (destination : List ℕ)
      → Result ResolveError (List ℕ)
      → Option (List ℕ × List ℕ)
  encrypt_destination tenant_id id destination (err e) = none
  encrypt_destination tenant_id id destination (ok dek) =
      elim (env.encrypt dek (env.aad id) destination) [
        | none ↦ none
        | some ciphertext ↦ some (env.compute_hmac (env.pepper tenant_id) destination, ciphertext)
      ]

  -- The key of a customer, from the tenant's database and its keystore.
  unfoldable pub customer_key : (tenant_id customer_id : ℕ) → Act (Result ResolveError (List ℕ))
  customer_key tenant_id customer_id =
      on_tenant tenant_id (get_or_create_dek (env.keystore tenant_id) customer_id)

  unfoldable pub compute_destination_crypto :
      (tenant_id comms_request_id customer_id : ℕ) (destination : List ℕ)
      → Act (Option (List ℕ × List ℕ))
  compute_destination_crypto tenant_id id customer_id destination =
      customer_key tenant_id customer_id >>= λ key.
      pure (encrypt_destination tenant_id id destination key)

  abbrev pub pending_of :
      ProducerContext
      → (comms_request_id created_at customer_id : ℕ) → Sent
      → List ℕ
      → PendingAuditRecord
  pending_of p id created_at customer_id sent ciphertext = record {
    tenant_id = p.tenant_id;
    comms_request_id = id;
    created_at = created_at;
    customer_id = customer_id;
    producer_id = p.producer_id;
    destination_ciphertext = ciphertext;
    final_status = sent.final_status;
    provider_ref = sent.provider_ref;
    provider_status = sent.provider_status;
  }

  abbrev pub audit_of :
      ProducerContext
      → (comms_request_id created_at customer_id : ℕ) → Sent
      → List ℕ
      → List ℕ
      → AuditRecord
  audit_of p id created_at customer_id sent hmac ciphertext = record {
    tenant_id = p.tenant_id;
    comms_request_id = id;
    created_at = created_at;
    customer_id = customer_id;
    producer_id = p.producer_id;
    destination_hmac = hmac;
    destination_ciphertext = ciphertext;
    final_status = sent.final_status;
    provider_ref = sent.provider_ref;
    provider_status = sent.provider_status;
  }

  abbrev pub append_encrypted : (List ℕ → PendingAuditRecord) → Option (List ℕ) → Act (Unit {0})
  append_encrypted to_record none = pure tt
  append_encrypted to_record (some ciphertext) = append_pending (to_record ciphertext)

  abbrev pub persist_crypto :
      ProducerContext
      → (comms_request_id created_at customer_id : ℕ) (destination : List ℕ) → Sent
      → Option (List ℕ × List ℕ)
      → Act (Unit {0})
  persist_crypto p id created_at customer_id destination sent (some (hmac, ciphertext)) =
      persist_or_buffer (audit_of p id created_at customer_id sent hmac ciphertext)
  persist_crypto p id created_at customer_id destination sent none =
      append_encrypted (pending_of p id created_at customer_id sent)
        (env.encrypt (env.derive_key (env.pepper p.tenant_id)) (env.aad id) destination)

  unfoldable pub persist_send_outcome :
      ProducerContext → (comms_request_id created_at : ℕ) → SendOtpRequest → Sent → Act (Unit {0})
  persist_send_outcome p id created_at body sent =
      compute_destination_crypto p.tenant_id id body.customer_id body.destination
      >>= persist_crypto p id created_at body.customer_id body.destination sent

  abbrev pub sent_of : Result (Option SenderError) SendOutcome → Sent
  sent_of (ok outcome) = record {
    final_status = "sent";
    provider_ref = outcome.provider_ref;
    provider_status = some outcome.provider_status;
  }
  sent_of (err e) = record {
    final_status = "failed";
    provider_ref = "";
    provider_status = provider_status env e;
  }

  abbrev pub reply : ℕ → Result (Option SenderError) SendOutcome → Result OtpError ℕ
  reply id (ok outcome) = ok id
  reply id (err e) = err send_failed

  abbrev pub discarded :
      ProducerContext → (comms_request_id created_at : ℕ) → SendOtpRequest → AuditRecord
  discarded p id created_at body =
      audit_of p id created_at body.customer_id
        (record { final_status = "discarded"; provider_ref = ""; provider_status = none }) [] []

  unfoldable pub discard_otp :
      ProducerContext → (comms_request_id created_at : ℕ) → SendOtpRequest → Act (Result OtpError ℕ)
  discard_otp p id created_at body =
      persist_or_buffer (discarded p id created_at body) >> pure (err auth_disabled)

  unfoldable pub deliver_otp :
      ProducerContext → (comms_request_id created_at : ℕ) → SendOtpRequest → Act (Result OtpError ℕ)
  deliver_otp p id created_at body = get_or_fetch env p.tenant_id >>= λ configs.
      send_to env configs (record { destination = body.destination; body = body.body }) none
      >>= λ answer.
          persist_send_outcome p id created_at body (sent_of answer) >> pure (reply id answer)

  -- `Utc::now()`
  abbrev pub now : Act ℕ
  now s = let (r, w) = Exec.utc_now {E = OtpError} s.world in (w.clock, record s { world = w })

  unfoldable pub send_otp : ProducerContext → SendOtpRequest → Act (Result OtpError ℕ)
  send_otp p body = next_call >>= λ call. now >>= λ created_at. λ s.
      if is_enabled p.tenant_id s.flags
      then deliver_otp p (env.new_uuid call) created_at body s
      else discard_otp p (env.new_uuid call) created_at body s
