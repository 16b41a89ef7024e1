-- ===== src/Otp/Reply.antt =====
-- `send_otp` of src/otp/handler.rs: its replies, the sends it made and what it recorded of them.
use messgr.Base.{
  ℕ, ◌≡◌, ◌⊎◌, true, false, Option, none, some, List, [], ◌∷◌, ◌++◌, is_some, lookup, nat_eq,
  string_eq, option_eq, list_eq,
}
use messgr.Customers.Deks.{ResolveError}
use messgr.Store.Exec.{ok, Result, err, Message}
use messgr.Dispatcher.Worker.{SendOutcome, SenderError}
use messgr.Otp.Model.{
  PendingAuditRecord, SendOtpRequest, OtpError, auth_disabled, ResolvedProviderConfig,
}
use messgr.Otp.Service.{Service, Env, take_fault, is_enabled}
use messgr.Otp.Handler.{
  customer_key, ProducerContext, Sent, audit_of, pending_of, persist_crypto, sent_of, reply,
  discarded,
}
use messgr.Otp.Keys.{OnlyDeks}
use messgr.Otp.Filing.{Filed}
use messgr.Otp.Walk.{Idle, Untouched, Walked}

module _ (env : Env) (p : ProducerContext) (body : SendOtpRequest) where
  -- What happened to a send's record in the pending file: it is a line of it, or not, where the file
  -- ended in a fragment or the file operation failed.
  pub data Kept (r : PendingAuditRecord) (s s' : Service) : Type 0 where
    line :
        s'.databases ≡ s.databases
        → s'.buffer ≡ s.buffer
        → s'.pending ≡ record s.pending { lines = s.pending.lines ++ r ∷ [] }
        → Kept r s s'
    lost :
        s'.databases ≡ s.databases
        → s'.buffer ≡ s.buffer
        → s'.pending.lines ≡ s.pending.lines
        → (s.pending.torn ≡ true) ⊎ (is_some (take_fault s.disk_faults).0 ≡ true)
        → Kept r s s'

  abbrev pub seal_destination : ℕ → List ℕ → Option (List ℕ)
  seal_destination id key = env.encrypt key (env.aad id) body.destination

  -- The record of a send, given what became of the customer's key: encrypted under that key and logged
  -- or buffered; or, where there is no such key or it does not encrypt, encrypted under the key of the
  -- pending file and kept there.
  pub data Recorded (id time : ℕ) (sent : Sent) (key : Result ResolveError (List ℕ))
      (s s' : Service) : Type 0 where
    sealed :
        (dek ciphertext : List ℕ)
        → key ≡ ok dek
        → seal_destination id dek ≡ some ciphertext
        → Filed
            (audit_of env p id time body.customer_id sent
              (env.compute_hmac (env.pepper p.tenant_id) body.destination)
              ciphertext)
            s
            s'
        → Recorded id time sent key s s'
    pending :
        (ciphertext : List ℕ)
        → ((dek : List ℕ) → key ≡ ok dek → seal_destination id dek ≡ none)
        → seal_destination id (env.derive_key (env.pepper p.tenant_id)) ≡ some ciphertext
        → Kept (pending_of env p id time body.customer_id sent ciphertext) s s'
        → Recorded id time sent key s s'
    unencrypted :
        ((dek : List ℕ) → key ≡ ok dek → seal_destination id dek ≡ none)
        → seal_destination id (env.derive_key (env.pepper p.tenant_id)) ≡ none
        → Idle s s'
        → Recorded id time sent key s s'

  module _ (id time : ℕ) (sent : Sent) (key : Result ResolveError (List ℕ)) (s : Service) where
    abbrev persisted : Option (List ℕ × List ℕ) → Service
    persisted o = (persist_crypto env p id time body.customer_id body.destination sent o s).1

    abbrev crypto : Option (List ℕ) → Option (List ℕ × List ℕ)
    crypto o = elim o [
      | none ↦ none
      | some ciphertext ↦
          some (env.compute_hmac (env.pepper p.tenant_id) body.destination, ciphertext)
    ]

  abbrev message : Message
  message = record { destination = body.destination; body = body.body }

  -- A disabled tenant's request reaches no provider and is recorded as discarded; another's is tried
  -- at the tenant's cached providers, recorded as sent or failed, and answered accordingly. The
  -- service that the record is filed in differs from the first one by the sends, the cache and the
  -- customer's key.
  pub data Replied (s : Service) : Result OtpError ℕ → Service → Type 0 where
    disabled :
        (id time : ℕ) (t : Service) {s' : Service}
        → is_enabled p.tenant_id s.flags ≡ false
        → Untouched s t
        → Filed (discarded env p id time body) t s'
        → Replied s (err auth_disabled) s'
    tried :
        (id time : ℕ) (configs : List ResolvedProviderConfig)
        (answer : Result (Option SenderError) SendOutcome) (key : Result ResolveError (List ℕ))
        (t u v : Service) {s' : Service}
        → is_enabled p.tenant_id s.flags ≡ true
        → Untouched s t
        → lookup p.tenant_id t.providers ≡ some configs
        → Walked env configs message none t answer u
        → customer_key env p.tenant_id body.customer_id u ≡ (key, v)
        → OnlyDeks u v
        → Recorded id time (sent_of env answer) key v s'
        → Replied s (reply env id answer) s'
