-- ===== src/Otp/Drain.antt =====
-- The drains of src/otp/buffer.rs and src/otp/pending.rs.
use messgr.Base.{ℕ, Bool, true, false, Option, none, some, List, [], ◌∷◌, if◌then◌else◌}
use messgr.Store.Exec.{Result, ok, err}
use messgr.Customers.Deks.{ResolveError}
use messgr.Otp.Model.{AuditRecord, PendingAuditRecord, OtpError}
use messgr.Otp.Repo.{write_audit_record}
use messgr.Otp.Service.{
  Env, Act, pure, ◌>>=◌, ◌>>◌, next_call, on_tenant, disk, DiskFault, write_lines,
}
use messgr.Otp.Handler.{persist_or_buffer, customer_key}

abbrev pub keep_failed : {A : Type 0} → Result OtpError (Unit {0}) → A → List A → List A
keep_failed (ok a) r rest = rest
keep_failed (err e) r rest = r ∷ rest

-- `fs::write` of the records that are left.
abbrev pub rewrite_buffer : List AuditRecord → Option DiskFault → Act (Unit {0})
rewrite_buffer remaining fault s = (tt, record s { buffer = write_lines remaining fault s.buffer })

abbrev pub rewrite_pending : List PendingAuditRecord → Option DiskFault → Act (Unit {0})
rewrite_pending remaining fault s =
    (tt, record s { pending = write_lines remaining fault s.pending })

module _ (env : Env) where
  abbrev pub write_open : AuditRecord → Bool → Act (Result OtpError (Unit {0}))
  write_open r true = on_tenant r.tenant_id (write_audit_record r)
  write_open r false = pure (err OtpError.database)

  unfoldable pub drain_record : AuditRecord → Act (Result OtpError (Unit {0}))
  drain_record r = next_call >>= λ call. write_open r (env.get_or_open call r.tenant_id)

  -- The records that are left.
  unfoldable pub drain_records : List AuditRecord → Act (List AuditRecord)
  drain_records [] = pure []
  drain_records (r ∷ rest) = drain_record r >>= λ answer.
      drain_records rest >>= λ remaining. pure (keep_failed answer r remaining)

  -- What `drain` does after it read the file.
  unfoldable pub drain_read : List AuditRecord → Act (Unit {0})
  drain_read records = drain_records records >>= λ remaining. disk >>= rewrite_buffer remaining

  abbrev pub drain_unless : Option DiskFault → Act (Unit {0})
  drain_unless (some fault) s = (tt, s)
  drain_unless none s = drain_read s.buffer.lines s

  -- `buffer::drain`
  unfoldable pub drain : Act (Unit {0})
  drain = disk >>= drain_unless

  abbrev pub audit_with : PendingAuditRecord → List ℕ → List ℕ → AuditRecord
  audit_with r hmac ciphertext = record {
    tenant_id = r.tenant_id;
    comms_request_id = r.comms_request_id;
    created_at = r.created_at;
    customer_id = r.customer_id;
    producer_id = r.producer_id;
    destination_hmac = hmac;
    destination_ciphertext = ciphertext;
    final_status = r.final_status;
    provider_ref = r.provider_ref;
    provider_status = r.provider_status;
  }

  abbrev pub seal_again : PendingAuditRecord → List ℕ → List ℕ → Option AuditRecord
  seal_again r dek destination =
      if env.is_utf8 destination
      then elim (env.encrypt dek (env.aad r.comms_request_id) destination) [
        | none ↦ none
        | some ciphertext ↦
            some (audit_with r (env.compute_hmac (env.pepper r.tenant_id) destination) ciphertext)
      ]
      else none

  abbrev pub recover : PendingAuditRecord → Result ResolveError (List ℕ) → Option AuditRecord
  recover r (err e) = none
  recover r (ok dek) =
      elim (env.decrypt (env.derive_key (env.pepper r.tenant_id)) (env.aad r.comms_request_id)
        r.destination_ciphertext) [ none ↦ none | some destination ↦ seal_again r dek destination ]

  abbrev pub recover_open : PendingAuditRecord → Bool → Act (Option AuditRecord)
  recover_open r false = pure none
  recover_open r true = customer_key env r.tenant_id r.customer_id >>= λ key. pure (recover r key)

  abbrev pub persist_recovered : Option AuditRecord → Act (Result OtpError (Unit {0}))
  persist_recovered none = pure (err OtpError.encryption)
  persist_recovered (some audit) = persist_or_buffer audit >> pure (ok tt)

  unfoldable pub drain_pending_record : PendingAuditRecord → Act (Result OtpError (Unit {0}))
  drain_pending_record r =
      next_call >>= λ call. recover_open r (env.get_or_open call r.tenant_id) >>= persist_recovered

  unfoldable pub drain_pending_records : List PendingAuditRecord → Act (List PendingAuditRecord)
  drain_pending_records [] = pure []
  drain_pending_records (r ∷ rest) = drain_pending_record r >>= λ answer.
      drain_pending_records rest >>= λ remaining. pure (keep_failed answer r remaining)

  abbrev pub drain_pending_unless : Option DiskFault → Act (Unit {0})
  drain_pending_unless (some fault) s = (tt, s)
  drain_pending_unless none s =
      (drain_pending_records s.pending.lines >>= λ remaining. disk >>= rewrite_pending remaining) s

  -- `pending::drain`
  unfoldable pub drain_pending : Act (Unit {0})
  drain_pending = disk >>= drain_pending_unless
