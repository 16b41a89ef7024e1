-- ===== src/Otp/Filing.antt =====
-- `persist_or_buffer` of src/otp/handler.rs: what becomes of an audit record.
use messgr.Base.{
  ℕ, zero, suc, ◌≡◌, refl, sym, ap, ◌∙◌, ◌⊎◌, inl, inr, Bool, true, false, ◌||◌, not, Option, none,
  some, List, [], ◌∷◌, ◌++◌, arith, ◌==◌, beq_refl, beq_eq, Bool-cases, is_some, nat_eq, string_eq,
  option_eq, list_eq,
}
use messgr.Store.Exec.{World, Result, ok, err}
use messgr.Otp.Model.{AuditRecord, OtpError}
use messgr.Otp.Repo.{write_audit_record}
use messgr.Otp.Service.{
  Service, on_tenant, set_database, take_fault, disk, append, append_line, add_line, File,
  DiskFault, unopened, cut,
}
use messgr.Otp.Handler.{persist_or_buffer, or_append}
use messgr.Otp.Log.{
  is_logged, Wrote, wrote, unwritten, written-stays, written-is_logged, write_audit_record-Wrote,
}

abbrev pub implies : Bool → Bool → Bool
implies a b = not a || b

abbrev pub logged_in : Service → AuditRecord → Bool
logged_in s r = is_logged r (s.databases r.tenant_id)

-- Only the log of the tenants may have changed, and no audit record left it.
pub record OnlyLogs (s s' : Service) : Type 0 where
  pub sent : s'.world.sent ≡ s.world.sent
  pub flags : s'.flags ≡ s.flags
  pub providers : s'.providers ≡ s.providers
  pub pending : s'.pending ≡ s.pending
  pub stays : (q : AuditRecord) → implies (logged_in s q) (logged_in s' q) ≡ true

implies_refl : (b : Bool) → implies b b ≡ true
implies_refl b = ground arith

pub implies_to : (a b : Bool) → (a ≡ true → b ≡ true) → implies a b ≡ true
implies_to true b h = ground (arith, h refl)
implies_to false b h = refl

pub implies_from : (a b : Bool) → implies a b ≡ true → a ≡ true → b ≡ true
implies_from a b h k = ground arith

pub OnlyLogs-refl : (s : Service) → OnlyLogs s s
OnlyLogs-refl s = record {
  sent = refl;
  flags = refl;
  providers = refl;
  pending = refl;
  stays = λ q. implies_refl (logged_in s q);
}

pub OnlyLogs-trans : {s t u : Service} → OnlyLogs s t → OnlyLogs t u → OnlyLogs s u
OnlyLogs-trans {s} {t} {u} h k = record {
  sent = k.sent ∙ h.sent;
  flags = k.flags ∙ h.flags;
  providers = k.providers ∙ h.providers;
  pending = k.pending ∙ h.pending;
  stays = λ q.
      implies_to (logged_in s q) (logged_in u q)
        (λ e. implies_from _ _ (k.stays q) (implies_from _ _ (h.stays q) e));
}

-- The write of a record to its tenant's database.
pub data Written (r : AuditRecord) (s : Service)
    : Result OtpError (Unit {0}) → Service → Type 0 where
  failed :
      {s' : Service}
      → OnlyLogs s s'
      → s'.buffer ≡ s.buffer
      → s'.disk_faults ≡ s.disk_faults
      → Written r s (err OtpError.database) s'
  done :
      {s' : Service}
      → OnlyLogs s s'
      → s'.buffer ≡ s.buffer
      → s'.disk_faults ≡ s.disk_faults
      → logged_in s' r ≡ true
      → Written r s (ok tt) s'

after_tenant : ℕ → Service → World → Service
after_tenant tenant_id s w = record s {
  world = w;
  databases = set_database tenant_id w.db s.databases;
}

only_logs :
    (tenant_id : ℕ) (s : Service) (w : World)
    → w.sent ≡ s.world.sent
    → ((q : AuditRecord) → is_logged q (s.databases tenant_id) ≡ true → is_logged q w.db ≡ true)
    → OnlyLogs s (after_tenant tenant_id s w)
unfolding after_tenant
only_logs tenant_id s w sent h = record {
  sent = sent;
  flags = refl;
  providers = refl;
  pending = refl;
  stays = λ q. elim (Bool-cases (q.tenant_id == tenant_id)) [
    | inl e ↦ implies_to (logged_in s q) (logged_in (after_tenant tenant_id s w) q) (λ k.
        let same = ap (λ t. is_logged q (s.databases t)) (beq_eq q.tenant_id tenant_id e) in
        rw e (h q (sym same ∙ k)))
    | inr e ↦ implies_to (logged_in s q) (logged_in (after_tenant tenant_id s w) q) (λ k. rw e k)
  ];
}

at_tenant :
    (r : AuditRecord) (s : Service) (w : World)
    → logged_in (after_tenant r.tenant_id s w) r ≡ is_logged r w.db
unfolding after_tenant
at_tenant r s w = rw (beq_refl r.tenant_id) refl

after_write :
    (r : AuditRecord) (s : Service) {answer : Result OtpError (Unit {0})} {w : World}
    → Wrote r (record s.world { db = s.databases r.tenant_id }) answer w
    → Written r s answer (after_tenant r.tenant_id s w)
unfolding after_tenant
after_write r s {w = w} (unwritten d sent) =
    failed (only_logs r.tenant_id s w sent (λ q k. ap (is_logged q) d ∙ k)) refl refl
after_write r s {w = w} (wrote t d sent) =
    done
      (only_logs r.tenant_id s w sent
        (λ q k. ap (is_logged q) d ∙ written-stays q r t (s.databases r.tenant_id) k))
      refl refl
      (at_tenant r s w ∙ ap (is_logged r) d ∙ written-is_logged r t (s.databases r.tenant_id))

pub on_tenant-Written :
    (r : AuditRecord) (s : Service)
    → let out = on_tenant r.tenant_id (write_audit_record r) s in Written r s out.0 out.1
unfolding on_tenant after_tenant
on_tenant-Written r s = after_write r s (write_audit_record-Wrote r _)

-- A record is logged, or a line of the file, or neither, where the file ended in a fragment or the
-- file operation failed.
pub data Filed (r : AuditRecord) (s : Service) (s' : Service) : Type 0 where
  logged : OnlyLogs s s' → s'.buffer ≡ s.buffer → logged_in s' r ≡ true → Filed r s s'
  buffered :
      OnlyLogs s s'
      → s'.buffer ≡ record s.buffer { lines = s.buffer.lines ++ r ∷ [] }
      → Filed r s s'
  lost :
      OnlyLogs s s'
      → s'.buffer.lines ≡ s.buffer.lines
      → (s.buffer.torn ≡ true) ⊎ (is_some (take_fault s.disk_faults).0 ≡ true)
      → Filed r s s'

module _ (r : AuditRecord) (s s' : Service) (logs : OnlyLogs s s') where
  refiled :
      (file : File AuditRecord) (faults : List (Option DiskFault))
      → OnlyLogs s (record s' { buffer = file; disk_faults = faults })
  refiled file faults = record {
    sent = logs.sent;
    flags = logs.flags;
    providers = logs.providers;
    pending = logs.pending;
    stays = logs.stays;
  }

  added :
      (torn : Bool) (lines : List AuditRecord) (faults : List (Option DiskFault))
      → s.buffer ≡ record { lines = lines; torn = torn }
      → Filed r s (record s' {
        buffer = add_line r (record { lines = lines; torn = torn });
        disk_faults = faults;
      })
  added true lines faults e =
      lost (refiled _ faults) (ap (λ (f : File AuditRecord). f.lines) (sym e))
        (inl (ap (λ (f : File AuditRecord). f.torn) e))
  added false lines faults e =
      buffered (refiled _ faults)
        (ap (λ (f : File AuditRecord). record f { lines = f.lines ++ r ∷ [] }) (sym e))

  appended :
      (fault : Option DiskFault) (file : File AuditRecord) (faults : List (Option DiskFault))
      → s.buffer ≡ file
      → (take_fault s.disk_faults).0 ≡ fault
      → Filed r s (record s' { buffer = append_line r fault file; disk_faults = faults })
  appended none file faults e h = added file.torn file.lines faults e
  appended (some unopened) file faults e h =
      lost (refiled _ faults) (ap (λ (f : File AuditRecord). f.lines) (sym e)) (inr (ap is_some h))
  appended (some (cut zero fragment)) file faults e h =
      lost (refiled _ faults) (ap (λ (f : File AuditRecord). f.lines) (sym e)) (inr (ap is_some h))
  appended (some (cut (suc n) fragment)) file faults e h = added file.torn file.lines faults e

  append-Filed : s'.buffer ≡ s.buffer → s'.disk_faults ≡ s.disk_faults → Filed r s (append r s').1
  unfolding append disk
  append-Filed same faults =
      appended _ s'.buffer _ (sym same) (ap (λ fs. (take_fault fs).0) (sym faults))

filed :
    (r : AuditRecord) (s : Service) {answer : Result OtpError (Unit {0})} {s' : Service}
    → Written r s answer s'
    → Filed r s (or_append r answer s').1
filed r s {s' = s'} (failed logs same faults) = append-Filed r s s' logs same faults
filed r s (done logs same faults is) = logged logs same is

pub persist_or_buffer-Filed : (r : AuditRecord) (s : Service) → Filed r s (persist_or_buffer r s).1
unfolding persist_or_buffer
persist_or_buffer-Filed r s = filed r s (on_tenant-Written r s)
