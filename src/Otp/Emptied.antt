-- ===== src/Otp/Emptied.antt =====
-- That a drain of src/otp/buffer.rs succeeds once the outage is over.
use messgr.Base.{
  ℕ, ◌≡◌, refl, sym, ap, subst, ◌∙◌, Bool, true, false, Option, none, some, List, [], ◌∷◌, is_some,
  All,
}
use messgr.Store.Exec.{World, ok, transaction, execute, sql, utc_now}
use messgr.Otp.Model.{AuditRecord}
use messgr.Otp.Repo.{write_audit_record}
use messgr.Store.Tables.{Db}
use messgr.Otp.Log.{is_logged}
use messgr.Otp.Service.{DiskFault, take_fault, Service, Env, on_tenant, next_call, disk}
use messgr.Otp.Drain.{
  keep_failed, rewrite_buffer, write_open, drain_record, drain_records, drain_read, drain_unless,
  drain,
}
use messgr.Otp.Filing.{logged_in}
use messgr.Otp.Drained.{
  Remaining, none_left, in_log, left, unread, rewritten, Drained, drain-Drained,
}

write_works :
    (r : AuditRecord) (v : World)
    → v.faults ≡ []
    → let out = write_audit_record r v in (out.0 ≡ ok tt) × (out.1.faults ≡ [])
unfolding write_audit_record transaction execute sql utc_now
write_works r v h = rw h (refl, refl)

record Calm (s : Service) : Type 0 where
  pub faults : s.world.faults ≡ []
  pub disk_faults : s.disk_faults ≡ []

module _ (env : Env) (opens : (call tenant_id : ℕ) → env.get_or_open call tenant_id ≡ true) where
  open_works :
      (r : AuditRecord) (b : Bool) (s : Service)
      → b ≡ true
      → Calm s
      → let out = write_open env r b s in (out.0 ≡ ok tt) × Calm out.1
  unfolding on_tenant
  open_works r false s e h = absurd (cc e)
  open_works r true s e h =
      let (done, calm) = write_works r (record s.world { db = s.databases r.tenant_id }) h.faults in
      (done, record { faults = calm; disk_faults = h.disk_faults })

  record_works :
      (r : AuditRecord) (s : Service)
      → Calm s
      → let out = drain_record env r s in (out.0 ≡ ok tt) × Calm out.1
  unfolding drain_record next_call
  record_works r s h =
      open_works r (env.get_or_open s.world.calls r.tenant_id) _ (opens s.world.calls r.tenant_id)
        (record { faults = h.faults; disk_faults = h.disk_faults })

  records_work :
      (rs : List AuditRecord) (s : Service)
      → Calm s
      → let out = drain_records env rs s in (out.0 ≡ []) × Calm out.1
  unfolding drain_records
  records_work [] s h = (refl, h)
  records_work (r ∷ rest) s h =
      let (done, calm) = record_works r s h in
      let (empty, calm') = records_work rest (drain_record env r s).1 calm in
      (
        ap (λ answer. keep_failed answer r (drain_records env rest (drain_record env r s).1).0) done
            ∙ empty,
        calm',
      )

  no_fault : {fs : List (Option DiskFault)} → fs ≡ [] → (take_fault fs).0 ≡ none
  no_fault h = ap (λ (gs : List (Option DiskFault)). (take_fault gs).0) h

  rewrite_works :
      (qs : List AuditRecord) (fault : Option DiskFault) (s : Service)
      → qs ≡ []
      → fault ≡ none
      → (rewrite_buffer qs fault s).1.buffer.lines ≡ []
  rewrite_works qs none s e h = e
  rewrite_works qs (some fault) s e h = absurd (cc h)

  unless_works :
      (fault : Option DiskFault) (s : Service)
      → fault ≡ none
      → Calm s
      → (drain_unless env fault s).1.buffer.lines ≡ []
  unfolding drain_read disk
  unless_works (some fault) s e h = absurd (cc e)
  unless_works none s e h =
      let (empty, calm) = records_work s.buffer.lines s h in
      rewrite_works (drain_records env s.buffer.lines s).0 _
        (disk (drain_records env s.buffer.lines s).1).1 empty (no_fault calm.disk_faults)

  empties :
      (s : Service) → s.world.faults ≡ [] → s.disk_faults ≡ [] → (drain env s).1.buffer.lines ≡ []
  unfolding drain disk
  empties s h k = unless_works (take_fault s.disk_faults).0 _ (no_fault k) (record {
    faults = h;
    disk_faults = ap (λ (gs : List (Option DiskFault)). (take_fault gs).1) k;
  })

  none_failed :
      {u s : Service} {rs qs : List AuditRecord}
      → Calm s
      → Remaining env u s rs qs
      → All (λ r. logged_in u r ≡ true) rs
  none_failed h none_left = tt
  none_failed {s = s} h (in_log {r = r} e is k) = (is, none_failed (record_works r s h).1 k)
  none_failed {s = s} h (left {r = r} e is k) =
      absurd (let no = (record_works r s h).0 in cc (no, is))

  All-logged :
      {s s' : Service}
      → Drained env s s'
      → s.world.faults ≡ []
      → s.disk_faults ≡ []
      → All (λ r. logged_in s' r ≡ true) s.buffer.lines
  All-logged (unread e logs same) h k = absurd (let no = ap is_some (no_fault k) in cc (no, e))
  All-logged {s} (rewritten u qs e logs run same file) h k =
      subst
        (λ (databases : ℕ → Db).
          All (λ (r : AuditRecord). is_logged r (databases r.tenant_id) ≡ true) s.buffer.lines)
        (sym same)
        (none_failed
          (record {
            faults = h;
            disk_faults = ap (λ (gs : List (Option DiskFault)). (take_fault gs).1) k;
          })
          run)

  -- When the databases answer, every tenant's pool opens and the disk works, a drain empties the file
  -- and every record of it is in its tenant's log.
  pub drain-empties :
      (s : Service)
      → s.world.faults ≡ []
      → s.disk_faults ≡ []
      → ((drain env s).1.buffer.lines ≡ [])
        × All (λ r. logged_in (drain env s).1 r ≡ true) s.buffer.lines
  drain-empties s h k = (empties s h k, All-logged (drain-Drained env s) h k)
