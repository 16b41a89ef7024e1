-- ===== src/Otp/Drained.antt =====
-- `drain` of src/otp/buffer.rs: what becomes of the buffered records.
use messgr.Base.{◌≡◌, refl, ap, ◌∙◌, Bool, true, false, Option, none, some, List, [], ◌∷◌, is_some}
use messgr.Store.Exec.{Result, ok, err}
use messgr.Otp.Model.{AuditRecord, OtpError}
use messgr.Otp.Service.{write_lines, DiskFault, ◌>>=◌, Service, Env, take_fault, disk, next_call}
use messgr.Otp.Drain.{
  keep_failed, rewrite_buffer, write_open, drain_record, drain_records, drain_read, drain_unless,
  drain,
}
use messgr.Otp.Filing.{
  OnlyLogs, OnlyLogs-refl, OnlyLogs-trans, Written, failed, done, on_tenant-Written, logged_in,
  implies_from,
}

module _ (env : Env) where
  -- The writes of records from `s` on, one after the other, up to `u`: those that failed are left, in
  -- their order, and all others are in the log.
  pub data Remaining (u : Service) : Service → List AuditRecord → List AuditRecord → Type 0 where
    none_left : Remaining u u [] []
    in_log :
        {s : Service} {r : AuditRecord} {rs qs : List AuditRecord}
        → (drain_record env r s).0 ≡ ok tt
        → logged_in u r ≡ true
        → Remaining u (drain_record env r s).1 rs qs
        → Remaining u s (r ∷ rs) qs
    left :
        {s : Service} {r : AuditRecord} {rs qs : List AuditRecord} (e : OtpError)
        → (drain_record env r s).0 ≡ err e
        → Remaining u (drain_record env r s).1 rs qs
        → Remaining u s (r ∷ rs) (r ∷ qs)

  record Passed (records : List AuditRecord) (s : Service) (qs : List AuditRecord) (s' : Service)
      : Type 0 where
    pub logs : OnlyLogs s s'
    pub buffer : s'.buffer ≡ s.buffer
    pub faults : s'.disk_faults ≡ s.disk_faults
    pub remaining : Remaining s' s records qs

  step :
      (r : AuditRecord) (rs qs : List AuditRecord) (s u : Service)
      (answer : Result OtpError (Unit {0}))
      → (drain_record env r s).0 ≡ answer
      → Written r s answer (drain_record env r s).1
      → Passed rs (drain_record env r s).1 qs u
      → Passed (r ∷ rs) s (keep_failed answer r qs) u
  step r rs qs s u answer e (failed logs same faults) h = record {
    logs = OnlyLogs-trans logs h.logs;
    buffer = h.buffer ∙ same;
    faults = h.faults ∙ faults;
    remaining = left _ e h.remaining;
  }
  step r rs qs s u answer e (done logs same faults is) h = record {
    logs = OnlyLogs-trans logs h.logs;
    buffer = h.buffer ∙ same;
    faults = h.faults ∙ faults;
    remaining =
        in_log e
          (implies_from (logged_in (drain_record env r s).1 r) (logged_in u r) (h.logs.stays r) is)
          h.remaining;
  }

  counted_call : (s : Service) → Service
  counted_call s = (next_call s).1

  uncount :
      (r : AuditRecord) (s t : Service) (answer : Result OtpError (Unit {0}))
      → Written r (counted_call s) answer t
      → Written r s answer t
  unfolding counted_call next_call
  uncount r s t answer (failed logs same faults) =
      failed
        (record {
          sent = logs.sent;
          flags = logs.flags;
          providers = logs.providers;
          pending = logs.pending;
          stays = logs.stays;
        })
        same faults
  uncount r s t answer (done logs same faults is) =
      done
        (record {
          sent = logs.sent;
          flags = logs.flags;
          providers = logs.providers;
          pending = logs.pending;
          stays = logs.stays;
        })
        same faults is

  write_open-Written :
      (r : AuditRecord) (b : Bool) (s : Service)
      → let out = write_open env r b s in Written r s out.0 out.1
  write_open-Written r true s = on_tenant-Written r s
  write_open-Written r false s = failed (OnlyLogs-refl s) refl refl

  drain_records-Passed :
      (records : List AuditRecord) (s : Service)
      → let out = drain_records env records s in Passed records s out.0 out.1
  unfolding drain_records drain_record counted_call next_call
  drain_records-Passed [] s = record {
    logs = OnlyLogs-refl s;
    buffer = refl;
    faults = refl;
    remaining = none_left;
  }
  drain_records-Passed (r ∷ rest) s =
      step r rest _ s _ _ refl
        (uncount r s _ _
          (write_open-Written r (env.get_or_open s.world.calls r.tenant_id) (counted_call s)))
        (drain_records-Passed rest _)

  -- The file was not read; or each of its records was written in turn, up to a service `u`, and the
  -- file then rewritten with what is left, as far as that worked.
  pub data Drained (s s' : Service) : Type 0 where
    unread :
        is_some (take_fault s.disk_faults).0 ≡ true
        → OnlyLogs s s'
        → s'.buffer ≡ s.buffer
        → Drained s s'
    rewritten :
        (u : Service) (remaining : List AuditRecord)
        → (take_fault s.disk_faults).0 ≡ none
        → OnlyLogs s s'
        → Remaining u
            (record s { disk_faults = (take_fault s.disk_faults).1 })
            s.buffer.lines
            remaining
        → s'.databases ≡ u.databases
        → s'.buffer ≡ write_lines remaining (take_fault (take_fault s.disk_faults).1).0 s.buffer
        → Drained s s'

  after_rewrite :
      (s t : Service) (qs : List AuditRecord)
      → (take_fault s.disk_faults).0 ≡ none
      → let u = record s { disk_faults = (take_fault s.disk_faults).1 } in
        Passed s.buffer.lines u qs t → Drained s ((disk >>= rewrite_buffer qs) t).1
  unfolding disk
  after_rewrite s t qs e h =
      rewritten t qs e
        (record {
          sent = h.logs.sent;
          flags = h.logs.flags;
          providers = h.logs.providers;
          pending = h.logs.pending;
          stays = h.logs.stays;
        })
        h.remaining refl (λ i. write_lines qs (take_fault (h.faults i)).0 (h.buffer i))

  after_read :
      (s : Service) (fault : Option DiskFault)
      → (take_fault s.disk_faults).0 ≡ fault
      → Drained s
          (drain_unless env fault (record s { disk_faults = (take_fault s.disk_faults).1 })).1
  unfolding drain_read
  after_read s none e = after_rewrite s _ _ e (drain_records-Passed s.buffer.lines _)
  after_read s (some fault) e =
      unread (ap is_some e)
        (record {
          sent = refl;
          flags = refl;
          providers = refl;
          pending = refl;
          stays = (OnlyLogs-refl s).stays;
        })
        refl

  -- Where a drain reads the file, it writes each record in turn: those whose write succeeded are in
  -- the log afterwards, and the file is rewritten with exactly those whose write failed, in their
  -- order; it stays as it was where it cannot be opened for that, and has some first ones of them where
  -- the rewriting breaks off. Where it cannot read the file, that stays. No audit record leaves the log.
  pub drain-Drained : (s : Service) → Drained s (drain env s).1
  unfolding drain disk
  drain-Drained s = after_read s (take_fault s.disk_faults).0 refl
