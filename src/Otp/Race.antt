-- ===== src/Otp/Race.antt =====
-- A record that a request appends to the file of src/otp/buffer.rs while `drain` runs.
use messgr.Base.{◌≡◌, refl, ap, ◌∙◌, Bool, true, false, Option, none, some, List, [], ◌∷◌, ◌++◌}
use messgr.Otp.Model.{AuditRecord}
use messgr.Otp.Service.{File, DiskFault, unopened, cut, Service, Env, on_tenant, next_call, disk}
use messgr.Otp.Drain.{
  keep_failed, rewrite_buffer, write_open, drain_record, drain_records, drain_read,
}

abbrev pub with_buffer : File AuditRecord → Service → Service
with_buffer b s = record s { buffer = b }

abbrev pub carry : {A : Type 0} → File AuditRecord → A × Service → A × Service
carry b out = (out.0, with_buffer b out.1)

module _ (env : Env) where
  write_open-carry :
      (b : File AuditRecord) (r : AuditRecord) (is_open : Bool) (s : Service)
      → write_open env r is_open (with_buffer b s) ≡ carry b (write_open env r is_open s)
  unfolding on_tenant
  write_open-carry b r true s = refl
  write_open-carry b r false s = refl

  drain_record-carry :
      (b : File AuditRecord) (r : AuditRecord) (s : Service)
      → drain_record env r (with_buffer b s) ≡ carry b (drain_record env r s)
  unfolding drain_record next_call
  drain_record-carry b r s = write_open-carry b r _ _

  drain_records-carry :
      (b : File AuditRecord) (rs : List AuditRecord) (s : Service)
      → drain_records env rs (with_buffer b s) ≡ carry b (drain_records env rs s)
  unfolding drain_records
  drain_records-carry b [] s = refl
  drain_records-carry b (r ∷ rest) s =
      ap (λ out. let more = drain_records env rest out.1 in (keep_failed out.0 r more.0, more.1))
        (drain_record-carry b r s)
      ∙ ap (λ out. (keep_failed (drain_record env r s).0 r out.0, out.1))
          (drain_records-carry b rest (drain_record env r s).1)

  rewrite-carry :
      (b : File AuditRecord) (qs : List AuditRecord) (fault : Option DiskFault) (s : Service)
      → ¬ (fault ≡ some unopened)
      → rewrite_buffer qs fault (with_buffer b s) ≡ rewrite_buffer qs fault s
  rewrite-carry b qs none s h = refl
  rewrite-carry b qs (some unopened) s h = absurd (h refl)
  rewrite-carry b qs (some (cut n fragment)) s h = refl

  -- A record that is appended after the drain read the file is lost: whatever was appended in the
  -- meantime, the service ends up as if nothing had been, unless the drain cannot open the file again.
  pub drain_read-forgets :
      (records : List AuditRecord) (late : List AuditRecord) (s : Service)
      → ¬ ((disk (drain_records env records s).1).0 ≡ some unopened)
      → drain_read env records (with_buffer (record s.buffer { lines = s.buffer.lines ++ late }) s)
        ≡ drain_read env records s
  unfolding drain_read disk
  drain_read-forgets records late s h =
      let out = drain_records env records s in
      let b = record s.buffer { lines = s.buffer.lines ++ late } in
      ap (λ o. let d = disk o.1 in rewrite_buffer o.0 d.0 d.1) (drain_records-carry b records s)
      ∙ rewrite-carry b out.0 (disk out.1).0 (disk out.1).1 h
