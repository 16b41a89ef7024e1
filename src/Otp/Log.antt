-- ===== src/Otp/Log.antt =====
-- That an audit record is in the tenant's ledger and event log.
use messgr.Base.{
  ℕ, ◌≡◌, refl, ap, ◌∙◌, inl, inr, Bool, true, ◌&&◌, [], ◌∷◌, arith, and_true, beq_refl, Bool-cases,
  any, any-append, nat_eq, string_eq, option_eq, list_eq,
}
use messgr.Store.Tables.{Db, Request, Event}
use messgr.Store.Exec.{World, Result, ok, err}
use messgr.Store.Laws.{Quiet-refl}
use messgr.Store.Steps.{
  Ends, Body, failed, finished, Ends-transaction, Ends-now, Ends-execute, Ends-last, Steady-Quiet,
  Changed-Quiet,
}
use messgr.Dispatcher.Queries.{is_request, same_event, insert_event}
use messgr.Otp.Model.{AuditRecord, OtpError}
use messgr.Otp.Repo.{audit_request, audit_event, insert_request, write_audit_record}

abbrev pub is_logged : AuditRecord → Db → Bool
is_logged r db =
    any (is_request r.created_at r.comms_request_id) db.ledger
    && any (same_event (audit_event r)) db.events

abbrev pub written : AuditRecord → ℕ → Db → Db
written r t db = insert_event (audit_event r) (insert_request (audit_request r t) db)

pub data Wrote (r : AuditRecord) (v : World) : Result OtpError (Unit {0}) → World → Type 0 where
  unwritten : {w : World} → w.db ≡ v.db → w.sent ≡ v.sent → Wrote r v (err OtpError.database) w
  wrote : (t : ℕ) {w : World} → w.db ≡ written r t v.db → w.sent ≡ v.sent → Wrote r v (ok tt) w

pub write_audit_record-Wrote :
    (r : AuditRecord) (v : World) → Ends (Wrote r v) (write_audit_record r) v
unfolding write_audit_record
write_audit_record-Wrote r v =
    Ends-transaction (Wrote r v) OtpError.database v (λ w k. unwritten k.db k.sent) _
      (λ u k. Ends-now (Body (Wrote r v) v) _ u (λ x e.
        let q = Steady-Quiet (Steady-Quiet (Quiet-refl v) k) e in
        Ends-execute (Body (Wrote r v) v) OtpError.database _ _ x
          (λ y d. failed (Steady-Quiet q d) (λ z kz. unwritten kz.db kz.sent))
          (λ y c.
            Ends-last (Body (Wrote r v) v) OtpError.database _ y
              (λ z d.
                failed (Steady-Quiet (Changed-Quiet q c) d) (λ z' kz. unwritten kz.db kz.sent))
              (λ z d. finished (Changed-Quiet (Changed-Quiet q c) d) (λ z' kz.
                wrote x.clock
                  (kz.db
                    ∙ d.db
                    ∙ ap (λ db. insert_event (audit_event r) db)
                        (c.db ∙ ap (insert_request (audit_request r x.clock)) (e.db ∙ k.db)))
                  (kz.sent ∙ d.sent ∙ c.sent ∙ q.sent))))))

-- What is logged stays logged, and what was written is logged.

insert_request-any :
    (p : Request → Bool) (x : Request) (db : Db)
    → any p db.ledger ≡ true
    → any p (insert_request x db).ledger ≡ true
unfolding insert_request
insert_request-any p x db h = elim (Bool-cases (any (is_request x.created_at x.id) db.ledger)) [
  | inl e ↦ rw (e, h) refl
  | inr e ↦ let split = any-append p db.ledger (x ∷ []) in ground (arith, e, h, split)
]

insert_event-any :
    (p : Event → Bool) (x : Event) (db : Db)
    → any p db.events ≡ true
    → any p (insert_event x db).events ≡ true
unfolding insert_event
insert_event-any p x db h = elim (Bool-cases (any (same_event x) db.events)) [
  | inl e ↦ rw (e, h) refl
  | inr e ↦ let split = any-append p db.events (x ∷ []) in ground (arith, e, h, split)
]

requests_kept : (x : Event) (db : Db) → (insert_event x db).ledger ≡ db.ledger
unfolding insert_event
requests_kept x db = ground arith

events_kept : (x : Request) (db : Db) → (insert_request x db).events ≡ db.events
unfolding insert_request
events_kept x db = ground arith

pub written-stays :
    (q r : AuditRecord) (t : ℕ) (db : Db)
    → is_logged q db ≡ true
    → is_logged q (written r t db) ≡ true
written-stays q r t db h =
    let (a, b) =
      and_true (any (is_request q.created_at q.comms_request_id) db.ledger)
        (any (same_event (audit_event q)) db.events) h in
    let with_request = insert_request-any _ (audit_request r t) db a in
    let ledger = requests_kept (audit_event r) (insert_request (audit_request r t) db) in
    let events = events_kept (audit_request r t) db in
    let b' = ap (any (same_event (audit_event q))) events ∙ b in
    let with_event =
      insert_event-any _ (audit_event r) (insert_request (audit_request r t) db) b' in
    let a' = ap (any (is_request q.created_at q.comms_request_id)) ledger ∙ with_request in
    ground (arith, a', with_event)

has_request :
    (r : AuditRecord) (t : ℕ) (db : Db)
    → any
        (is_request r.created_at r.comms_request_id)
        (insert_request (audit_request r t) db).ledger
      ≡ true
unfolding insert_request
has_request r t db =
    elim (Bool-cases (any (is_request r.created_at r.comms_request_id) db.ledger)) [
      | inl e ↦ rw (e, e) refl
      | inr e ↦
          let split =
            any-append (is_request r.created_at r.comms_request_id) db.ledger
              (audit_request r t ∷ []) in
          ground (arith, e, split, beq_refl r.created_at, beq_refl r.comms_request_id)
    ]

same_event_refl : (x : Event) → same_event x x ≡ true
same_event_refl x = ground (
  arith,
  beq_refl x.occurred_at,
  beq_refl x.comms_request_id,
  beq_refl x.event_type,
  beq_refl x.provider_ref,
)

has_event : (x : Event) (db : Db) → any (same_event x) (insert_event x db).events ≡ true
unfolding insert_event
has_event x db = elim (Bool-cases (any (same_event x) db.events)) [
  | inl e ↦ rw (e, e) refl
  | inr e ↦
      let split = any-append (same_event x) db.events (x ∷ []) in
      let same = same_event_refl x in ground (arith, e, split, same)
]

pub written-is_logged : (r : AuditRecord) (t : ℕ) (db : Db) → is_logged r (written r t db) ≡ true
written-is_logged r t db =
    let ledger = requests_kept (audit_event r) (insert_request (audit_request r t) db) in
    let a = ap (any (is_request r.created_at r.comms_request_id)) ledger ∙ has_request r t db in
    let b = has_event (audit_event r) (insert_request (audit_request r t) db) in
    ground (arith, a, b)

-- Writing an audit record again, at whatever time, changes nothing once it is logged.
pub written-again :
    (r : AuditRecord) (t : ℕ) (db : Db) → is_logged r db ≡ true → written r t db ≡ db
unfolding insert_request insert_event
written-again r t db h =
    let (a, b) =
      and_true (any (is_request r.created_at r.comms_request_id) db.ledger)
        (any (same_event (audit_event r)) db.events) h in
    rw (a, b) refl

-- Writing an audit record that is logged already leaves the database as it is, also on success.
pub write_audit_record-again :
    (r : AuditRecord) (v : World)
    → is_logged r v.db ≡ true
    → Ends (λ answer (w : World). w.db ≡ v.db) (write_audit_record r) v
write_audit_record-again r v h = same (write_audit_record-Wrote r v)
  where
    same : {answer : Result OtpError (Unit {0})} {w : World} → Wrote r v answer w → w.db ≡ v.db
    same (unwritten d k) = d
    same (wrote t d k) = d ∙ written-again r t v.db h
