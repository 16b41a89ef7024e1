-- ===== src/Dispatcher/Gates.antt =====
-- The gates of src/dispatcher/worker.rs try_process, one lemma each: what holds of the way the
-- gate ends, where it holds of the way the rest ends under the condition that the gate checks.
use messgr.Base.{
  ℕ, ◌≤◌, String, ◌≡◌, refl, sym, ap, ◌∙◌, true, false, none, List, arith, if◌then◌else◌, ◌==◌,
  is_some, nat_eq, string_eq, option_eq, list_eq,
}
use messgr.Customers.DekFrame.{Keyed}
use messgr.Store.Tables.{CustomerDek, Event, Db, OutboxRow}
use messgr.Store.Exec.{World, Result, err, continue, utc_now}
use messgr.Store.Steps.{
  Steady, Changed, Ends, Ends-if, Ends-now, Ends-query, Ends-last, Ends-execute, Steady-trans,
}
use messgr.Dispatcher.Queries.{
  DispatchError, database, is_suppressed, suppressed, verified_at, consented, reschedule_retry,
  is_consented, load_verified_at, record_event, insert_event,
}
use messgr.Dispatcher.Atomic.{
  insert_event-events, Recorded, write_terminal-Recorded, rolled_back, written,
}
use messgr.Dispatcher.Worker.{
  Context, Step, stop, terminal, is_expired, is_verifiable, marketing, expiry_gate,
  suppression_gate, verification_gate, consent_gate,
}
use messgr.Dispatcher.Outcome.{
  Deferral, cancelled_late, Reached, Reason, Outcome, waits, given_up, deferred, expired,
  suppressed_list, unverified_address, suppressed_consent,
}

pub Reached-Steady : {v w u : World} → Reached v w → Steady w u → Reached v u
Reached-Steady h k = record {
  noted = (h.noted.0, h.noted.1, k.db ∙ h.noted.2);
  sent = k.sent ∙ h.sent;
  later = omega arith;
}

later_than : {v w : World} {t : ℕ} → Reached v w → w.clock ≤ t → v.clock ≤ t
later_than h k = let before = h.later in omega arith

pub Reached-Keyed : {v w u : World} → Reached v w → Keyed w u → Reached v u
Reached-Keyed h k = record {
  noted = (h.noted.0, k.deks, k.db ∙ ap (λ (d : Db). record d { deks = k.deks }) h.noted.2);
  sent = k.sent ∙ h.sent;
  later = let before = h.later in let after = k.later in omega arith;
}

-- A lookup that reads neither the events nor the customer keys.
pub Reached-same :
    {A : Type 0} {v w : World} (f : Db → A)
    → ((es : List Event) (ks : List CustomerDek) (d : Db)
        → f (record d { events = es; deks = ks }) ≡ f d)
    → Reached v w
    → f w.db ≡ f v.db
Reached-same {v = v} f blind h = ap f h.noted.2 ∙ blind h.noted.0 h.noted.1 v.db

Reached-event :
    (e : Event) {v w u : World} → Reached v w → Changed (insert_event e) w u → Reached v u
Reached-event e {w = w} h k = record {
  noted = (
    (insert_event e w.db).events,
    h.noted.1,
    k.db
        ∙ insert_event-events e w.db
        ∙ ap (λ (d : Db). record d { events = (insert_event e w.db).events }) h.noted.2,
  );
  sent = k.sent ∙ h.sent;
  later = let before = h.later in let after = k.later in omega arith;
}

expired_earlier :
    (row : OutboxRow) {s t : ℕ} → s ≤ t → is_expired row t ≡ false → is_expired row s ≡ false
expired_earlier row h k = ground arith

module _ (ctx : Context) (row : OutboxRow) (v : World) where
  Reason-later :
      {status : String} {s t : ℕ} → s ≤ t → Reason ctx row v s status → Reason ctx row v t status
  Reason-later k (expired a b c) = expired a (omega arith) c
  Reason-later k (suppressed_list a b c) = suppressed_list a (omega arith) c
  Reason-later k (unverified_address a b c) = unverified_address a b c
  Reason-later k (suppressed_consent a b) = suppressed_consent a b
  Reason-later k (cancelled_late a) = cancelled_late a

  ended :
      {status : String} {w u : World} {r : Result DispatchError (Unit {0})}
      → Reached v w
      → Reason ctx row v w.clock status
      → Recorded (terminal row status none none) w r u
      → Outcome ctx row v r u
  ended h why (rolled_back k) = waits (Reached-Steady h k).noted (k.sent ∙ h.sent)
  ended {w = w} h why (written now later by db sent quota) =
      given_up (Reason-later (omega arith) why) (w.db, h.noted, (now, later_than h later, by, db))
        (sent ∙ h.sent)

  pub stop-Outcome :
      {status : String} {w : World}
      → Reached v w
      → Reason ctx row v w.clock status
      → Ends (Outcome ctx row v) (stop row status) w
  unfolding stop
  stop-Outcome h why = ended h why (write_terminal-Recorded _ _)

  pub reschedule-Outcome :
      (next_attempt_at : ℕ) {w : World}
      → Deferral ctx row v w.clock next_attempt_at
      → Reached v w
      → Ends (Outcome ctx row v) (reschedule_retry row.comms_request_id next_attempt_at) w
  unfolding reschedule_retry
  reschedule-Outcome t {w} why h =
      Ends-last (Outcome ctx row v) database _ w
        (λ u k. waits (Reached-Steady h k).noted (k.sent ∙ h.sent))
        (λ u k. deferred w.clock t why k.later (w.db, h.noted, k.db) (k.sent ∙ h.sent))

  -- An error before the message left.
  pub err-Outcome :
      {e : DispatchError} {w u : World} → Reached v w → Steady w u → Outcome ctx row v (err e) u
  err-Outcome h k = waits (Reached-Steady h k).noted (k.sent ∙ h.sent)

  module _ (rest : Step) where
    pub expiry_gate-Outcome :
        (w : World)
        → Reached v w
        → w.quota ≡ v.quota
        → ((u : World)
            → Reached v u
            → u.quota ≡ v.quota
            → is_expired row v.clock ≡ false
            → w.clock ≤ u.clock
            → Ends (Outcome ctx row v) rest u)
        → Ends (Outcome ctx row v) (expiry_gate row rest) w
    unfolding expiry_gate
    expiry_gate-Outcome w h q next = Ends-now (Outcome ctx row v) _ w (λ u k.
        Ends-if (Outcome ctx row v) (is_expired row u.clock) (stop row "expired") rest u
          (λ hit.
            stop-Outcome (Reached-Steady h k)
              (expired (Reached-Steady h k).later (omega arith) hit))
          (λ miss.
            next u (Reached-Steady h k) (k.quota ∙ q)
              (expired_earlier row (Reached-Steady h k).later miss) k.later))

    pub suppression_gate-Outcome :
        (w : World)
        → Reached v w
        → w.quota ≡ v.quota
        → ((u : World) (t : ℕ)
            → Reached v u
            → u.quota ≡ v.quota
            → v.clock ≤ t
            → suppressed row.created_at row.comms_request_id t v.db ≡ false
            → w.clock ≤ u.clock
            → t ≤ u.clock
            → Ends (Outcome ctx row v) rest u)
        → Ends (Outcome ctx row v) (suppression_gate row rest) w
    unfolding suppression_gate is_suppressed suppressed utc_now
    suppression_gate-Outcome w h q next =
        Ends-query (Outcome ctx row v) database
          (λ hit. if hit then stop row "suppressed_list" else rest) _
          (utc_now {E = DispatchError} w).1 (λ u k. err-Outcome h (Steady-trans clock k))
          (λ u k.
            Ends-if (Outcome ctx row v) _ (stop row "suppressed_list") rest u
              (λ hit. stop-Outcome (Reached-Steady h (Steady-trans clock k)) (
                suppressed_list (later_than h clock.later) k.later (
                  sym (
                    Reached-same (suppressed row.created_at row.comms_request_id _)
                      (λ es ks d. refl) h)
                  ∙ hit)))
              (λ miss.
                next u _ (Reached-Steady h (Steady-trans clock k)) (k.quota ∙ q)
                  (later_than h clock.later)
                  (sym (
                      Reached-same (suppressed row.created_at row.comms_request_id _)
                        (λ es ks d. refl) h)
                    ∙ miss)
                  (Steady-trans clock k).later k.later))
      where
        clock : Steady w (utc_now {E = DispatchError} w).1
        clock = record { db = refl; sent = refl; quota = refl; later = omega arith }

    pub verification_gate-Outcome :
        (w : World)
        → Reached v w
        → w.quota ≡ v.quota
        → ((u : World)
            → Reached v u
            → u.quota ≡ v.quota
            → (is_verifiable row ≡ true
                → ctx.enforce ≡ true
                → is_some (verified_at row.address_id v.db) ≡ true)
            → w.clock ≤ u.clock
            → Ends (Outcome ctx row v) rest u)
        → Ends (Outcome ctx row v) (verification_gate ctx row rest) w
    unfolding verification_gate load_verified_at verified_at record_event
    verification_gate-Outcome w h q next =
        Ends-if (Outcome ctx row v) (is_verifiable row) _ rest w
          (λ verifiable.
            Ends-query (Outcome ctx row v) database _ (verified_at row.address_id) w
              (λ u k. err-Outcome h k)
              (λ u k.
                Ends-if (Outcome ctx row v) (is_some (verified_at row.address_id w.db)) rest _ u
                  (λ found.
                    next u (Reached-Steady h k) (k.quota ∙ q) (λ _ _. sym (ap is_some same) ∙ found)
                      k.later)
                  (λ unfound.
                    Ends-if (Outcome ctx row v) ctx.enforce (stop row "unverified_address") _ u
                      (λ enforced.
                        stop-Outcome (Reached-Steady h k) (
                          unverified_address verifiable (sym (ap is_some same) ∙ unfound) enforced))
                      (λ observed.
                        Ends-now (λ r u'. Ends (Outcome ctx row v) (continue r (λ _. rest)) u') _ u
                          (λ x kx.
                            Ends-execute (Outcome ctx row v) database _ rest x
                              (λ y ky. err-Outcome h (Steady-trans k (Steady-trans kx ky)))
                              (λ y cy.
                                next y (Reached-event _ (Reached-Steady h (Steady-trans k kx)) cy)
                                  (cy.quota ∙ kx.quota ∙ k.quota ∙ q) (λ _ enforced. cc)
                                  (let a = k.later in
                                    let b = kx.later in let c = cy.later in omega arith)))))))
          (λ unverifiable. next w h q (λ verifiable. cc) (omega arith))
      where
        same : verified_at row.address_id w.db ≡ verified_at row.address_id v.db
        same = Reached-same (verified_at row.address_id) (λ es ks d. refl) h

    pub consent_gate-Outcome :
        (w : World)
        → Reached v w
        → w.quota ≡ v.quota
        → ((u : World)
            → Reached v u
            → u.quota ≡ v.quota
            → ((row.class == marketing) ≡ true → consented row.address_id row.class v.db ≡ true)
            → w.clock ≤ u.clock
            → Ends (Outcome ctx row v) rest u)
        → Ends (Outcome ctx row v) (consent_gate row rest) w
    unfolding consent_gate is_consented consented
    consent_gate-Outcome w h q next =
        Ends-if (Outcome ctx row v) (row.class == marketing) _ rest w
          (λ is_marketing.
            Ends-query (Outcome ctx row v) database _ (consented row.address_id row.class) w
              (λ u k. err-Outcome h k)
              (λ u k.
                Ends-if (Outcome ctx row v) _ rest (stop row "suppressed_consent") u
                  (λ opted.
                    next u (Reached-Steady h k) (k.quota ∙ q) (λ _. sym same ∙ opted) k.later)
                  (λ out.
                    stop-Outcome (Reached-Steady h k)
                      (suppressed_consent is_marketing (sym same ∙ out)))))
          (λ other. next w h q (λ is_marketing. cc) (omega arith))
      where
        same : consented row.address_id row.class w.db ≡ consented row.address_id row.class v.db
        same = Reached-same (consented row.address_id row.class) (λ es ks d. refl) h
