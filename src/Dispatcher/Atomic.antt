-- ===== src/Dispatcher/Atomic.antt =====
-- src/dispatcher/repo.rs write_terminal: its three writes take effect together or not at all.
use messgr.Base.{ℕ, ◌≤◌, ◌≡◌, ap, ◌∙◌, arith}
use messgr.Store.Tables.{Event, Db}
use messgr.Store.Exec.{◌>>◌, World, Result, ok, err, execute}
use messgr.Store.Steps.{
  finished, Ends-last, Changed-Quiet, failed, Steady-trans, Body, Steady-Quiet, Ends-transaction,
  Ends-execute, Ends-now, Steady, Ends,
}
use messgr.Dispatcher.Queries.{
  DispatchError, Terminal, database, event_of, insert_event, finalize, delete_row, write_terminal,
}
use messgr.Store.Laws.{Quiet-refl}

-- A terminal outcome recorded at `now`: the event added, the ledger row finalized, the outbox row gone.
unfoldable pub concluded : Terminal → ℕ → Db → Db
concluded t now db = record db {
  events = (insert_event (event_of t now) db).events;
  ledger = finalize t.created_at t.comms_request_id t.final_status now db.ledger;
  outbox = delete_row t.comms_request_id db.outbox;
}

-- How a terminal write ends: with an error and the database as it was, or with all of it written.
pub data Recorded (t : Terminal) (v : World)
    : Result DispatchError (Unit {0}) → World → Type 0 where
  rolled_back : {w : World} → Steady v w → Recorded t v (err database) w
  written :
      (now : ℕ) {w : World}
      → v.clock ≤ now
      → now ≤ w.clock
      → w.db ≡ concluded t now v.db
      → w.sent ≡ v.sent
      → w.quota ≡ v.quota
      → Recorded t v (ok tt) w

pub insert_event-events :
    (e : Event) (db : Db) → insert_event e db ≡ record db { events = (insert_event e db).events }
unfolding insert_event
insert_event-events e db = ground arith

concluded_by :
    (t : Terminal) (now : ℕ) (db : Db) {d1 d2 d3 : Db}
    → d3 ≡ record d2 { outbox = delete_row t.comms_request_id d2.outbox }
    → d2
      ≡ record d1 { ledger = finalize t.created_at t.comms_request_id t.final_status now d1.ledger }
    → d1 ≡ insert_event (event_of t now) db
    → d3 ≡ concluded t now db
unfolding concluded
concluded_by t now db h k j =
    h
    ∙ ap (λ (d : Db). record d { outbox = delete_row t.comms_request_id d.outbox })
        (k
          ∙ ap
              (λ (d : Db). record d {
                ledger = finalize t.created_at t.comms_request_id t.final_status now d.ledger;
              })
              (j ∙ insert_event-events (event_of t now) db))

-- The three statements, from a world whose database is that before the transaction.
write_all :
    (t : Terminal) (now : ℕ) {v w u : World}
    → Steady v w
    → v.clock ≤ now
    → now ≤ w.clock
    → Steady w u
    → Ends
        (Body (Recorded t v) w)
        (do
          execute database (insert_event (event_of t now))
          execute database (λ db. record db {
            ledger = finalize t.created_at t.comms_request_id t.final_status now db.ledger;
          })
          execute database (λ db. record db { outbox = delete_row t.comms_request_id db.outbox }))
        u
unfolding concluded insert_event
write_all t now {v} {w} {u} h later read k =
    Ends-execute (Body (Recorded t v) w) database _ _ u
      (λ x e.
        failed (Steady-Quiet (Steady-Quiet (Quiet-refl w) k) e)
          (λ _ f. rolled_back (Steady-trans h f)))
      (λ x ex.
        Ends-execute (Body (Recorded t v) w) database _ _ x
          (λ y e.
            failed (Steady-Quiet (Changed-Quiet (Steady-Quiet (Quiet-refl w) k) ex) e)
              (λ _ f. rolled_back (Steady-trans h f)))
          (λ y ey.
            Ends-last (Body (Recorded t v) w) database _ y
              (λ z e.
                failed
                  (Steady-Quiet
                    (Changed-Quiet (Changed-Quiet (Steady-Quiet (Quiet-refl w) k) ex) ey) e)
                  (λ _ f. rolled_back (Steady-trans h f)))
              (λ z ez.
                finished
                  (Changed-Quiet
                    (Changed-Quiet (Changed-Quiet (Steady-Quiet (Quiet-refl w) k) ex) ey) ez)
                  (λ x' f.
                    written now later
                      (let a = k.later in
                        let b = ex.later in
                        let c = ey.later in let d = ez.later in let e = f.later in omega arith)
                      (concluded_by t now v.db (f.db ∙ ez.db) ey.db
                        (ex.db ∙ ap (insert_event (event_of t now)) (k.db ∙ h.db)))
                      (f.sent ∙ ez.sent ∙ ey.sent ∙ ex.sent ∙ k.sent ∙ h.sent)
                      (f.quota ∙ ez.quota ∙ ey.quota ∙ ex.quota ∙ k.quota ∙ h.quota)))))

-- A terminal write ends with an error and leaves the database unchanged, or succeeds with the
-- event, the ledger and the outbox all updated; it neither sends nor counts against a quota.
pub write_terminal-Recorded : (t : Terminal) (v : World) → Ends (Recorded t v) (write_terminal t) v
unfolding write_terminal
write_terminal-Recorded t v = Ends-now (Recorded t v) _ v (λ w h.
    Ends-transaction (Recorded t v) database w (λ u k. rolled_back (Steady-trans h k)) _
      (λ u k. write_all t w.clock h h.later (omega arith) k))
