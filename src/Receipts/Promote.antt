-- ===== src/Receipts/Promote.antt =====
-- `promote` of src/orphan_reconcile/repo.rs and src/webhook_receipt/repo.rs: its statements take
-- effect together.
use messgr.Base.{
  ℕ, ◌≤◌, String, ◌≡◌, refl, sym, ap, ◌∙◌, Bool, true, false, Option, none, some, List, arith,
}
use messgr.Store.Tables.{StagingReceipt, OrphanEvent, Db}
use messgr.Store.Laws.{Quiet-refl, Quiet}
use messgr.Store.Exec.{World, Result, ok, err, Exec, continue, execute, ◌>>◌}
use messgr.Store.Steps.{
  Ends-execute, Ends-transaction, Ends-regroup, Steady, Ends, Body, failed, finished, Ends-now,
  Ends-last, Steady-trans, Steady-Quiet, Changed-Quiet,
}
use messgr.Dispatcher.Queries.{insert_event, finalize}
use messgr.Receipts.Status.{auto_suppress_reason}
use messgr.Receipts.Repo.{
  delete_orphan, delete_staging, orphan_receipt, staging_receipt, promote_orphan, promote_staging,
  promote_and, insert_comms_event, ReceiptError, Match, Receipt, database, event_of, suppress_for,
  advance_status, auto_suppress,
}

abbrev pub advance_db : Match → Receipt → Bool → ℕ → Db → Db
advance_db m r false now db = db
advance_db m r true now db = record db {
  ledger = finalize m.comms_request_created_at m.comms_request_id r.event_type now db.ledger;
}

-- A promoted receipt, whose ledger row and suppression were written at two readings of the clock.
unfoldable pub promoted_db : (Db → Db) → Match → Receipt → Option (List ℕ) → Bool → ℕ → ℕ → Db → Db
promoted_db delete m r ciphertext advance s t db = delete (
    suppress_for (auto_suppress_reason r.event_type) m.destination_hmac t
      (advance_db m r advance s (insert_event (event_of m r ciphertext) db)))

pub data Promoted (change : ℕ → ℕ → Db → Db) (v : World)
    : Result ReceiptError (Unit {0}) → World → Type 0 where
  undone : {w : World} → Steady v w → Promoted change v (err database) w
  done :
      (s t : ℕ) {w : World}
      → v.clock ≤ s
      → s ≤ t
      → t ≤ w.clock
      → w.db ≡ change s t v.db
      → w.sent ≡ v.sent
      → Promoted change v (ok tt) w

module _ (delete : Db → Db) (m : Match) (r : Receipt) (ciphertext : Option (List ℕ))
    (advance : Bool) (v : World) where
  abbrev P : Result ReceiptError (Unit {0}) → World → Type 0
  P = Promoted (promoted_db delete m r ciphertext advance) v

  abbrev In : Result ReceiptError (Unit {0}) → World → Type 0
  In = Body P v

  -- A world within the transaction, its database so far.
  record At (db : Db) (w : World) : Type 0 where
    pub quiet : Quiet v w
    pub has : w.db ≡ db

  broken : {db : Db} {w u : World} → At db w → Steady w u → In (err database) u
  broken h k = failed (Steady-Quiet h.quiet k) (λ x kx. undone kx)

  last_delete :
      (s t : ℕ) (db : Db) (w : World)
      → v.clock ≤ s
      → s ≤ t
      → t ≤ w.clock
      → At db w
      → promoted_db delete m r ciphertext advance s t v.db ≡ delete db
      → Ends In (execute database delete) w
  last_delete s t db w hs ht last h is =
      Ends-last In database delete w (λ u k. broken h k)
        (λ u c. finished (Changed-Quiet h.quiet c) (λ x k.
          done s t hs ht (let a = c.later in let b = k.later in omega arith)
            (k.db ∙ c.db ∙ ap delete h.has ∙ sym is) (k.sent ∙ c.sent ∙ h.quiet.sent)))

  suppressing :
      (reason : Option String) (s : ℕ) (db : Db) (w : World)
      → v.clock ≤ s
      → s ≤ w.clock
      → At db w
      → ((t : ℕ)
          → promoted_db delete m r ciphertext advance s t v.db
            ≡ delete (suppress_for reason m.destination_hmac t db))
      → Ends In (auto_suppress m reason >> execute database delete) w
  suppressing none s db w hs ht h is = last_delete s s db w hs (omega arith) ht h (is s)
  suppressing (some reason) s db w hs ht h is =
      Ends-now (λ q u. Ends In (continue q (λ _. execute database delete)) u) _ w
        (λ u k.
          Ends-last (λ q x. Ends In (continue q (λ _. execute database delete)) x) database _ u
            (λ x e. broken h (Steady-trans k e))
            (λ x c.
              last_delete s u.clock (suppress_for (some reason) m.destination_hmac u.clock db) x hs
                (let later = k.later in omega arith) c.later
                (record {
                  quiet = Changed-Quiet (Steady-Quiet h.quiet k) c;
                  has =
                      c.db
                      ∙ ap (suppress_for (some reason) m.destination_hmac u.clock) (k.db ∙ h.has);
                })
                (is u.clock)))

  advancing :
      (b : Bool) (db : Db) (w : World)
      → At db w
      → ((s t : ℕ)
          → promoted_db delete m r ciphertext advance s t v.db
            ≡ delete (
                suppress_for
                  (auto_suppress_reason r.event_type)
                  m.destination_hmac
                  t
                  (advance_db m r b s db)))
      → Ends In
          (advance_status m r b
            >> (auto_suppress m (auto_suppress_reason r.event_type) >> execute database delete))
          w
  advancing false db w h is =
      suppressing (auto_suppress_reason r.event_type) w.clock db w h.quiet.later (omega arith) h
        (is w.clock)
  advancing true db w h is =
      Ends-now (λ q u. Ends In (continue q (λ _. rest)) u) _ w
        (λ u k.
          Ends-last (λ q x. Ends In (continue q (λ _. rest)) x) database _ u
            (λ x e. broken h (Steady-trans k e))
            (λ x c.
              suppressing (auto_suppress_reason r.event_type) u.clock
                (advance_db m r true u.clock db) x (Steady-Quiet h.quiet k).later c.later
                (record {
                  quiet = Changed-Quiet (Steady-Quiet h.quiet k) c;
                  has = c.db ∙ ap (advance_db m r true u.clock) (k.db ∙ h.has);
                })
                (is u.clock)))
    where
      rest : Exec ReceiptError (Unit {0})
      rest = auto_suppress m (auto_suppress_reason r.event_type) >> execute database delete

  promote_and-Promoted : Ends P (promote_and delete m r ciphertext advance) v
  unfolding promote_and insert_comms_event promoted_db
  promote_and-Promoted =
      Ends-transaction P database v (λ w k. undone k) _
        (λ u k.
          Ends-execute (λ q x. Ends In (continue q (λ _. execute database delete)) x) database _ _ u
            (λ x e. broken (record { quiet = Steady-Quiet (Quiet-refl v) k; has = k.db }) e)
            (λ x c.
              Ends-regroup In (auto_suppress m (auto_suppress_reason r.event_type))
                (execute database delete) (advance_status m r advance) x
                (advancing advance (insert_event (event_of m r ciphertext) v.db) x
                  (record {
                    quiet = Changed-Quiet (Steady-Quiet (Quiet-refl v) k) c;
                    has = c.db ∙ ap (insert_event (event_of m r ciphertext)) k.db;
                  })
                  (λ s t. refl))))

-- Promoting a receipt takes effect in full or not at all.
pub promote-Promoted :
    (o : OrphanEvent) (r : StagingReceipt) (m : Match) (ciphertext : Option (List ℕ))
    (advance : Bool) (v : World)
    → Ends
        (Promoted (promoted_db (delete_orphan o.id) m (orphan_receipt o) ciphertext advance) v)
        (promote_orphan o m ciphertext advance)
        v
      × Ends
          (Promoted (promoted_db (delete_staging r.id) m (staging_receipt r) ciphertext advance) v)
          (promote_staging r m ciphertext advance)
          v
unfolding promote_orphan promote_staging
promote-Promoted o r m ciphertext advance v = (
  promote_and-Promoted (delete_orphan o.id) m (orphan_receipt o) ciphertext advance v,
  promote_and-Promoted (delete_staging r.id) m (staging_receipt r) ciphertext advance v,
)
