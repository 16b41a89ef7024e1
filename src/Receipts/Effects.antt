-- ===== src/Receipts/Effects.antt =====
-- What `promote` of src/orphan_reconcile/repo.rs and src/webhook_receipt/repo.rs does to each table.
use messgr.Base.{
  ℕ, ◌+◌, ◌*◌, ◌≤◌, String, ◌≡◌, refl, Bool, true, false, ◌||◌, Option, none, some, List,
  if◌then◌else◌, ◌==◌, any, keep, find, nat_eq, string_eq, option_eq, list_eq,
}
use messgr.Zone.{day_ms}
use messgr.Store.Tables.{Db, Suppression, OrphanEvent, StagingReceipt}
use messgr.Store.Exec.{World, Result, ok, err}
use messgr.Store.Steps.{Steady}
use messgr.Dispatcher.Queries.{insert_event, finalize}
use messgr.Receipts.Status.{auto_suppress_reason}
use messgr.Receipts.Repo.{
  ReceiptError, database, Match, Receipt, event_of, suppress_for, orphan_receipt, staging_receipt,
}
use messgr.Receipts.Promote.{advance_db}

-- A bounce or a complaint.
abbrev pub is_refusal : String → Bool
is_refusal event_type = (event_type == "bounced") || (event_type == "complaint")

-- The list has an entry for the destination that lasts at least until `t`.
abbrev pub SuppressedUntil : List ℕ → ℕ → List Suppression → Type 0
SuppressedUntil hmac t rows =
    (s : Suppression) × (find (λ (x : Suppression). x.destination_hmac == hmac) rows ≡ some s)
    × (t ≤ s.review_at)

-- No row of the id is left, and those of every other id are.
pub record Removed {A : Type 0} (key : A → ℕ) (id : ℕ) (before after : List A) : Type 0 where
  pub gone : any (λ a. key a == id) after ≡ false
  pub others :
      (q : ℕ) → (q == id) ≡ false → keep (λ a. key a == q) after ≡ keep (λ a. key a == q) before

-- The tables after a promotion, but for the one that held the receipt. The ledger was written at `s`,
-- the suppression list at `t`.
pub record Effects (m : Match) (r : Receipt) (ciphertext : Option (List ℕ)) (advance : Bool)
    (s t : ℕ) (before after : Db) : Type 0 where
  pub events : after.events ≡ (insert_event (event_of m r ciphertext) before).events
  pub ledger : after.ledger ≡ (
      if advance
      then finalize m.comms_request_created_at m.comms_request_id r.event_type s before.ledger
      else before.ledger)
  pub outbox : after.outbox ≡ before.outbox
  pub suppressed :
      is_refusal r.event_type ≡ true
      → SuppressedUntil m.destination_hmac (t + 365 * day_ms) after.suppression
  pub unsuppressed : is_refusal r.event_type ≡ false → after.suppression ≡ before.suppression

-- What a suppression leaves as it is.
suppress_for-rest :
    (reason : Option String) (hmac : List ℕ) (t : ℕ) (db : Db)
    → suppress_for reason hmac t db
      ≡ record db { suppression = (suppress_for reason hmac t db).suppression }
suppress_for-rest none hmac t db = refl
suppress_for-rest (some reason) hmac t db = refl

module _ (m : Match) (r : Receipt) (ciphertext : Option (List ℕ)) (advance : Bool) (s t : ℕ)
    (v : Db) where
  recorded : Db
  recorded = advance_db m r advance s (insert_event (event_of m r ciphertext) v)

  before_delete : Db
  before_delete = suppress_for (auto_suppress_reason r.event_type) m.destination_hmac t recorded

  others : before_delete ≡ record recorded { suppression = before_delete.suppression }
  unfolding before_delete
  others = suppress_for-rest (auto_suppress_reason r.event_type) m.destination_hmac t recorded

-- How the promotion of an orphan may end.
pub data PromotedOrphan (o : OrphanEvent) (m : Match) (ciphertext : Option (List ℕ))
    (advance : Bool) (v : World) : Result ReceiptError (Unit {0}) → World → Type 0 where
  refused : {w : World} → Steady v w → PromotedOrphan o m ciphertext advance v (err database) w
  promoted :
      {w : World} (s t : ℕ)
      → v.clock ≤ s
      → s ≤ t
      → t ≤ w.clock
      → w.sent ≡ v.sent
      → Effects m (orphan_receipt o) ciphertext advance s t v.db w.db
      → Removed (λ (x : OrphanEvent). x.id) o.id v.db.orphans w.db.orphans
      → w.db.staging ≡ v.db.staging
      → PromotedOrphan o m ciphertext advance v (ok tt) w

-- How the promotion of a staged receipt may end.
pub data PromotedStaging (r : StagingReceipt) (m : Match) (ciphertext : Option (List ℕ))
    (advance : Bool) (v : World) : Result ReceiptError (Unit {0}) → World → Type 0 where
  refused : {w : World} → Steady v w → PromotedStaging r m ciphertext advance v (err database) w
  promoted :
      {w : World} (s t : ℕ)
      → v.clock ≤ s
      → s ≤ t
      → t ≤ w.clock
      → w.sent ≡ v.sent
      → Effects m (staging_receipt r) ciphertext advance s t v.db w.db
      → Removed (λ (x : StagingReceipt). x.id) r.id v.db.staging w.db.staging
      → w.db.orphans ≡ v.db.orphans
      → PromotedStaging r m ciphertext advance v (ok tt) w
