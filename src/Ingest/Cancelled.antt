-- ===== src/Ingest/Cancelled.antt =====
-- src/ingest/repo.rs cancel: what it does to the queue, and its answer, row by row.
use messgr.Base.{
  ℕ, ◌≤◌, String, ◌≡◌, refl, subst, inl, inr, true, false, ◌&&◌, Option, none, some, List, [], ◌∷◌,
  arith, ◌==◌, and_true, beq_refl, beq_eq, Bool-cases, any, find, All, get_or, nat_eq, string_eq,
  option_eq, list_eq,
}
use messgr.Store.Tables.{Db, OutboxRow, Request}
use messgr.Store.Exec.{World, Result, ok, err}
use messgr.Store.Steps.{Ends}
use messgr.Ingest.Request.{IngestError, database}
use messgr.Ingest.Repo.{
  CancelOutcome, cancelled, resolved, final_status_of, is_owned, mark_cancelled, cancel, status_of,
}
use messgr.Ingest.Cancel.{Cancelling, failed, marked, gone, cancel-Cancelling}

-- The rows of one id and producer are marked with `t`, where they were not marked before; all
-- others stay.
pub data OwnMarked (id producer_id t : ℕ) : List OutboxRow → List OutboxRow → Type 0 where
  no_rows : OwnMarked id producer_id t [] []
  other :
      {row : OutboxRow} {before after : List OutboxRow}
      → ¬ ((row.comms_request_id ≡ id) × (row.producer_id ≡ producer_id))
      → OwnMarked id producer_id t before after
      → OwnMarked id producer_id t (row ∷ before) (row ∷ after)
  own :
      {row : OutboxRow} {before after : List OutboxRow}
      → row.comms_request_id ≡ id
      → row.producer_id ≡ producer_id
      → OwnMarked id producer_id t before after
      → OwnMarked id producer_id t
          (row ∷ before)
          (record row { cancelled_at = some (get_or row.cancelled_at t) } ∷ after)

-- The answer for a request that is not in the queue, by its final status in the ledger.
pub data Answer : Option String → CancelOutcome → Type 0 where
  unknown : Answer none CancelOutcome.not_found
  dead : Answer (some "cancelled") cancelled
  late :
      {status : String}
      → (status == "cancelled") ≡ false
      → Answer (some status) CancelOutcome.already_sent

resolved-Answer : (o : Option String) → Answer o (resolved o)
resolved-Answer none = unknown
resolved-Answer (some status) = elim (Bool-cases (status == "cancelled")) [
  | inl e ↦ let same : status ≡ "cancelled" = beq_eq status "cancelled" e in rw same dead
  | inr e ↦ rw e (late e)
]

module _ (id producer_id : ℕ) where
  not_own :
      (row : OutboxRow)
      → is_owned id producer_id row ≡ false
      → ¬ ((row.comms_request_id ≡ id) × (row.producer_id ≡ producer_id))
  not_own row h (a, b) = let no = rw (a, b) at h in cc (no, beq_refl id, beq_refl producer_id)

  mark_cancelled-OwnMarked :
      (t : ℕ) (rows : List OutboxRow)
      → OwnMarked id producer_id t rows (mark_cancelled id producer_id t rows)
  unfolding mark_cancelled
  mark_cancelled-OwnMarked t [] = no_rows
  mark_cancelled-OwnMarked t (row ∷ rest) = elim (Bool-cases (is_owned id producer_id row)) [
    | inl e ↦
        let both = and_true (row.comms_request_id == id) (row.producer_id == producer_id) e in
        rw e (own (beq_eq _ _ both.0) (beq_eq _ _ both.1) (mark_cancelled-OwnMarked t rest))
    | inr e ↦ rw e (other (not_own row e) (mark_cancelled-OwnMarked t rest))
  ]

  none_own :
      (rows : List OutboxRow)
      → any (is_owned id producer_id) rows ≡ false
      → All (λ row. ¬ ((row.comms_request_id ≡ id) × (row.producer_id ≡ producer_id))) rows
  none_own [] h = tt
  none_own (row ∷ rest) h = (not_own row (ground (arith, h)), none_own rest (ground (arith, h)))

  -- The final status of the producer's own request in the ledger.
  abbrev pub own_status : Db → Option String
  own_status db =
      elim (find (λ (r : Request). (r.id == id) && (r.producer_id == producer_id)) db.ledger) [
        | none ↦ none
        | some r ↦ r.final_status
      ]

  -- How a cancellation may end, by the queue and the ledger.
  pub data Cancelled (v : World) : Result IngestError CancelOutcome → World → Type 0 where
    refused : {w : World} → w.db ≡ v.db → Cancelled v (err database) w
    queued :
        {w : World} (t : ℕ) (outbox : List OutboxRow)
        → v.clock ≤ t
        → any
            (λ (row : OutboxRow). (row.comms_request_id == id) && (row.producer_id == producer_id))
            v.db.outbox
          ≡ true
        → OwnMarked id producer_id t v.db.outbox outbox
        → w.db ≡ record v.db { outbox = outbox }
        → Cancelled v (ok cancelled) w
    settled :
        {w : World} {outcome : CancelOutcome}
        → All (λ row. ¬ ((row.comms_request_id ≡ id) × (row.producer_id ≡ producer_id))) v.db.outbox
        → Answer (own_status v.db) outcome
        → w.db ≡ v.db
        → Cancelled v (ok outcome) w

  final_status_of-own_status : (db : Db) → final_status_of id producer_id db ≡ own_status db
  unfolding final_status_of
  final_status_of-own_status db =
      elim (find (λ (r : Request). (r.id == id) && (r.producer_id == producer_id)) db.ledger)
        as (λ (o : Option Request).
          status_of o ≡ elim o [ none ↦ none | some r ↦ r.final_status ]) [
            | none ↦ refl
            | some r ↦ refl
          ]

  by_tables :
      {v w : World} {r : Result IngestError CancelOutcome}
      → Cancelling id producer_id v r w
      → Cancelled v r w
  by_tables (failed same) = refused same
  by_tables {v = v} (marked t later is db) =
      queued t _ later is (mark_cancelled-OwnMarked t v.db.outbox) db
  by_tables {v = v} (gone is same) =
      settled (none_own v.db.outbox is)
        (subst (λ o. Answer o (resolved (final_status_of id producer_id v.db)))
          (final_status_of-own_status v.db) (resolved-Answer _))
        same

  -- A cancellation fails with nothing written; or finds the producer's own row in the queue, marks
  -- it, where it was not marked before, and leaves every other row; or finds none in the queue: then
  -- nothing is written, and the answer follows from the final status of the producer's own request.
  pub cancel-Cancelled : (v : World) → Ends (Cancelled v) (cancel id producer_id) v
  cancel-Cancelled v = by_tables (cancel-Cancelling id producer_id v)
