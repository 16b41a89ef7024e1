-- ===== src/Ingest/Insert.antt =====
-- src/ingest/repo.rs insert_transactional: an idempotency key is accepted once, and the rows of a
-- request are written together.
use messgr.Base.{
  ℕ, ◌≤◌, ◌≡◌, refl, sym, ap, subst, ◌∙◌, inl, inr, Bool, true, false, Option, none, some, [], ◌∷◌,
  ◌++◌, if◌then◌else◌, Option-cases, is_some,
}
use messgr.Store.Tables.{Db}
use messgr.Store.Laws.{Quiet, Quiet-refl}
use messgr.Store.Exec.{◌>>=◌, World, Result, ok, err, continue, pure, sql}
use messgr.Store.Steps.{
  Ends-sql, Steady, Ends, Body, failed, finished, Ends-now, Ends-query, Ends-execute,
  Ends-transaction, Steady-Quiet, Changed-Quiet,
}
use messgr.Ingest.Request.{IngestError, database}
use messgr.Ingest.Repo.{
  replay, Insert, InsertOutcome, created, replayed, reply, claim_key, write_rows, finish_insert,
  idempotency_row, ledger_row, queue_row, insert_transactional, find_idempotent_reply,
}

-- A request accepted at `now`: one row more in each of the three tables.
unfoldable pub accepted : Insert → ℕ → Db → Db
accepted i now db = record db {
  idempotency = db.idempotency ++ idempotency_row i now ∷ [];
  ledger = db.ledger ++ ledger_row i now ∷ [];
  outbox = db.outbox ++ queue_row i now ∷ [];
}

-- How an insert may end.
pub data Inserted (i : Insert) (v : World) : Result IngestError InsertOutcome → World → Type 0 where
  refused : {w : World} → w.db ≡ v.db → Inserted i v (err database) w
  known :
      {w : World} (id : ℕ)
      → reply i.producer_id i.idempotency_key v.db ≡ some id
      → w.db ≡ v.db
      → Inserted i v (ok (replayed id)) w
  fresh :
      {w : World} (now : ℕ)
      → v.clock ≤ now
      → reply i.producer_id i.idempotency_key v.db ≡ none
      → w.db ≡ accepted i now v.db
      → Inserted i v (ok created) w

-- What the transaction may have done.
data Claimed (i : Insert) (now : ℕ) (v : World) : Result IngestError Bool → World → Type 0 where
  broken : {w : World} → w.db ≡ v.db → Claimed i now v (err database) w
  lost :
      {w : World} (id : ℕ)
      → reply i.producer_id i.idempotency_key v.db ≡ some id
      → w.db ≡ v.db
      → Claimed i now v (ok false) w
  won :
      {w : World}
      → reply i.producer_id i.idempotency_key v.db ≡ none
      → w.db ≡ accepted i now v.db
      → Claimed i now v (ok true) w

module _ (i : Insert) (now : ℕ) (v : World) where
  broken_off : (w : World) → Steady v w → Claimed i now v (err database) w
  broken_off w k = broken k.db

  key_free :
      (db : Db)
      → reply i.producer_id i.idempotency_key db ≡ none
      → claim_key i now db
        ≡ (true, record db { idempotency = db.idempotency ++ idempotency_row i now ∷ [] })
  unfolding claim_key
  key_free db is =
      ap
        (λ (o : Option ℕ).
          if is_some o
          then (false, db)
          else (true, record db { idempotency = db.idempotency ++ idempotency_row i now ∷ [] }))
        is

  key_taken :
      (db : Db) (id : ℕ)
      → reply i.producer_id i.idempotency_key db ≡ some id
      → claim_key i now db ≡ (false, db)
  unfolding claim_key
  key_taken db id is =
      ap
        (λ (o : Option ℕ).
          if is_some o
          then (false, db)
          else (true, record db { idempotency = db.idempotency ++ idempotency_row i now ∷ [] }))
        is

  accepted_by :
      (db : Db) {d1 d2 d3 : Db}
      → d3 ≡ record d2 { outbox = d2.outbox ++ queue_row i now ∷ [] }
      → d2 ≡ record d1 { ledger = d1.ledger ++ ledger_row i now ∷ [] }
      → d1 ≡ record db { idempotency = db.idempotency ++ idempotency_row i now ∷ [] }
      → d3 ≡ accepted i now db
  unfolding accepted
  accepted_by db h k j =
      h
      ∙ ap (λ (d : Db). record d { outbox = d.outbox ++ queue_row i now ∷ [] })
          (k ∙ ap (λ (d : Db). record d { ledger = d.ledger ++ ledger_row i now ∷ [] }) j)

  -- What follows the claim, by whether it inserted a row.
  rows_written :
      (b : Bool) {x : World}
      → Quiet v x
      → (b ≡ false
          → (id : ℕ) × (reply i.producer_id i.idempotency_key v.db ≡ some id) × (x.db ≡ v.db))
      → (b ≡ true
          → (reply i.producer_id i.idempotency_key v.db ≡ none)
            × (x.db ≡ record v.db { idempotency = v.db.idempotency ++ idempotency_row i now ∷ [] }))
      → Ends (Body (Claimed i now v) v) (write_rows i now b) x
  rows_written false q taken free =
      let (id, is, same) = taken refl in finished q (λ w k. lost id is (k.db ∙ same))
  rows_written true {x = x} q taken free =
      let (is, first) = free refl in
      Ends-execute (Body (Claimed i now v) v) database _ _ x
        (λ y e. failed (Steady-Quiet q e) broken_off)
        (λ y ey.
          Ends-execute (Body (Claimed i now v) v) database _ (pure true) y
            (λ z e. failed (Steady-Quiet (Changed-Quiet q ey) e) broken_off)
            (λ z ez.
              finished (Changed-Quiet (Changed-Quiet q ey) ez)
                (λ w k. won is (accepted_by v.db (k.db ∙ ez.db) ey.db first))))

  taken :
      (db : Db)
      → (claim_key i now db).0 ≡ false
      → (id : ℕ) × (reply i.producer_id i.idempotency_key db ≡ some id)
        × ((claim_key i now db).1 ≡ db)
  taken db h = elim (Option-cases (reply i.producer_id i.idempotency_key db)) [
    | inl is ↦ absurd (cc (h, ap (λ (p : Bool × Db). p.0) (key_free db is)))
    | inr (id, is) ↦ (id, is, ap (λ (p : Bool × Db). p.1) (key_taken db id is))
  ]

  free :
      (db : Db)
      → (claim_key i now db).0 ≡ true
      → (reply i.producer_id i.idempotency_key db ≡ none)
        × ((claim_key i now db).1
            ≡ record db { idempotency = db.idempotency ++ idempotency_row i now ∷ [] })
  free db h = elim (Option-cases (reply i.producer_id i.idempotency_key db)) [
    | inl is ↦ (is, ap (λ (p : Bool × Db). p.1) (key_free db is))
    | inr (id, is) ↦ absurd (cc (h, ap (λ (p : Bool × Db). p.0) (key_taken db id is)))
  ]

  claimed :
      {u : World}
      → Steady v u
      → Ends (Body (Claimed i now v) v) (sql database (claim_key i now) >>= write_rows i now) u
  claimed {u = u} k =
      Ends-sql (Body (Claimed i now v) v) database (write_rows i now) (claim_key i now) u
        (λ x e. failed (Steady-Quiet (Steady-Quiet (Quiet-refl v) k) e) broken_off)
        (λ x ex.
          rows_written _ (Changed-Quiet (Steady-Quiet (Quiet-refl v) k) ex)
            (λ h.
              let (id, is, same) = taken v.db (ap (λ d. (claim_key i now d).0) (sym k.db) ∙ h) in
              (id, is, ex.db ∙ ap (λ d. (claim_key i now d).1) k.db ∙ same))
            (λ h.
              let (is, same) = free v.db (ap (λ d. (claim_key i now d).0) (sym k.db) ∙ h) in
              (is, ex.db ∙ ap (λ d. (claim_key i now d).1) k.db ∙ same)))

answered :
    (i : Insert) (v w : World) (id : ℕ)
    → reply i.producer_id i.idempotency_key v.db ≡ some id
    → w.db ≡ v.db
    → Ends (Inserted i v) (finish_insert i false) w
unfolding find_idempotent_reply
answered i v w id is same =
    Ends-query (Inserted i v) database replay (reply i.producer_id i.idempotency_key) w
      (λ u k. refused (k.db ∙ same))
      (λ u k.
        subst (λ o. Ends (Inserted i v) (replay o) u)
          (sym (ap (reply i.producer_id i.idempotency_key) same ∙ is)) (known id is (k.db ∙ same)))

ended :
    (i : Insert) (v w : World)
    → Steady v w
    → {r : Result IngestError Bool} {u : World} → Claimed i w.clock w r u
    → Ends (Inserted i v) (λ (x : World). continue r (finish_insert i) x) u
ended i v w k (broken same) = refused (same ∙ k.db)
ended i v w k (lost id is same) =
    answered i v _ id (ap (reply i.producer_id i.idempotency_key) (sym k.db) ∙ is) (same ∙ k.db)
ended i v w k (won is same) =
    fresh w.clock k.later (ap (reply i.producer_id i.idempotency_key) (sym k.db) ∙ is)
      (same ∙ ap (accepted i w.clock) k.db)

-- An insert ends with a database error and the tables as they were, or with the id that its key
-- already has and the tables as they were, or, if the key was free, with one row more in each of
-- the three tables. The `expect` never panics.
pub insert_transactional-Inserted :
    (i : Insert) (v : World) → Ends (Inserted i v) (insert_transactional i) v
unfolding insert_transactional
insert_transactional-Inserted i v = Ends-now (Inserted i v) _ v (λ w k. ended i v w k (
    Ends-transaction (Claimed i w.clock w) database w (broken_off i w.clock w) _
      (λ u h. claimed i w.clock w h)))
