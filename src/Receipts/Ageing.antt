-- ===== src/Receipts/Ageing.antt =====
-- `record_miss` of src/orphan_reconcile/repo.rs, and what the run of
-- src/orphan_reconcile/reconcile.rs reports of it.
use messgr.Base.{
  ℕ, ◌+◌, ◌≡◌, refl, ap, ◌∙◌, inl, inr, Bool, true, false, not, none, List, [], ◌∷◌, arith, leb,
  if◌then◌else◌, ◌==◌, Bool-cases, any, All, nat_eq, string_eq, option_eq, list_eq,
}
use messgr.Store.Tables.{OrphanEvent, Db}
use messgr.Store.Exec.{World, Result, ok, err, Exec, pure, execute, ◌>>◌}
use messgr.Store.Steps.{Ends, Ends-regroup, Ends-execute}
use messgr.Receipts.Repo.{ReceiptError, database, record_miss, count_miss, drop_aged}
use messgr.Receipts.Reconcile.{Keys, count_unmatched, reconcile_one, ReconcileReport}

-- What is left of the row of an id.
abbrev pub missed : ℕ → ℕ → List OrphanEvent → List OrphanEvent
missed id cap [] = []
missed id cap (o ∷ rest) =
    let rows = missed id cap rest in
    if not (o.id == id)
    then o ∷ rows
    else if leb cap (o.reconcile_attempts + 1)
    then rows
    else record o { reconcile_attempts = o.reconcile_attempts + 1 } ∷ rows

miss-missed :
    (id cap : ℕ) (orphans : List OrphanEvent)
    → drop_aged id cap (count_miss id orphans) ≡ missed id cap orphans
unfolding count_miss drop_aged
miss-missed id cap [] = refl
miss-missed id cap (o ∷ rest) = let ih = miss-missed id cap rest in ground (arith, ih)

-- Rows of an id have the attempts that the run read.
abbrev pub SameAttempts : OrphanEvent → List OrphanEvent → Type 0
SameAttempts o rows =
    All (λ (q : OrphanEvent). (q.id == o.id) ≡ true → q.reconcile_attempts ≡ o.reconcile_attempts)
      rows

abbrev pub has_row : ℕ → List OrphanEvent → Bool
has_row id rows = any (λ (q : OrphanEvent). q.id == id) rows

aged_gone :
    (o : OrphanEvent) (cap : ℕ) (rows : List OrphanEvent)
    → SameAttempts o rows
    → leb cap (o.reconcile_attempts + 1) ≡ true
    → has_row o.id (missed o.id cap rows) ≡ false
aged_gone o cap [] h k = refl
aged_gone o cap (q ∷ rest) h k =
    let ih = aged_gone o cap rest h.1 k in
    elim (Bool-cases (q.id == o.id)) [
      | inl e ↦ let same = h.0 e in ground (arith, ih, e, same, k)
      | inr e ↦ ground (arith, ih, e)
    ]

pending_stays :
    (o : OrphanEvent) (cap : ℕ) (rows : List OrphanEvent)
    → SameAttempts o rows
    → leb cap (o.reconcile_attempts + 1) ≡ false
    → missed o.id cap rows ≡ count_miss o.id rows
unfolding count_miss
pending_stays o cap [] h k = refl
pending_stays o cap (q ∷ rest) h k =
    let ih = pending_stays o cap rest h.1 k in
    elim (Bool-cases (q.id == o.id)) [
      | inl e ↦ let same = h.0 e in ground (arith, ih, e, same, k)
      | inr e ↦ ground (arith, ih, e)
    ]

abbrev pub with_orphans : Db → List OrphanEvent → Db
with_orphans db rows = record db { orphans = rows }

-- The table and the report after an orphan without a match: nothing happened, its attempts were
-- counted and the second statement failed, or both statements ran.
pub data Missed (o : OrphanEvent) (cap : ℕ) (report : ReconcileReport) (v : World)
    : Result ReceiptError ReconcileReport → World → Type 0 where
  uncounted : {w : World} → w.db ≡ v.db → Missed o cap report v (err database) w
  counted :
      {w : World}
      → w.db ≡ with_orphans v.db (count_miss o.id v.db.orphans)
      → Missed o cap report v (err database) w
  aged :
      {w : World}
      → w.db ≡ with_orphans v.db (missed o.id cap v.db.orphans)
      → has_row o.id w.db.orphans ≡ false
      → Missed o cap report v (ok (record report { aged_out = report.aged_out + 1 })) w
  stayed :
      {w : World}
      → w.db ≡ with_orphans v.db (count_miss o.id v.db.orphans)
      → Missed o cap report v (ok (record report { still_pending = report.still_pending + 1 })) w

module _ (keys : Keys) (cap : ℕ) (o : OrphanEvent) (report : ReconcileReport) (v : World) where
  both_ran :
      (w : World)
      → SameAttempts o v.db.orphans
      → w.db ≡ with_orphans v.db (drop_aged o.id cap (count_miss o.id v.db.orphans))
      → Missed o cap report v (ok (count_unmatched cap o report)) w
  both_ran w same d =
      let is = d ∙ ap (with_orphans v.db) (miss-missed o.id cap v.db.orphans) in
      elim (Bool-cases (leb cap (o.reconcile_attempts + 1))) [
        | inl late ↦ rw late (
            aged is (
              ap (λ (db : Db). has_row o.id db.orphans) is
              ∙ aged_gone o cap v.db.orphans same late))
        | inr early ↦
            rw early
              (stayed (is ∙ ap (with_orphans v.db) (pending_stays o cap v.db.orphans same early)))
      ]

  -- An orphan without a match whose rows have the attempts that the run read: on success its row is
  -- gone exactly when the report counts it as aged out and is kept with one attempt more otherwise,
  -- and no other row changes. On an error nothing happened, or the attempt is counted and the row kept.
  pub reconcile_one-Missed :
      SameAttempts o v.db.orphans
      → Ends (Missed o cap report v) (reconcile_one keys cap o none report) v
  unfolding record_miss
  reconcile_one-Missed same = Ends-regroup (Missed o cap report v) second (pure counts) first v (
      Ends-execute (Missed o cap report v) database _ (second >> pure counts) v
        (λ w k. uncounted k.db)
        (λ w c.
          Ends-execute (Missed o cap report v) database _ (pure counts) w
            (λ u k. counted (k.db ∙ c.db))
            (λ u d.
              both_ran u same
                (d.db ∙ ap (λ (db : Db). with_orphans db (drop_aged o.id cap db.orphans)) c.db))))
    where
      counts : ReconcileReport
      counts = count_unmatched cap o report

      first : Exec ReceiptError (Unit {0})
      first = execute database (λ db. with_orphans db (count_miss o.id db.orphans))

      second : Exec ReceiptError (Unit {0})
      second = execute database (λ db. with_orphans db (drop_aged o.id cap db.orphans))
