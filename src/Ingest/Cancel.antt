-- ===== src/Ingest/Cancel.antt =====
-- src/ingest/repo.rs cancel, and what a cancellation means to the dispatcher.
use messgr.Base.{
  ℕ, ◌≤◌, ◌≡◌, refl, sym, ap, subst, ◌∙◌, inl, inr, Bool, true, false, Option, none, some, List, [],
  ◌∷◌, arith, if◌then◌else◌, ◌==◌, Bool-cases, is_some, any, find, get_or, nat_eq, string_eq,
  option_eq, list_eq,
}
use messgr.Store.Tables.{Db, OutboxRow}
use messgr.Store.Exec.{Result, ok, err, pure, query, ◌>>=◌, World}
use messgr.Dispatcher.Queries.{is_row, cancelled as is_dead}
use messgr.Dispatcher.Worker.{Context, process_one}
use messgr.Dispatcher.Send.{process_one-sends}
use messgr.Store.Steps.{Ends, Ends-now, Ends-query, Ends-sql}
use messgr.Ingest.Request.{IngestError, database}
use messgr.Ingest.Repo.{
  CancelOutcome, cancelled, resolved, final_status_of, is_owned, mark_cancelled, cancel,
}

module _ (id producer_id : ℕ) where
  -- Cancelling twice is cancelling once: the first time stays.
  pub mark_cancelled-mark_cancelled :
      (s t : ℕ) (rows : List OutboxRow)
      → mark_cancelled id producer_id t (mark_cancelled id producer_id s rows)
        ≡ mark_cancelled id producer_id s rows
  unfolding mark_cancelled
  mark_cancelled-mark_cancelled s t [] = refl
  mark_cancelled-mark_cancelled s t (row ∷ rows) = elim (Bool-cases (is_owned id producer_id row)) [
    | inl e ↦ let rest = mark_cancelled-mark_cancelled s t rows in ground (arith, e, rest)
    | inr e ↦ let rest = mark_cancelled-mark_cancelled s t rows in ground (arith, e, rest)
  ]

  marked_id :
      (t : ℕ) (r : OutboxRow) (rows : List OutboxRow)
      → is_row id r ≡ false
      → find (is_row id) (mark_cancelled id producer_id t (r ∷ rows))
        ≡ find (is_row id) (mark_cancelled id producer_id t rows)
  unfolding mark_cancelled
  marked_id t r rows e = elim (Bool-cases (is_owned id producer_id r)) [
    | inl own ↦ ground (arith, e, own)
    | inr other ↦ ground (arith, e, other)
  ]

  marked_first :
      (t : ℕ) (r : OutboxRow) (rows : List OutboxRow)
      → is_row id r ≡ true
      → (r.producer_id == producer_id) ≡ true
      → find (is_row id) (mark_cancelled id producer_id t (r ∷ rows))
        ≡ some (record r { cancelled_at = some (get_or r.cancelled_at t) })
  unfolding mark_cancelled
  marked_first t r rows e own = ground (arith, e, own)

  is_marked :
      (t : ℕ) (rows : List OutboxRow) (row : OutboxRow)
      → find (is_row id) rows ≡ some row
      → (row.producer_id == producer_id) ≡ true
      → (row' : OutboxRow) × (find (is_row id) (mark_cancelled id producer_id t rows) ≡ some row')
        × (is_some row'.cancelled_at ≡ true)
  is_marked t [] row h own = absurd (cc)
  is_marked t (r ∷ rows) row h own = elim (Bool-cases (is_row id r)) [
    | inl e ↦
        let same : (some r ≡ some row) = rw e at h in
        (
          record r { cancelled_at = some (get_or r.cancelled_at t) },
          marked_first t r rows e (cc),
          refl,
        )
    | inr e ↦
        let (row', found, marked) = is_marked t rows row (ground (arith, e, h)) own in
        (row', marked_id t r rows e ∙ found, marked)
  ]

  mark_none :
      (t : ℕ) (rows : List OutboxRow)
      → any (is_owned id producer_id) rows ≡ false
      → mark_cancelled id producer_id t rows ≡ rows
  unfolding mark_cancelled
  mark_none t [] h = refl
  mark_none t (r ∷ rows) h = elim (Bool-cases (is_owned id producer_id r)) [
    | inl e ↦ absurd (ground (arith, e, h))
    | inr e ↦ let rest = mark_none t rows (ground (arith, e, h)) in ground (arith, e, rest)
  ]

  -- How a cancellation may end.
  pub data Cancelling (v : World) : Result IngestError CancelOutcome → World → Type 0 where
    failed : {w : World} → w.db ≡ v.db → Cancelling v (err database) w
    marked :
        {w : World} (t : ℕ)
        → v.clock ≤ t
        → any (is_owned id producer_id) v.db.outbox ≡ true
        → w.db ≡ record v.db { outbox = mark_cancelled id producer_id t v.db.outbox }
        → Cancelling v (ok cancelled) w
    gone :
        {w : World}
        → any (is_owned id producer_id) v.db.outbox ≡ false
        → w.db ≡ v.db
        → Cancelling v (ok (resolved (final_status_of id producer_id v.db))) w

  by_match :
      (v w : World) (t : ℕ) (matched : Bool)
      → v.clock ≤ t
      → any (is_owned id producer_id) v.db.outbox ≡ matched
      → w.db ≡ record v.db { outbox = mark_cancelled id producer_id t v.db.outbox }
      → Ends
          (Cancelling v)
          (if matched then pure cancelled else (do
            final_status ← query database (final_status_of id producer_id)
            pure (resolved final_status)))
          w
  by_match v w t true h is db = marked t h is db
  by_match v w t false h is db =
      Ends-query (Cancelling v) database _ (final_status_of id producer_id) w
        (λ u k. failed (k.db ∙ same))
        (λ u k.
          subst (λ o. Cancelling v (ok (resolved o)) u)
            (ap (final_status_of id producer_id) (sym same)) (gone is (k.db ∙ same)))
    where
      same : w.db ≡ v.db
      same = db ∙ ap (λ rows. record v.db { outbox = rows }) (mark_none t v.db.outbox is)

  pub cancel-Cancelling : (v : World) → Ends (Cancelling v) (cancel id producer_id) v
  unfolding cancel
  cancel-Cancelling v = Ends-now (Cancelling v) _ v (λ u k.
      Ends-sql (Cancelling v) database _ _ u (λ w h. failed (h.db ∙ k.db))
        (λ w h.
          by_match v w u.clock _ k.later
            (ap (λ (d : Db). any (is_owned id producer_id) d.outbox) (sym k.db))
            (h.db
              ∙ ap
                  (λ (d : Db). record d { outbox = mark_cancelled id producer_id u.clock d.outbox })
                  k.db)))

stays_cancelled :
    (id producer_id : ℕ) (v : World) (row : OutboxRow)
    → find (is_row id) v.db.outbox ≡ some row
    → (row.producer_id == producer_id) ≡ true
    → {r : Result IngestError CancelOutcome} {w : World} → Cancelling id producer_id v r w
    → r ≡ ok cancelled
    → any (is_owned id producer_id) v.db.outbox ≡ true
    → is_dead id w.db ≡ some true
unfolding is_dead
stays_cancelled id producer_id v row h own (failed same) e hit = absurd (cc e)
stays_cancelled id producer_id v row h own (marked t later is db) e hit =
    let (row', found, dead) = is_marked id producer_id t v.db.outbox row h own in
    ap (is_dead id) db
    ∙ ap (λ (o : Option OutboxRow). elim o [ none ↦ none | some x ↦ some (is_some x.cancelled_at) ])
        found
    ∙ ap some dead
stays_cancelled id producer_id v row h own (gone is same) e hit = absurd (cc (is, hit))

owned_any :
    (id producer_id : ℕ) (rows : List OutboxRow) (row : OutboxRow)
    → find (is_row id) rows ≡ some row
    → (row.producer_id == producer_id) ≡ true
    → any (is_owned id producer_id) rows ≡ true
owned_any id producer_id [] row h own = absurd (cc)
owned_any id producer_id (r ∷ rows) row h own = elim (Bool-cases (is_row id r)) [
  | inl e ↦
      let same : (some r ≡ some row) = rw e at h in
      let mine : (r.producer_id == producer_id) ≡ true = cc in ground (arith, e, mine)
  | inr e ↦
      let rest = owned_any id producer_id rows row (ground (arith, e, h)) own in
      ground (arith, e, rest)
]

-- Once a producer's cancellation of its row in the queue has succeeded, processing that row with the
-- database as the cancellation left it sends no message, also where the row was claimed before.
pub cancel-process_one :
    (ctx : Context) (row queued : OutboxRow) (producer_id : ℕ) (v w : World)
    → find (is_row row.comms_request_id) v.db.outbox ≡ some queued
    → (queued.producer_id == producer_id) ≡ true
    → (cancel row.comms_request_id producer_id v).0 ≡ ok cancelled
    → w.db ≡ (cancel row.comms_request_id producer_id v).1.db
    → (process_one ctx row w).sent ≡ w.sent
cancel-process_one ctx row queued producer_id v w found own success same =
    elim (process_one-sends ctx row w) [
      | inl none_sent ↦ none_sent
      | inr (m, d) ↦ absurd (
          cc (
            d.permitted.not_cancelled,
            ap (is_dead row.comms_request_id) same,
            stays_cancelled row.comms_request_id producer_id v queued found own
                (cancel-Cancelling row.comms_request_id producer_id v) success
                (owned_any row.comms_request_id producer_id v.db.outbox queued found own),
          ))
    ]
