-- ===== src/Dispatcher/Batch.antt =====
-- The batches of src/dispatcher/worker.rs run_channel_loop and of src/dispatcher/drain.rs: how many
-- messages they send.
use messgr.Base.{
  ℕ, ◌+◌, ◌≤◌, String, ◌≡◌, refl, ap, ◌∙◌, inl, inr, Bool, true, false, not, none, List, [], ◌∷◌,
  arith, if◌then◌else◌, length, count,
}
use messgr.Store.Tables.{OutboxRow}
use messgr.Store.Exec.{World}
use messgr.Dispatcher.Worker.{Context, process_one, is_expired, terminal}
use messgr.Dispatcher.Send.{process_one-sends}
use messgr.Dispatcher.Attempts.{Settled, given_up, recorded, write_outcome-Settled}
use messgr.Dispatcher.Drain.{
  process_batch, drain_batch, discard_batch, write_expired, write_discarded,
}

abbrev pub sent_count : World → ℕ
sent_count w = length w.sent

one_at_most :
    (ctx : Context) (row : OutboxRow) (w : World)
    → sent_count (process_one ctx row w) ≤ sent_count w + 1
one_at_most ctx row w = elim (process_one-sends ctx row w) [
  | inl none_sent ↦ let unsent = ap length none_sent in omega arith
  | inr (m, d) ↦ let one = ap length d.sent in omega arith
]

Settled-sent :
    (row : OutboxRow) (status : String) (v w : World)
    → Settled (terminal row status none none) v w
    → w.sent ≡ v.sent
Settled-sent row status v w (given_up k) = k.sent
Settled-sent row status v w (recorded now later db sent quota) = sent

process_batch_sends :
    (ctx : Context) (rows : List OutboxRow) (w : World)
    → sent_count (process_batch ctx rows w) ≤ sent_count w + length rows
unfolding process_batch
process_batch_sends ctx [] w = omega arith
process_batch_sends ctx (row ∷ rows) w =
    let rest = process_batch_sends ctx rows (process_one ctx row w) in
    let first = one_at_most ctx row w in omega arith

drain_row :
    (ctx : Context) (row : OutboxRow) (w : World) (late : Bool)
    → sent_count (if late then write_expired row w else process_one ctx row w)
      ≤ sent_count w + (if not late then 1 else 0)
drain_row ctx row w true =
    let unsent = ap length (Settled-sent row "expired" w _ (write_outcome-Settled row w).1) in
    omega arith
drain_row ctx row w false = one_at_most ctx row w

drain_batch_sends :
    (ctx : Context) (now : ℕ) (rows : List OutboxRow) (w : World)
    → sent_count (drain_batch ctx now rows w)
      ≤ sent_count w + count (λ row. not (is_expired row now)) rows
unfolding drain_batch
drain_batch_sends ctx now [] w = omega arith
drain_batch_sends ctx now (row ∷ rows) w =
    let next : World = if is_expired row now then write_expired row w else process_one ctx row w in
    let rest = drain_batch_sends ctx now rows next in
    let first = drain_row ctx row w (is_expired row now) in omega arith

discard_batch_sends : (rows : List OutboxRow) (w : World) → (discard_batch rows w).sent ≡ w.sent
unfolding discard_batch
discard_batch_sends [] w = refl
discard_batch_sends (row ∷ rows) w =
    discard_batch_sends rows (write_discarded row w)
    ∙ Settled-sent row "discarded" w _ (write_outcome-Settled row w).0

-- A batch of claimed rows sends at most one message for each row; a batch of a drain at most one
-- for each row that had not expired when the batch began; a batch of a discard none.
pub batch_sends :
    (ctx : Context) (now : ℕ) (rows : List OutboxRow) (w : World)
    → (sent_count (process_batch ctx rows w) ≤ sent_count w + length rows)
      × (sent_count (drain_batch ctx now rows w)
          ≤ sent_count w + count (λ row. not (is_expired row now)) rows)
      × ((discard_batch rows w).sent ≡ w.sent)
batch_sends ctx now rows w =
    (process_batch_sends ctx rows w, drain_batch_sends ctx now rows w, discard_batch_sends rows w)
