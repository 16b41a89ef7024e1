-- ===== src/Tests/Work.antt =====
-- Tests of the processing of one claimed row.
use messgr.Base.{
  ◌+◌, ◌/◌, ◌≤◌, ◌≡◌, refl, ◌⊎◌, none, [], ◌∷◌, arith, lookup, put, nat_eq, string_eq, option_eq,
  list_eq,
}
use messgr.Store.Exec.{next_call, utc_now, query, execute, transaction, Message}
use messgr.Store.Steps.{Ends}
use messgr.Quota.Tracker.{check_and_record}
use messgr.Customers.Deks.{get_or_create_dek, find_dek, create_dek, insert_dek}
use messgr.Dispatcher.Queries.{
  is_suppressed, suppressed, load_verified_at, verified_at, record_event, load_ciphertexts,
  ciphertexts, insert_event, is_cancelled, cancelled, finalize, delete_row, write_terminal,
}
use messgr.Dispatcher.Worker.{
  check_quota_now, load_message, send_message, after_send, terminal, try_process, process_one,
  backoff_delay, backoff_base, backoff_cap,
}
use messgr.Dispatcher.Atomic.{Recorded, write_terminal-Recorded}
use messgr.Dispatcher.Outcome.{Outcome, Delivered}
use messgr.Dispatcher.Send.{process_one-sends}
use messgr.Dispatcher.Backoff.{backoff_delay-bounds}
use messgr.Dispatcher.Drain.{write_discarded, write_expired}
use messgr.Dispatcher.Attempts.{Settled, write_outcome-Settled}
use messgr.Dispatcher.Batch.{sent_count, batch_sends}
use messgr.Dispatcher.Drain.{process_batch, drain_batch, discard_batch}
use messgr.Tests.Samples.{context, queued_row, one_queued, world_with}

sends_message :
    (process_one context queued_row (world_with one_queued)).sent
    ≡ record { destination = 2 ∷ []; body = 3 ∷ [] } ∷ []
unfolding process_one try_process utc_now is_suppressed query suppressed load_verified_at
    verified_at record_event execute check_quota_now check_and_record lookup put load_message
    load_ciphertexts ciphertexts insert_event next_call is_cancelled cancelled send_message
    after_send transaction write_terminal finalize delete_row get_or_create_dek find_dek create_dek
    insert_dek
sends_message = refl

process_one-sends_example :
    ((process_one context queued_row (world_with one_queued)).sent ≡ [])
    ⊎ ((m : Message) × Delivered context queued_row
          (world_with one_queued)
          m
          (process_one context queued_row (world_with one_queued)))
process_one-sends_example = process_one-sends context queued_row (world_with one_queued)

write_terminal-Recorded_example :
    Ends
      (Recorded (terminal queued_row "sent" none none) (world_with one_queued))
      (write_terminal (terminal queued_row "sent" none none))
      (world_with one_queued)
write_terminal-Recorded_example =
    write_terminal-Recorded (terminal queued_row "sent" none none) (world_with one_queued)

backoff_delay-bounds_example :
    (backoff_base ≤ backoff_delay (λ n. n) 3)
    × (backoff_delay (λ n. n) 3 ≤ backoff_cap + backoff_cap / 2)
backoff_delay-bounds_example = backoff_delay-bounds (λ n. n) 3 (λ n. omega arith)

write_outcome-Settled_example :
    Settled
      (terminal queued_row "discarded" none none)
      (world_with one_queued)
      (write_discarded queued_row (world_with one_queued))
    × Settled
        (terminal queued_row "expired" none none)
        (world_with one_queued)
        (write_expired queued_row (world_with one_queued))
write_outcome-Settled_example = write_outcome-Settled queued_row (world_with one_queued)

batch_sends_example :
    let rows = queued_row ∷ queued_row ∷ [] in
    (sent_count (process_batch context rows (world_with one_queued)) ≤ 2)
    × (sent_count (drain_batch context 5 rows (world_with one_queued)) ≤ 2)
    × ((discard_batch rows (world_with one_queued)).sent ≡ [])
batch_sends_example = batch_sends context 5 (queued_row ∷ queued_row ∷ []) (world_with one_queued)
