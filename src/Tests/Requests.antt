-- ===== src/Tests/Requests.antt =====
-- Tests of the ingest of requests and their cancellation.
use messgr.Base.{ℕ, ◌≡◌, refl, ◌⊎◌, none, [], ◌∷◌}
use messgr.Store.Exec.{ok, err, sql, utc_now, transaction}
use messgr.Store.Steps.{Ends}
use messgr.Dispatcher.Worker.{process_one}
use messgr.Ingest.Request.{database}
use messgr.Ingest.Repo.{
  claim_key, reply, Insert, created, replayed, insert_transactional, cancel, cancelled,
}
use messgr.Ingest.Insert.{Inserted, insert_transactional-Inserted}
use messgr.Ingest.Once.{insert_transactional-once}
use messgr.Ingest.Cancel.{cancel-process_one}
use messgr.Ingest.Cancelled.{Cancelled, cancel-Cancelled}
use messgr.Tests.Samples.{context, queued_row, one_queued, world_with}

abbrev request : ℕ → Insert
request id = record {
  idempotency_key = "order-1";
  comms_request_id = id;
  tenant_id = 1;
  customer_id = 20;
  channel = "sms";
  class = "transactional";
  priority = 1;
  template_id = "welcome";
  template_version = 1;
  campaign_id = none;
  destination_hmac = 1 ∷ [];
  destination_ciphertext = 2 ∷ [];
  payload_ciphertext = 3 ∷ [];
  producer_id = 7;
  address_id = 30;
  scheduled_for = none;
  expires_at = none;
}

first_created : (insert_transactional (request 200) (world_with one_queued)).0 ≡ ok created
unfolding insert_transactional utc_now transaction claim_key reply
first_created = refl

insert_transactional-Inserted_example :
    Ends
      (Inserted (request 200) (world_with one_queued))
      (insert_transactional (request 200))
      (world_with one_queued)
insert_transactional-Inserted_example =
    insert_transactional-Inserted (request 200) (world_with one_queued)

insert_transactional-once_example :
    let w = (insert_transactional (request 200) (world_with one_queued)).1 in
    ((insert_transactional (request 201) w).1.db ≡ w.db)
    × (((insert_transactional (request 201) w).0 ≡ err database)
        ⊎ ((insert_transactional (request 201) w).0 ≡ ok (replayed 200)))
insert_transactional-once_example =
    insert_transactional-once (request 200) (request 201) (world_with one_queued)
      (insert_transactional (request 200) (world_with one_queued)).1 first_created refl refl refl

cancels_queued : (cancel 100 7 (world_with one_queued)).0 ≡ ok cancelled
unfolding cancel utc_now sql
cancels_queued = refl

cancel-Cancelled_example :
    Ends (Cancelled 100 7 (world_with one_queued)) (cancel 100 7) (world_with one_queued)
cancel-Cancelled_example = cancel-Cancelled 100 7 (world_with one_queued)

cancel-process_one_example :
    (process_one context queued_row (cancel 100 7 (world_with one_queued)).1).sent
    ≡ (cancel 100 7 (world_with one_queued)).1.sent
cancel-process_one_example =
    cancel-process_one context queued_row queued_row 7 (world_with one_queued)
      (cancel 100 7 (world_with one_queued)).1 refl refl cancels_queued refl
