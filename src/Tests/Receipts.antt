-- ===== src/Tests/Receipts.antt =====
-- Tests of the provider's receipts.
use messgr.Base.{◌+◌, ◌*◌, ◌≤◌, ◌≡◌, refl, ◌&&◌, ◌||◌, none, some, [], ◌∷◌, ltb, any}
use mathlib.Core.List.{Permᴰ}
use messgr.Store.Tables.{StagingReceipt, Db, Event, OrphanEvent}
use messgr.Receipts.Advance.{advanced_by-Perm, highest, advanced_by, rank}
use messgr.Receipts.Reconcile.{promote_match, match_for, reconcile_all, reconcile, Keys}
use messgr.Store.Steps.{Ends}
use messgr.Dispatcher.Queries.{suppressed}
use messgr.Tests.Samples.{keystore, one_queued, world_with}
use messgr.Receipts.Repo.{
  suppress_for, suppress_days, find_match, join_event, newest_match, upsert_suppression,
  insert_comms_event, promote_and, delete_orphan, promote_orphan,
}
use messgr.Receipts.Ageing.{Missed, reconcile_one-Missed}
use messgr.Receipts.Suppress.{goes_to, suppress_for-suppressed}
use messgr.Receipts.Advance.{rank, advanced_by, highest, advanced_by-Perm}
use messgr.Receipts.Status.{is_recognized_event_type, should_advance, auto_suppress_reason}
use messgr.Receipts.Reconcile.{
  Keys, reconcile, reconcile_all, reconcile_one, match_for, promote_match, seal,
}
use messgr.Dispatcher.Queries.{suppressed, insert_event, finalize}
use messgr.Store.Exec.{query, execute, transaction, utc_now, next_call}
use messgr.Store.Steps.{Ends}
use messgr.Zone.{day_ms}

abbrev pub bounce : OrphanEvent
bounce = record {
  id = 5;
  provider = "twilio";
  provider_ref = "ref-1";
  occurred_at = 900;
  event_type = "bounced";
  provider_status = some "undelivered";
  provider_payload_raw = none;
  reconcile_attempts = 2;
}

abbrev pub delivery : StagingReceipt
delivery = record {
  id = 6;
  provider = "twilio";
  provider_ref = "ref-1";
  occurred_at = 800;
  event_type = "delivered";
  provider_status = none;
  provider_payload_raw = 4 ∷ [];
}

abbrev pub sent_event : Event
sent_event = record {
  comms_request_id = 100;
  customer_id = 20;
  occurred_at = 700;
  event_type = "sent";
  provider_ref = "ref-1";
  provider_status = none;
  provider_payload = none;
}

abbrev pub sent_db : Db
sent_db = record one_queued {
  events = sent_event ∷ [];
  orphans = bounce ∷ [];
  staging = delivery ∷ [];
}

abbrev pub keys : Keys
keys = record {
  keystore = keystore;
  aad = λ id. id ∷ [];
  encrypt = λ dek aad text. some text;
  new_uuid = λ call. 1000 + call;
}

reconciles :
    (reconcile keys 3 (world_with sent_db)).1.db.suppression
    ≡ record {
      destination_hmac = 1 ∷ [];
      reason = "hard_bounce";
      added_at = 1000;
      review_at = 1000 + 365 * day_ms;
    }
      ∷ []
unfolding reconcile reconcile_all match_for promote_match find_match newest_match join_event query
    execute transaction utc_now next_call seal promote_orphan promote_and insert_comms_event
    insert_event finalize should_advance is_recognized_event_type auto_suppress_reason
    upsert_suppression delete_orphan
reconciles = refl

advanced_by-Perm_example :
    (rank (advanced_by (some "queued") ("delivered" ∷ "bounced" ∷ []))
      ≡ rank (advanced_by (some "queued") ("bounced" ∷ "delivered" ∷ [])))
    × (rank (advanced_by (some "queued") ("delivered" ∷ "bounced" ∷ []))
        ≡ highest (rank (some "queued")) ("delivered" ∷ "bounced" ∷ []))
    × (rank (some "queued") ≤ rank (advanced_by (some "queued") ("delivered" ∷ "bounced" ∷ [])))
unfolding is_recognized_event_type
advanced_by-Perm_example =
    advanced_by-Perm (some "queued") ("delivered" ∷ "bounced" ∷ []) ("bounced" ∷ "delivered" ∷ [])
      refl (refl, (refl, tt)) (refl, (refl, tt)) ∣ Permᴰ.swap refl refl ∣₁

suppress_for-suppressed_example :
    suppressed 50 100 5000 (suppress_for (some "complaint") (1 ∷ []) 1000 one_queued) ≡ (
      suppressed 50 100 5000 one_queued
      || (any (goes_to 50 100 (1 ∷ [])) one_queued.ledger
          && ltb 5000 (1000 + suppress_days * day_ms)))
suppress_for-suppressed_example =
    suppress_for-suppressed "complaint" (1 ∷ []) 1000 one_queued 50 100 5000

reconcile_one-Missed_example :
    Ends
      (Missed bounce 3
        (record { reconciled = 0; aged_out = 0; still_pending = 0 })
        (world_with sent_db))
      (reconcile_one keys 3 bounce none
        (record { reconciled = 0; aged_out = 0; still_pending = 0 }))
      (world_with sent_db)
reconcile_one-Missed_example =
    reconcile_one-Missed keys 3 bounce (record { reconciled = 0; aged_out = 0; still_pending = 0 })
      (world_with sent_db) (λ e. refl, tt)
