-- ===== src/Receipts/Repo.antt =====
-- src/orphan_reconcile/repo.rs and src/webhook_receipt/repo.rs: the match of a receipt with a sent
-- message, the promotion of a receipt, and what happens to one without a match.
use messgr.Base.{
  ℕ, ◌+◌, ◌*◌, String, Bool, true, false, ◌&&◌, ◌||◌, not, Option, none, some, List, [], ◌∷◌, ◌++◌,
  ltb, leb, if◌then◌else◌, ◌==◌, any, keep, find, nat_eq, string_eq, option_eq, list_eq,
}
use messgr.Zone.{day_ms}
use messgr.Store.Tables.{Db, Event, Request, Suppression, OrphanEvent, StagingReceipt}
use messgr.Store.Exec.{Exec, pure, ◌>>=◌, ◌>>◌, utc_now, query, execute, transaction}
use messgr.Dispatcher.Queries.{insert_event, finalize}
use messgr.Receipts.Status.{auto_suppress_reason}

pub data ReceiptError : Type 0 where
  database vault encryption : ReceiptError

pub record Match : Type 0 where
  pub comms_request_id : ℕ
  pub comms_request_created_at : ℕ
  pub customer_id : ℕ
  pub current_final_status : Option String
  pub destination_hmac : List ℕ

abbrev pub match_of : Event → Request → Match
match_of ce cr = record {
  comms_request_id = cr.id;
  comms_request_created_at = cr.created_at;
  customer_id = cr.customer_id;
  current_final_status = cr.final_status;
  destination_hmac = cr.destination_hmac;
}

-- `ORDER BY occurred_at DESC, comms_request_id DESC`
abbrev pub is_newer : Event → Event → Bool
is_newer a b =
    ltb b.occurred_at a.occurred_at
    || ((a.occurred_at == b.occurred_at) && ltb b.comms_request_id a.comms_request_id)

abbrev pub newer : Option (Event × Request) → Option (Event × Request) → Option (Event × Request)
newer none b = b
newer (some a) none = some a
newer (some a) (some b) = if is_newer b.0 a.0 then some b else some a

-- The row of the join for one event; ids of the ledger are unique.
unfoldable pub join_event : Event → List Request → Option (Event × Request)
join_event ce ledger = elim (find (λ (cr : Request). cr.id == ce.comms_request_id) ledger) [
  | none ↦ none
  | some cr ↦ some (ce, cr)
]

abbrev pub has_ref : String → Event → Bool
has_ref provider_ref ce = (ce.provider_ref == provider_ref) && not (ce.provider_ref == "")

unfoldable pub newest_match : String → List Event → List Request → Option (Event × Request)
unfolding join_event
newest_match provider_ref [] ledger = none
newest_match provider_ref (ce ∷ rest) ledger =
    newer (if has_ref provider_ref ce then join_event ce ledger else none)
      (newest_match provider_ref rest ledger)

abbrev pub matched : Option (Event × Request) → Option Match
matched none = none
matched (some (ce, cr)) = some (match_of ce cr)

unfoldable pub find_match : String → Exec ReceiptError (Option Match)
unfolding newest_match
find_match provider_ref =
    query database (λ db. matched (newest_match provider_ref db.events db.ledger))

-- `INSERT … ON CONFLICT (destination_hmac) DO UPDATE … WHERE EXCLUDED.review_at > …`
unfoldable pub upsert_suppression : Suppression → List Suppression → List Suppression
upsert_suppression new [] = new ∷ []
upsert_suppression new (s ∷ rest) =
    if s.destination_hmac == new.destination_hmac
    then (if ltb s.review_at new.review_at
        then record s { reason = new.reason; review_at = new.review_at }
        else s)
      ∷ rest
    else s ∷ upsert_suppression new rest

abbrev pub suppress_days : ℕ
suppress_days = 365

abbrev pub suppress_for : Option String → List ℕ → ℕ → Db → Db
suppress_for none destination_hmac now db = db
suppress_for (some reason) destination_hmac now db = record db {
  suppression =
      upsert_suppression
        (record {
          destination_hmac = destination_hmac;
          reason = reason;
          added_at = now;
          review_at = now + suppress_days * day_ms;
        })
        db.suppression;
}

-- The parts of a receipt that its promotion reads.
pub record Receipt : Type 0 where
  pub occurred_at : ℕ
  pub event_type : String
  pub provider_ref : String
  pub provider_status : Option String

abbrev pub event_of : Match → Receipt → Option (List ℕ) → Event
event_of m r ciphertext = record {
  comms_request_id = m.comms_request_id;
  customer_id = m.customer_id;
  occurred_at = r.occurred_at;
  event_type = r.event_type;
  provider_ref = r.provider_ref;
  provider_status = r.provider_status;
  provider_payload = ciphertext;
}

abbrev pub advance_status : Match → Receipt → Bool → Exec ReceiptError (Unit {0})
advance_status m r false = pure tt
advance_status m r true = do
  now ← utc_now
  execute database (λ db. record db {
    ledger = finalize m.comms_request_created_at m.comms_request_id r.event_type now db.ledger;
  })

abbrev pub auto_suppress : Match → Option String → Exec ReceiptError (Unit {0})
auto_suppress m none = pure tt
auto_suppress m (some reason) = do
  now ← utc_now
  execute database (suppress_for (some reason) m.destination_hmac now)

unfoldable pub insert_comms_event :
    Match → Receipt → Option (List ℕ) → Bool → Exec ReceiptError (Unit {0})
unfolding auto_suppress_reason
insert_comms_event m r ciphertext advance = do
  execute database (insert_event (event_of m r ciphertext))
  advance_status m r advance
  auto_suppress m (auto_suppress_reason r.event_type)

unfoldable pub delete_orphan : ℕ → Db → Db
delete_orphan id db = record db {
  orphans = keep (λ (o : OrphanEvent). not (o.id == id)) db.orphans;
}

unfoldable pub delete_staging : ℕ → Db → Db
delete_staging id db = record db {
  staging = keep (λ (r : StagingReceipt). not (r.id == id)) db.staging;
}

abbrev pub orphan_receipt : OrphanEvent → Receipt
orphan_receipt o = record {
  occurred_at = o.occurred_at;
  event_type = o.event_type;
  provider_ref = o.provider_ref;
  provider_status = o.provider_status;
}

abbrev pub staging_receipt : StagingReceipt → Receipt
staging_receipt r = record {
  occurred_at = r.occurred_at;
  event_type = r.event_type;
  provider_ref = r.provider_ref;
  provider_status = r.provider_status;
}

-- `promote` of both files, which differ in the table that they delete the receipt from.
unfoldable pub promote_and :
    (Db → Db) → Match → Receipt → Option (List ℕ) → Bool → Exec ReceiptError (Unit {0})
unfolding insert_comms_event
promote_and delete m r ciphertext advance =
    transaction database (insert_comms_event m r ciphertext advance >> execute database delete)

unfoldable pub promote_orphan :
    OrphanEvent → Match → Option (List ℕ) → Bool → Exec ReceiptError (Unit {0})
unfolding promote_and
promote_orphan o m ciphertext advance =
    promote_and (delete_orphan o.id) m (orphan_receipt o) ciphertext advance

unfoldable pub promote_staging :
    StagingReceipt → Match → Option (List ℕ) → Bool → Exec ReceiptError (Unit {0})
unfolding promote_and
promote_staging r m ciphertext advance =
    promote_and (delete_staging r.id) m (staging_receipt r) ciphertext advance

unfoldable pub count_miss : ℕ → List OrphanEvent → List OrphanEvent
count_miss id [] = []
count_miss id (o ∷ rest) =
    (if o.id == id then record o { reconcile_attempts = o.reconcile_attempts + 1 } else o)
    ∷ count_miss id rest

unfoldable pub drop_aged : ℕ → ℕ → List OrphanEvent → List OrphanEvent
drop_aged id cap orphans = keep (λ o. not ((o.id == id) && leb cap o.reconcile_attempts)) orphans

-- Two statements, each on its own.
unfoldable pub record_miss : ℕ → ℕ → Exec ReceiptError (Unit {0})
unfolding count_miss drop_aged
record_miss id cap =
    execute database (λ db. record db { orphans = count_miss id db.orphans })
    >> execute database (λ db. record db { orphans = drop_aged id cap db.orphans })

abbrev pub orphan_of : ℕ → StagingReceipt → OrphanEvent
orphan_of id r = record {
  id = id;
  provider = r.provider;
  provider_ref = r.provider_ref;
  occurred_at = r.occurred_at;
  event_type = r.event_type;
  provider_status = r.provider_status;
  provider_payload_raw = some r.provider_payload_raw;
  reconcile_attempts = 0;
}

-- `fresh` is the `Uuid::new_v4` of the new row.
unfoldable pub to_orphan : ℕ → StagingReceipt → Exec ReceiptError (Unit {0})
to_orphan fresh r = transaction database (
    execute database (λ db. record db { orphans = db.orphans ++ orphan_of fresh r ∷ [] })
    >> execute database (delete_staging r.id))

abbrev pub same_receipt : StagingReceipt → StagingReceipt → Bool
same_receipt a b =
    (a.provider == b.provider)
    && (a.provider_ref == b.provider_ref)
    && (a.event_type == b.event_type)
    && (a.occurred_at == b.occurred_at)

-- `ON CONFLICT (provider, provider_ref, event_type, occurred_at) DO NOTHING`
unfoldable pub insert_staging : StagingReceipt → Exec ReceiptError (Unit {0})
insert_staging r = execute database (λ db.
    if any (same_receipt r) db.staging then db else record db { staging = db.staging ++ r ∷ [] })
