-- ===== src/Dispatcher/Queries.antt =====
-- src/dispatcher/repo.rs but for the claims: the lookups of the gates, the lease and reschedule
-- updates, and the terminal write. Each statement is a function of the database first.
use messgr.Base.{
  ℕ, String, Bool, false, ◌&&◌, not, Option, none, some, List, [], ◌∷◌, ◌++◌, ltb, if◌then◌else◌,
  ◌==◌, is_some, any, keep, find, count, get_or, nat_eq, string_eq, option_eq, list_eq,
}
use messgr.Store.Tables.{Db, OutboxRow, Request, Event, Suppression, Consent, Address, Customer}
use messgr.Store.Exec.{sql, raise, Exec, pure, ◌>>=◌, ◌>>◌, utc_now, query, execute, transaction}

pub data DispatchError : Type 0 where
  database dek encryption invalid_utf8 : DispatchError
  missing_request missing_payload : ℕ → DispatchError

pub record RequestCiphertexts : Type 0 where
  pub destination_ciphertext : List ℕ
  pub payload_ciphertext : Option (List ℕ)

-- `created_at = $1 AND id = $2`, the ledger's primary key.
abbrev pub is_request : ℕ → ℕ → Request → Bool
is_request created_at id r = (r.created_at == created_at) && (r.id == id)

abbrev pub is_row : ℕ → OutboxRow → Bool
is_row id row = row.comms_request_id == id

abbrev ciphertexts_of : Option Request → Option RequestCiphertexts
ciphertexts_of none = none
ciphertexts_of (some r) = some (record {
  destination_ciphertext = r.destination_ciphertext;
  payload_ciphertext = r.payload_ciphertext;
})

unfoldable pub ciphertexts : ℕ → ℕ → Db → Option RequestCiphertexts
ciphertexts created_at id db = ciphertexts_of (find (is_request created_at id) db.ledger)

unfoldable pub verified_at : ℕ → Db → Option ℕ
verified_at address_id db = elim (find (λ (a : Address). a.id == address_id) db.addresses) [
  | none ↦ none
  | some a ↦ a.verified_at
]

unfoldable pub customer_timezone : ℕ → Db → Option String
customer_timezone customer_id db =
    elim (find (λ (c : Customer). c.id == customer_id) db.customers) [
      | none ↦ none
      | some c ↦ some c.timezone
    ]

-- Some ledger row of this key has the destination of a suppression entry still in force.
unfoldable pub suppressed : ℕ → ℕ → ℕ → Db → Bool
suppressed created_at id now db =
    any
      (λ (r : Request).
        is_request created_at id r
        && any
            (λ (s : Suppression). (s.destination_hmac == r.destination_hmac) && ltb now s.review_at)
            db.suppression)
      db.ledger

unfoldable pub consented : ℕ → String → Db → Bool
consented address_id class db =
    elim (find (λ (c : Consent). (c.address_id == address_id) && (c.class == class)) db.consent) [
      | none ↦ false
      | some c ↦ c.opted_in
    ]

-- `SELECT cancelled_at IS NOT NULL`; `none` where `fetch_one` finds no row.
unfoldable pub cancelled : ℕ → Db → Option Bool
cancelled id db = elim (find (is_row id) db.outbox) [
  | none ↦ none
  | some row ↦ some (is_some row.cancelled_at)
]

-- `ON CONFLICT (occurred_at, comms_request_id, event_type, provider_ref) DO NOTHING`
abbrev pub same_event : Event → Event → Bool
same_event a b =
    (a.occurred_at == b.occurred_at)
    && (a.comms_request_id == b.comms_request_id)
    && (a.event_type == b.event_type)
    && (a.provider_ref == b.provider_ref)

unfoldable pub insert_event : Event → Db → Db
insert_event e db =
    if any (same_event e) db.events then db else record db { events = db.events ++ e ∷ [] }

unfoldable pub finalize : ℕ → ℕ → String → ℕ → List Request → List Request
finalize created_at id status now [] = []
finalize created_at id status now (r ∷ rest) =
    (if is_request created_at id r
      then record r { final_status = some status; finalized_at = some now }
      else r)
    ∷ finalize created_at id status now rest

unfoldable pub delete_row : ℕ → List OutboxRow → List OutboxRow
delete_row id rows = keep (λ row. not (is_row id row)) rows

unfoldable pub reschedule : ℕ → ℕ → List OutboxRow → List OutboxRow
reschedule id next_attempt_at [] = []
reschedule id next_attempt_at (row ∷ rest) =
    (if is_row id row
      then record row { leased_until = none; next_attempt_at = next_attempt_at }
      else row)
    ∷ reschedule id next_attempt_at rest

unfoldable pub clear_leases : List OutboxRow → List OutboxRow
clear_leases [] = []
clear_leases (row ∷ rest) = record row { leased_until = none } ∷ clear_leases rest

unfoldable pub leased_rows : List OutboxRow → ℕ
leased_rows rows = count (λ row. is_some row.leased_until) rows

unfoldable pub load_ciphertexts : ℕ → ℕ → Exec DispatchError (Option RequestCiphertexts)
load_ciphertexts created_at id = query database (ciphertexts created_at id)

unfoldable pub load_verified_at : ℕ → Exec DispatchError (Option ℕ)
load_verified_at address_id = query database (verified_at address_id)

unfoldable pub load_customer_timezone : ℕ → Exec DispatchError (Option String)
load_customer_timezone customer_id = query database (customer_timezone customer_id)

unfoldable pub is_suppressed : ℕ → ℕ → Exec DispatchError Bool
is_suppressed created_at id = do now ← utc_now; query database (suppressed created_at id now)

unfoldable pub is_consented : ℕ → String → Exec DispatchError Bool
is_consented address_id class = query database (consented address_id class)

abbrev pub row_or_fail : Option Bool → Exec DispatchError Bool
row_or_fail none = raise database
row_or_fail (some b) = pure b

unfoldable pub is_cancelled : ℕ → Exec DispatchError Bool
is_cancelled id = do found ← query database (cancelled id); row_or_fail found

unfoldable pub record_event : ℕ → ℕ → String → Exec DispatchError (Unit {0})
record_event id customer_id event_type = do
  now ← utc_now
  execute database (
      insert_event (record {
        comms_request_id = id;
        customer_id = customer_id;
        occurred_at = now;
        event_type = event_type;
        provider_ref = "";
        provider_status = none;
        provider_payload = none;
      }))

unfoldable pub reschedule_retry : ℕ → ℕ → Exec DispatchError (Unit {0})
reschedule_retry id next_attempt_at =
    execute database (λ db. record db { outbox = reschedule id next_attempt_at db.outbox })

unfoldable pub clear_stale_leases : Exec DispatchError ℕ
clear_stale_leases =
    sql database (λ db. (leased_rows db.outbox, record db { outbox = clear_leases db.outbox }))

-- The outcome that a terminal write records.
pub record Terminal : Type 0 where
  pub created_at : ℕ
  pub comms_request_id : ℕ
  pub customer_id : ℕ
  pub event_type : String
  pub provider_ref : Option String
  pub provider_status : Option String
  pub final_status : String

abbrev pub event_of : Terminal → ℕ → Event
event_of t now = record {
  comms_request_id = t.comms_request_id;
  customer_id = t.customer_id;
  occurred_at = now;
  event_type = t.event_type;
  provider_ref = get_or t.provider_ref "";
  provider_status = t.provider_status;
  provider_payload = none;
}

unfoldable pub write_terminal : Terminal → Exec DispatchError (Unit {0})
write_terminal t = do
  now ← utc_now
  transaction database (do
    execute database (insert_event (event_of t now))
    execute database (λ db. record db {
      ledger = finalize t.created_at t.comms_request_id t.final_status now db.ledger;
    })
    execute database (λ db. record db { outbox = delete_row t.comms_request_id db.outbox }))
