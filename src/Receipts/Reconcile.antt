-- ===== src/Receipts/Reconcile.antt =====
-- The runs of src/orphan_reconcile/reconcile.rs and src/webhook_receipt/promote.rs over the pending
-- receipts of one tenant. An error ends the run; what was promoted before it stays promoted.
use messgr.Base.{ℕ, ◌+◌, String, Option, none, some, List, [], ◌∷◌, leb, if◌then◌else◌}
use messgr.Store.Tables.{OrphanEvent, StagingReceipt}
use messgr.Store.Exec.{ok, err, Exec, pure, raise, ◌>>=◌, ◌>>◌, query, next_call}
use messgr.Customers.Deks.{ResolveError, Keystore, get_or_create_dek}
use messgr.Receipts.Status.{is_recognized_event_type, should_advance}
use messgr.Receipts.Repo.{
  ReceiptError, Match, database, vault, encryption, find_match, promote_orphan, promote_staging,
  record_miss, to_orphan,
}

-- The customer keys and the encryption; the argument of `new_uuid` counts the calls.
pub record Keys : Type 0 where
  pub keystore : Keystore
  pub aad : ℕ → List ℕ
  pub encrypt : List ℕ → List ℕ → List ℕ → Option (List ℕ)
  pub new_uuid : ℕ → ℕ

pub record ReconcileReport : Type 0 where
  pub reconciled : ℕ
  pub aged_out : ℕ
  pub still_pending : ℕ

pub record PromoteReport : Type 0 where
  pub promoted : ℕ
  pub orphaned : ℕ

abbrev pub or_fail : {A : Type 0} → Option A → ReceiptError → Exec ReceiptError A
or_fail none e = raise e
or_fail (some a) e = pure a

abbrev pub or_vault : {A : Type 0} → Exec ResolveError A → Exec ReceiptError A
or_vault m w = let (r, u) = m w in (elim r [ ok a ↦ ok a | err e ↦ err vault ], u)

unfoldable pub seal : Keys → Match → List ℕ → Exec ReceiptError (List ℕ)
seal keys m raw = do
  dek ← or_vault (get_or_create_dek keys.keystore m.customer_id)
  or_fail (keys.encrypt dek (keys.aad m.comms_request_id) raw) encryption

abbrev pub seal_payload : Keys → Match → Option (List ℕ) → Exec ReceiptError (Option (List ℕ))
seal_payload keys m none = pure none
seal_payload keys m (some raw) = do blob ← seal keys m raw; pure (some blob)

unfoldable pub promote_match : Keys → OrphanEvent → Match → Exec ReceiptError (Unit {0})
unfolding should_advance
promote_match keys o m = do
  ciphertext ← seal_payload keys m o.provider_payload_raw
  promote_orphan o m ciphertext (should_advance m.current_final_status o.event_type)

unfoldable pub promote_match_staging : Keys → StagingReceipt → Match → Exec ReceiptError (Unit {0})
unfolding should_advance
promote_match_staging keys r m = do
  ciphertext ← seal keys m r.provider_payload_raw
  promote_staging r m (some ciphertext) (should_advance m.current_final_status r.event_type)

-- A receipt of an unrecognized type has no match.
unfoldable pub match_for : String → String → Exec ReceiptError (Option Match)
unfolding is_recognized_event_type
match_for event_type provider_ref =
    if is_recognized_event_type event_type then find_match provider_ref else pure none

abbrev pub count_unmatched : ℕ → OrphanEvent → ReconcileReport → ReconcileReport
count_unmatched cap o report =
    if leb cap (o.reconcile_attempts + 1)
    then record report { aged_out = report.aged_out + 1 }
    else record report { still_pending = report.still_pending + 1 }

abbrev pub reconcile_one :
    Keys → ℕ → OrphanEvent → Option Match → ReconcileReport → Exec ReceiptError ReconcileReport
reconcile_one keys cap o (some m) report = do
  promote_match keys o m
  pure (record report { reconciled = report.reconciled + 1 })
reconcile_one keys cap o none report = do record_miss o.id cap; pure (count_unmatched cap o report)

unfoldable pub reconcile_all :
    Keys → ℕ → List OrphanEvent → ReconcileReport → Exec ReceiptError ReconcileReport
unfolding match_for promote_match
reconcile_all keys cap [] report = pure report
reconcile_all keys cap (o ∷ rest) report = match_for o.event_type o.provider_ref >>= λ m.
    reconcile_one keys cap o m report >>= reconcile_all keys cap rest

-- `orphan_reconcile::reconcile::run`.
unfoldable pub reconcile : Keys → ℕ → Exec ReceiptError ReconcileReport
unfolding reconcile_all
reconcile keys cap = do
  pending ← query database (λ db. db.orphans)
  reconcile_all keys cap pending (record { reconciled = 0; aged_out = 0; still_pending = 0 })

abbrev pub promote_one :
    Keys → StagingReceipt → Option Match → PromoteReport → Exec ReceiptError PromoteReport
promote_one keys r (some m) report = do
  promote_match_staging keys r m
  pure (record report { promoted = report.promoted + 1 })
promote_one keys r none report = do
  call ← next_call
  to_orphan (keys.new_uuid call) r
  pure (record report { orphaned = report.orphaned + 1 })

unfoldable pub promote_all :
    Keys → List StagingReceipt → PromoteReport → Exec ReceiptError PromoteReport
unfolding match_for promote_match_staging
promote_all keys [] report = pure report
promote_all keys (r ∷ rest) report = match_for r.event_type r.provider_ref >>= λ m.
    promote_one keys r m report >>= promote_all keys rest

-- `webhook_receipt::promote::run`.
unfoldable pub promote_receipts : Keys → Exec ReceiptError PromoteReport
unfolding promote_all
promote_receipts keys = do
  pending ← query database (λ db. db.staging)
  promote_all keys pending (record { promoted = 0; orphaned = 0 })
