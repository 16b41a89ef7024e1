-- ===== src/Ingest/Once.antt =====
-- src/ingest/repo.rs insert_transactional, called twice under one idempotency key.
use messgr.Base.{
  ℕ, ◌≡◌, refl, ap, ◌∙◌, ◌⊎◌, inl, inr, Bool, true, none, some, List, [], ◌∷◌, ◌++◌, arith,
  beq_refl, Bool-cases, find, nat_eq, string_eq, option_eq, list_eq,
}
use messgr.Store.Tables.{Db, Idempotency}
use messgr.Store.Exec.{World, Result, ok, err}
use messgr.Ingest.Request.{IngestError, database}
use messgr.Ingest.Repo.{
  Insert, InsertOutcome, created, replayed, reply, reply_of, is_key, idempotency_row,
  insert_transactional,
}
use messgr.Ingest.Insert.{accepted, Inserted, refused, known, fresh, insert_transactional-Inserted}

find_last :
    (p : Idempotency → Bool) (l : List Idempotency) (x : Idempotency)
    → reply_of (find p l) ≡ none
    → p x ≡ true
    → find p (l ++ x ∷ []) ≡ some x
find_last p [] x h px = ground (arith, px)
find_last p (a ∷ l) x h px = elim (Bool-cases (p a)) [
  | inl pa ↦ ground (arith, px, pa)
  | inr pa ↦ let rest = find_last p l x (ground (arith, pa, h)) px in ground (arith, pa, rest)
]

holds_key :
    (i : Insert) (now : ℕ) (db : Db)
    → reply i.producer_id i.idempotency_key db ≡ none
    → reply i.producer_id i.idempotency_key (accepted i now db) ≡ some i.comms_request_id
unfolding accepted reply
holds_key i now db h = ap reply_of (
    find_last (is_key i.producer_id i.idempotency_key) db.idempotency (idempotency_row i now) h
      (ground (arith, beq_refl i.producer_id, beq_refl i.idempotency_key)))

replay_only :
    (i j : Insert) (v w : World) {r : Result IngestError InsertOutcome} {x : World}
    → reply j.producer_id j.idempotency_key w.db ≡ some i.comms_request_id
    → Inserted j w r x
    → (x.db ≡ w.db) × ((r ≡ err database) ⊎ (r ≡ ok (replayed i.comms_request_id)))
replay_only i j v w h (refused same) = (same, inl refl)
replay_only i j v w h (known id is same) = (same, inr (cc (h, is)))
replay_only i j v w h (fresh now later is same) = absurd (cc (h, is))

created_row :
    (i : Insert) (v : World) {r : Result IngestError InsertOutcome} {w : World}
    → Inserted i v r w
    → r ≡ ok created
    → reply i.producer_id i.idempotency_key w.db ≡ some i.comms_request_id
created_row i v (refused same) h = absurd (cc h)
created_row i v (known id is same) h = absurd (cc h)
created_row i v (fresh now later is same) h =
    ap (reply i.producer_id i.idempotency_key) same ∙ holds_key i now v.db is

-- Once an insert is created, any insert with the same producer and key into the database that it
-- left changes no table, and either fails or answers with the first one's id, whatever else it
-- asks for.
pub insert_transactional-once :
    (i j : Insert) (v w : World)
    → (insert_transactional i v).0 ≡ ok created
    → w.db ≡ (insert_transactional i v).1.db
    → j.producer_id ≡ i.producer_id
    → j.idempotency_key ≡ i.idempotency_key
    → ((insert_transactional j w).1.db ≡ w.db)
      × (((insert_transactional j w).0 ≡ err database)
          ⊎ ((insert_transactional j w).0 ≡ ok (replayed i.comms_request_id)))
insert_transactional-once i j v w first same producer key =
    replay_only i j v w
      (cc (created_row i v (insert_transactional-Inserted i v) first, same, producer, key))
      (insert_transactional-Inserted j w)
