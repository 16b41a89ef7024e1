-- ===== src/Receipts/Suppress.antt =====
-- The suppression list as receipts extend it (src/orphan_reconcile/repo.rs), and as the dispatcher's
-- gate reads it.
use messgr.Base.{
  ℕ, ◌+◌, ◌*◌, String, ◌≡◌, refl, ap, inl, inr, Bool, ◌&&◌, ◌||◌, some, List, [], ◌∷◌, arith, ltb,
  ◌==◌, beq_eq, Bool-cases, any, nat_eq, string_eq, option_eq, list_eq,
}
use messgr.Store.Tables.{Suppression}
use messgr.Store.Tables.{Db, Request}
use messgr.Zone.{day_ms}
use messgr.Dispatcher.Queries.{suppressed, is_request}
use messgr.Receipts.Repo.{upsert_suppression, suppress_for, suppress_days}

-- An entry for the destination is in force at a time.
abbrev pub in_force : List ℕ → ℕ → List Suppression → Bool
in_force hmac now entries =
    any (λ (s : Suppression). (s.destination_hmac == hmac) && ltb now s.review_at) entries

covers : Suppression → List ℕ → ℕ → Bool
covers s hmac now = (s.destination_hmac == hmac) && ltb now s.review_at

upsert-in_force :
    (new : Suppression) (hmac : List ℕ) (now : ℕ) (entries : List Suppression)
    → in_force hmac now (upsert_suppression new entries)
      ≡ (in_force hmac now entries || covers new hmac now)
unfolding upsert_suppression covers
upsert-in_force new hmac now [] = ground arith
upsert-in_force new hmac now (s ∷ rest) =
    elim (Bool-cases (s.destination_hmac == new.destination_hmac)) [
      | inl e ↦
          let same =
            ap (λ (d : List ℕ). d == hmac) (beq_eq s.destination_hmac new.destination_hmac e) in
          elim (Bool-cases (ltb s.review_at new.review_at)) [
            | inl lt ↦ ground (arith, e, lt, same)
            | inr ge ↦ ground (arith, e, ge, same)
          ]
      | inr e ↦ let ih = upsert-in_force new hmac now rest in ground (arith, e, ih)
    ]

-- The ledger row of a key goes to a destination.
abbrev pub goes_to : ℕ → ℕ → List ℕ → Request → Bool
goes_to created_at id hmac r = is_request created_at id r && (hmac == r.destination_hmac)

any_either :
    {A : Type 0} (p q r : A → Bool) (b : Bool)
    → ((a : A) → p a ≡ (q a || (r a && b)))
    → (xs : List A) → any p xs ≡ (any q xs || (any r xs && b))
any_either p q r b h [] = refl
any_either p q r b h (x ∷ xs) =
    let here = h x in let ih = any_either p q r b h xs in ground (arith, here, ih)

-- A receipt that suppresses a destination suppresses, at every time before 365 days are over, the
-- requests that go to it; besides these, exactly the requests that were suppressed before are.
pub suppress_for-suppressed :
    (reason : String) (hmac : List ℕ) (t : ℕ) (db : Db) (created_at id now : ℕ)
    → suppressed created_at id now (suppress_for (some reason) hmac t db) ≡ (
        suppressed created_at id now db
        || (any (goes_to created_at id hmac) db.ledger && ltb now (t + suppress_days * day_ms)))
unfolding suppressed covers
suppress_for-suppressed reason hmac t db created_at id now =
    any_either _ _ (goes_to created_at id hmac) (ltb now new.review_at)
      (λ r.
        let is = upsert-in_force new r.destination_hmac now db.suppression in ground (arith, is))
      db.ledger
  where
    new : Suppression
    new = record {
      destination_hmac = hmac;
      reason = reason;
      added_at = t;
      review_at = t + suppress_days * day_ms;
    }
