-- ===== src/Customers/Deks.antt =====
-- src/customer_dek/lifecycle.rs and src/customer_dek/repo.rs: the data key of a customer.
use messgr.Base.{
  ℕ, String, Bool, true, false, Option, none, some, List, [], ◌∷◌, ◌++◌, if◌then◌else◌, ◌==◌, any,
  find, nat_eq, string_eq, option_eq, list_eq,
}
use messgr.Store.Tables.{Db, CustomerDek}
use messgr.Store.Exec.{Exec, pure, raise, ◌>>=◌, utc_now, query, sql, next_call}

pub data ResolveError : Type 0 where
  database vault encryption : ResolveError
  -- An `expect` that fails.
  panic : ResolveError

-- A fresh key of Vault's, as it is and wrapped.
pub record Dek : Type 0 where
  pub plaintext : List ℕ
  pub wrapped : String

-- Vault, the cache of keys with its eviction, and the encryption; where the first argument is a
-- number, it counts the calls.
pub record Keystore : Type 0 where
  pub cached : ℕ → ℕ → Option (List ℕ)
  pub create_dek : ℕ → Option Dek
  pub unwrap_dek : ℕ → String → Option (List ℕ)
  pub encrypt : List ℕ → List ℕ → List ℕ → Option (List ℕ)
  pub aad : ℕ → List ℕ
  pub new_uuid : ℕ → ℕ

abbrev pub or_fail : {A : Type 0} → Option A → ResolveError → Exec ResolveError A
or_fail none e = raise e
or_fail (some a) e = pure a

unfoldable pub find_dek : ℕ → Exec ResolveError (Option CustomerDek)
find_dek customer_id =
    query database (λ db. find (λ (d : CustomerDek). d.customer_id == customer_id) db.deks)

-- `ON CONFLICT (customer_id) DO NOTHING`: whether the row was inserted.
unfoldable pub insert_dek : ℕ → String → ℕ → Db → Bool × Db
insert_dek customer_id wrapped now db =
    if any (λ (d : CustomerDek). d.customer_id == customer_id) db.deks then (false, db) else (
      true,
      record db {
        deks =
            db.deks
            ++ record {
              customer_id = customer_id;
              wrapped_dek = wrapped;
              created_at = now;
              shredded_at = none;
            }
              ∷ [];
      },
    )

module _ (keystore : Keystore) where
  unfoldable pub create_dek : Exec ResolveError Dek
  create_dek = do call ← next_call; or_fail (keystore.create_dek call) vault

  unfoldable pub unwrap_dek : String → Exec ResolveError (List ℕ)
  unwrap_dek wrapped = do call ← next_call; or_fail (keystore.unwrap_dek call wrapped) vault

  abbrev pub insert_or_winner : ℕ → Dek → Bool → Exec ResolveError (List ℕ)
  insert_or_winner customer_id dek true = pure dek.plaintext
  insert_or_winner customer_id dek false = do
    found ← find_dek customer_id
    row ← or_fail found panic
    unwrap_dek row.wrapped_dek

  abbrev pub unwrap_or_create : ℕ → Option CustomerDek → Exec ResolveError (List ℕ)
  unwrap_or_create customer_id (some row) = unwrap_dek row.wrapped_dek
  unwrap_or_create customer_id none = do
    dek ← create_dek
    now ← utc_now
    inserted ← sql database (insert_dek customer_id dek.wrapped now)
    insert_or_winner customer_id dek inserted

  abbrev pub cached_or_find : ℕ → Option (List ℕ) → Exec ResolveError (List ℕ)
  cached_or_find customer_id (some plaintext) = pure plaintext
  cached_or_find customer_id none = do
    found ← find_dek customer_id
    unwrap_or_create customer_id found

  unfoldable pub get_or_create_dek : ℕ → Exec ResolveError (List ℕ)
  get_or_create_dek customer_id = do
    call ← next_call
    cached_or_find customer_id (keystore.cached call customer_id)
