-- ===== src/Customers/Resolve.antt =====
-- src/customer/resolve.rs.
use messgr.Base.{
  ℕ, String, Bool, true, false, Option, none, some, List, if◌then◌else◌, ◌==◌, nat_eq, string_eq,
  option_eq, list_eq,
}
use messgr.Store.Tables.{Customer, Address}
use messgr.Store.Exec.{
  World, Result, ok, err, Exec, pure, ◌>>=◌, ◌>>◌, utc_now, sql, execute, next_call,
}
use messgr.Ingest.Request.{ResolutionInput, explicit, external, address_only}
use messgr.Customers.Deks.{
  ResolveError, database, encryption, panic, Keystore, or_fail, insert_dek, create_dek,
  get_or_create_dek,
}
use messgr.Customers.Repo.{
  find_by_id, expand_alias, find_customer_by_external_id, find_active_address_by_hmac,
  find_active_address_for_customer, next_rank_for_update, provisional_customer, insert_customer,
  insert_external_id, insert_address,
}

pub record Resolved : Type 0 where
  pub customer_id : ℕ
  pub address_id : ℕ
  pub locale : Option String

abbrev pub non_provisional_locale : Option Customer → Option String
non_provisional_locale none = none
non_provisional_locale (some c) = if c.provisional then none else some c.locale

abbrev pub undo_unless : World → Result ResolveError Bool × World → Result ResolveError Bool × World
undo_unless w (ok true, w') = (ok true, w')
undo_unless w (ok false, w') = (ok false, record w' { db = w.db })
undo_unless w (err e, w') = (err e, record w' { db = w.db })

-- A transaction that is committed if its statements inserted what they should, and is rolled back
-- otherwise.
unfoldable pub transaction_if : Exec ResolveError Bool → Exec ResolveError Bool
transaction_if m w =
    undo_unless w
      ((do execute database (λ db. db); inserted ← m; execute database (λ db. db); pure inserted) w)

abbrev pub always : Bool → Exec ResolveError Bool
always inserted = pure true

abbrev pub new_address :
    (id customer_id : ℕ) (kind : String) (ciphertext hmac : List ℕ) (rank now : ℕ) → Address
new_address id customer_id kind ciphertext hmac rank now = record {
  id = id;
  customer_id = customer_id;
  kind = kind;
  value_ciphertext = ciphertext;
  value_hmac = hmac;
  rank = rank;
  label = none;
  verified_at = none;
  active_from = now;
  active_to = none;
  source_updated_at = now;
}

-- The arguments that `resolve` only passes on.
pub record Destination : Type 0 where
  pub kind : String
  pub value_hmac : List ℕ
  pub destination : List ℕ
  pub locale : String
  pub timezone : String

module _ (keystore : Keystore) (d : Destination) where
  unfoldable pub mint_provisional_customer : ℕ → Exec ResolveError Bool
  mint_provisional_customer id = transaction_if (do
    now ← utc_now
    inserted ← sql database (insert_customer (provisional_customer id d.locale d.timezone now))
    always inserted)

  abbrev pub won_or_winner : ℕ → String → String → Bool → Exec ResolveError ℕ
  won_or_winner id system external_id true = pure id
  won_or_winner id system external_id false = do
    found ← find_customer_by_external_id system external_id
    or_fail found panic

  unfoldable pub mint_provisional_customer_with_external_id : String → String → Exec ResolveError ℕ
  mint_provisional_customer_with_external_id system external_id = do
    call ← next_call
    now ← utc_now
    inserted ← transaction_if (do
      minted ←
          sql database (
            insert_customer (provisional_customer (keystore.new_uuid call) d.locale d.timezone now))
      named ← sql database (
          insert_external_id (record {
            customer_id = keystore.new_uuid call;
            system = system;
            external_id = external_id;
          }))
      pure named)
    won_or_winner (keystore.new_uuid call) system external_id inserted

  -- The address that holds the destination already.
  unfoldable pub winner : Exec ResolveError Address
  winner = do found ← find_active_address_by_hmac d.kind d.value_hmac; or_fail found panic

  abbrev pub minted_or_winner : ℕ → ℕ → Bool → Exec ResolveError Resolved
  minted_or_winner customer_id address_id true =
      pure (record { customer_id = customer_id; address_id = address_id; locale = none })
  minted_or_winner customer_id address_id false = do
    a ← winner
    pure (record { customer_id = a.customer_id; address_id = a.id; locale = none })

  abbrev pub insert_dek_if : ℕ → String → ℕ → Bool → Exec ResolveError Bool
  insert_dek_if customer_id wrapped now false = pure false
  insert_dek_if customer_id wrapped now true = do
    inserted ← sql database (insert_dek customer_id wrapped now)
    pure true

  unfoldable pub mint_provisional_customer_and_address : Exec ResolveError Resolved
  mint_provisional_customer_and_address = do
    customer_call ← next_call
    address_call ← next_call
    now ← utc_now
    dek ← create_dek keystore
    ciphertext ←
        or_fail
          (keystore.encrypt dek.plaintext (keystore.aad (keystore.new_uuid address_call))
            d.destination)
          encryption
    inserted ← transaction_if (do
      minted ← sql database (
          insert_customer
            (provisional_customer (keystore.new_uuid customer_call) d.locale d.timezone now))
      held ← sql database (
          insert_address (
            new_address (keystore.new_uuid address_call) (keystore.new_uuid customer_call) d.kind
              ciphertext d.value_hmac 1 now))
      insert_dek_if (keystore.new_uuid customer_call) dek.wrapped now held)
    minted_or_winner (keystore.new_uuid customer_call) (keystore.new_uuid address_call) inserted

  abbrev pub or_mint : ℕ → Option Customer → Exec ResolveError (ℕ × Option String)
  or_mint id (some row) = pure (id, non_provisional_locale (some row))
  or_mint id none = do minted ← mint_provisional_customer id; pure (id, none)

  abbrev pub known_or_mint : String → String → Option ℕ → Exec ResolveError (ℕ × Option String)
  known_or_mint system external_id (some id) = do
    found ← find_by_id id
    row ← or_fail found panic
    pure (id, non_provisional_locale (some row))
  known_or_mint system external_id none = do
    id ← mint_provisional_customer_with_external_id system external_id
    pure (id, none)

  abbrev pub winner_locale : ℕ → Option String → Address → Exec ResolveError (Option String)
  winner_locale customer_id locale a =
      if a.customer_id == customer_id
      then pure locale
      else (do row ← find_by_id a.customer_id; pure (non_provisional_locale row))

  abbrev pub added_or_winner : ℕ → Option String → ℕ → Bool → Exec ResolveError Resolved
  added_or_winner customer_id locale address_id true =
      pure (record { customer_id = customer_id; address_id = address_id; locale = locale })
  added_or_winner customer_id locale address_id false = do
    a ← winner
    its_locale ← winner_locale customer_id locale a
    pure (record { customer_id = a.customer_id; address_id = a.id; locale = its_locale })

  unfoldable pub add_address : ℕ → Option String → Exec ResolveError Resolved
  add_address customer_id locale = do
    dek ← get_or_create_dek keystore customer_id
    call ← next_call
    ciphertext ←
        or_fail (keystore.encrypt dek (keystore.aad (keystore.new_uuid call)) d.destination)
          encryption
    now ← utc_now
    inserted ← transaction_if (do
      rank ← next_rank_for_update customer_id d.kind
      held ← sql database (
          insert_address (
            new_address (keystore.new_uuid call) customer_id d.kind ciphertext d.value_hmac rank
              now))
      pure held)
    added_or_winner customer_id locale (keystore.new_uuid call) inserted

  abbrev pub held_or_add : ℕ → Option String → Option Address → Exec ResolveError Resolved
  held_or_add customer_id locale (some a) =
      pure (record { customer_id = customer_id; address_id = a.id; locale = locale })
  held_or_add customer_id locale none = add_address customer_id locale

  -- The end of `resolve` for a request that names its customer.
  unfoldable pub resolve_address : ℕ × Option String → Exec ResolveError Resolved
  resolve_address (customer_id, locale) = do
    found ← find_active_address_for_customer customer_id d.kind d.value_hmac
    held_or_add customer_id locale found

  abbrev pub owner_or_mint : Option Address → Exec ResolveError Resolved
  owner_or_mint (some a) = do
    row ← find_by_id a.customer_id
    pure (record {
      customer_id = a.customer_id;
      address_id = a.id;
      locale = non_provisional_locale row;
    })
  owner_or_mint none = mint_provisional_customer_and_address

  unfoldable pub resolve : ResolutionInput → Exec ResolveError Resolved
  resolve (explicit named) = do
    id ← expand_alias named
    found ← find_by_id id
    who ← or_mint id found
    resolve_address who
  resolve (external system external_id) = do
    found ← find_customer_by_external_id system external_id
    who ← known_or_mint system external_id found
    resolve_address who
  resolve address_only = do
    found ← find_active_address_by_hmac d.kind d.value_hmac
    owner_or_mint found
