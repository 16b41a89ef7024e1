-- ===== src/Customers/Repo.antt =====
-- src/customer/repo.rs.
use messgr.Base.{
  ℕ, zero, suc, ◌+◌, max, String, Bool, true, false, ◌&&◌, Option, none, some, List, [], ◌∷◌, ◌++◌,
  if◌then◌else◌, ◌==◌, is_none, any, find, nat_eq, string_eq, option_eq, list_eq,
}
use messgr.Store.Tables.{Db, Customer, Address, ExternalId, Alias}
use messgr.Store.Exec.{Exec, pure, ◌>>=◌, query}
use messgr.Customers.Deks.{ResolveError, database, or_fail}

abbrev pub alias_hop_limit : ℕ
alias_hop_limit = 8

abbrev pub is_customer : ℕ → Customer → Bool
is_customer id c = c.id == id

unfoldable pub find_by_id : ℕ → Exec ResolveError (Option Customer)
find_by_id id = query database (λ db. find (is_customer id) db.customers)

abbrev pub next_alias : ℕ → Db → Option ℕ
next_alias id db = elim (find (λ (a : Alias). a.old_customer_id == id) db.aliases) [
  | none ↦ none
  | some a ↦ some a.customer_id
]

unfoldable pub expand_hops : ℕ → ℕ → Exec ResolveError ℕ
expand_hops zero current = pure current
expand_hops (suc hops) current = query database (next_alias current) >>= λ next. elim next [
  | none ↦ pure current
  | some id ↦ expand_hops hops id
]

unfoldable pub expand_alias : ℕ → Exec ResolveError ℕ
expand_alias id = expand_hops alias_hop_limit id

abbrev pub is_external : String → String → ExternalId → Bool
is_external system external_id x = (x.system == system) && (x.external_id == external_id)

abbrev pub external_customer : String → String → Db → Option ℕ
external_customer system external_id db =
    elim (find (is_external system external_id) db.external_ids) [
      | none ↦ none
      | some x ↦ some x.customer_id
    ]

unfoldable pub find_customer_by_external_id : String → String → Exec ResolveError (Option ℕ)
find_customer_by_external_id system external_id =
    query database (external_customer system external_id)

-- `kind = $1 AND value_hmac = $2 AND active_to IS NULL`
abbrev pub is_active_address : String → List ℕ → Address → Bool
is_active_address kind value_hmac a =
    (a.kind == kind) && (a.value_hmac == value_hmac) && is_none a.active_to

unfoldable pub find_active_address_by_hmac : String → List ℕ → Exec ResolveError (Option Address)
find_active_address_by_hmac kind value_hmac =
    query database (λ db. find (is_active_address kind value_hmac) db.addresses)

abbrev pub is_address_of : ℕ → String → List ℕ → Address → Bool
is_address_of customer_id kind value_hmac a =
    (a.customer_id == customer_id) && is_active_address kind value_hmac a

unfoldable pub find_active_address_for_customer :
    ℕ → String → List ℕ → Exec ResolveError (Option Address)
find_active_address_for_customer customer_id kind value_hmac =
    query database (λ db. find (is_address_of customer_id kind value_hmac) db.addresses)

-- `MAX(rank)` of a customer's active addresses of a kind, 0 for none.
abbrev pub max_rank : ℕ → String → List Address → ℕ
max_rank customer_id kind [] = 0
max_rank customer_id kind (a ∷ rest) =
    let others = max_rank customer_id kind rest in
    if (a.customer_id == customer_id) && (a.kind == kind) && is_none a.active_to
    then max a.rank others
    else others

-- Its first statement locks the customer's row, and fails where there is none.
unfoldable pub next_rank_for_update : ℕ → String → Exec ResolveError ℕ
next_rank_for_update customer_id kind = do
  row ← query database (λ db. find (is_customer customer_id) db.customers)
  locked ← or_fail row database
  query database (λ db. max_rank customer_id kind db.addresses + 1)

abbrev pub provisional_customer : ℕ → String → String → ℕ → Customer
provisional_customer id locale timezone now = record {
  id = id;
  locale = locale;
  timezone = timezone;
  provisional = true;
  source_system = none;
  source_updated_at = none;
  created_at = now;
}

-- `ON CONFLICT (id) DO NOTHING`
unfoldable pub insert_customer : Customer → Db → Bool × Db
insert_customer c db =
    if any (is_customer c.id) db.customers
    then (false, db)
    else (true, record db { customers = db.customers ++ c ∷ [] })

-- `ON CONFLICT (system, external_id) DO NOTHING`
unfoldable pub insert_external_id : ExternalId → Db → Bool × Db
insert_external_id x db =
    if any (is_external x.system x.external_id) db.external_ids
    then (false, db)
    else (true, record db { external_ids = db.external_ids ++ x ∷ [] })

-- `ON CONFLICT (kind, value_hmac) WHERE active_to IS NULL DO NOTHING`, for an address that is active.
unfoldable pub insert_address : Address → Db → Bool × Db
insert_address a db =
    if any (is_active_address a.kind a.value_hmac) db.addresses
    then (false, db)
    else (true, record db { addresses = db.addresses ++ a ∷ [] })
