-- ===== src/Customers/Holding.antt =====
-- The address that holds a destination, at the end of the look-ups and transactions of
-- src/customer/resolve.rs.
use messgr.Base.{
  ℕ, String, ◌≡◌, refl, sym, ap, subst, ◌∙◌, inl, inr, Bool, true, false, ◌&&◌, Option, none, some,
  List, [], ◌∷◌, ◌++◌, arith, ◌==◌, beq_refl, Bool-cases, Option-cases, any, find, All, any-append,
  find-some, find_exists, nat_eq, string_eq, option_eq, list_eq,
}
use messgr.Store.Tables.{Db, Customer, Address, ExternalId}
use messgr.Store.Exec.{World, pure, sql}
use messgr.Store.Steps.{Ends}
use messgr.Customers.Deks.{database, panic, Keystore, or_fail, insert_dek}
use messgr.Customers.Repo.{
  is_customer, is_active_address, is_address_of, is_external, external_customer,
  find_active_address_by_hmac, insert_address, insert_customer,
}
use messgr.Customers.Resolve.{
  Resolved, Destination, winner, new_address, minted_or_winner, insert_dek_if,
}
use messgr.Customers.Safe.{Safe, Ends-then, Ran, sql-Safe, query-Safe, Within}

pub find-any_at :
    {A : Type 0} (p q : A → Bool) (xs : List A) (a : A)
    → find p xs ≡ some a
    → q a ≡ true
    → any q xs ≡ true
find-any_at p q [] a h k = absurd (cc h)
find-any_at p q (x ∷ xs) a h k = elim (Bool-cases (p x)) [
  | inl e ↦ ground (arith, e, h, k)
  | inr e ↦ let ih = find-any_at p q xs a in ground (arith, e, h, k, ih)
]

-- The resolved address is the destination's active one, of the resolved customer.
abbrev pub is_held : Destination → Resolved → Address → Bool
is_held d r a = (a.id == r.address_id) && is_address_of r.customer_id d.kind d.value_hmac a

abbrev pub Held : Destination → Resolved → World → Type 0
Held d r w = any (is_held d r) w.db.addresses ≡ true

-- External ids are of customers that are there.
abbrev pub is_known : Db → ExternalId → Bool
is_known db x = any (is_customer x.customer_id) db.customers

abbrev pub Referenced : Db → Type 0
Referenced db = All (λ x. is_known db x ≡ true) db.external_ids

find-All :
    {A : Type 0} (P : A → Type 0) (p : A → Bool) (xs : List A) (a : A)
    → All P xs
    → find p xs ≡ some a
    → P a
find-All P p [] a h k = absurd (cc k)
find-All P p (x ∷ xs) a h k = elim (Bool-cases (p x)) [
  | inl e ↦ let is = rw e at k in subst P (cc is) h.0
  | inr e ↦ find-All P p xs a h.1 (rw e at k)
]

pub known_customer :
    (system external_id : String) (db : Db) (id : ℕ)
    → Referenced db
    → external_customer system external_id db ≡ some id
    → any (is_customer id) db.customers ≡ true
known_customer system external_id db id known h =
    elim (Option-cases (find (is_external system external_id) db.external_ids)) [
      | inl e ↦ absurd (let no = rw (external_customer, e) at h in cc no)
      | inr (x, e) ↦
          let is : x.customer_id ≡ id = (let same = rw (external_customer, e) at h in cc same) in
          subst (λ (n : ℕ). any (is_customer n) db.customers ≡ true) is
            (find-All (λ y. is_known db y ≡ true) (is_external system external_id) db.external_ids x
              known e)
    ]

insert_dek-addresses :
    (customer_id : ℕ) (wrapped : String) (now : ℕ) (db : Db)
    → (insert_dek customer_id wrapped now db).1.addresses ≡ db.addresses
unfolding insert_dek
insert_dek-addresses customer_id wrapped now db = ground arith

pub insert_customer-addresses :
    (c : Customer) (db : Db) → (insert_customer c db).1.addresses ≡ db.addresses
unfolding insert_customer
insert_customer-addresses c db = ground arith

insert_refused :
    (a : Address) (db : Db)
    → (insert_address a db).0 ≡ false
    → any (is_active_address a.kind a.value_hmac) db.addresses ≡ true
unfolding insert_address
insert_refused a db h =
    elim (Bool-cases (any (is_active_address a.kind a.value_hmac) db.addresses)) [
      | inl e ↦ e
      | inr e ↦ absurd (let no = rw e at h in cc no)
    ]

insert_done :
    (a : Address) (db : Db)
    → (insert_address a db).0 ≡ true
    → (insert_address a db).1.addresses ≡ db.addresses ++ a ∷ []
unfolding insert_address
insert_done a db h = elim (Bool-cases (any (is_active_address a.kind a.value_hmac) db.addresses)) [
  | inl e ↦ absurd (let no = rw e at h in cc no)
  | inr e ↦ rw e refl
]

module _ (keystore : Keystore) (d : Destination) where
  abbrev pub active : Address → Bool
  active = is_active_address d.kind d.value_hmac

  abbrev pub holder : Address → Option String → Resolved
  holder a locale = record { customer_id = a.customer_id; address_id = a.id; locale = locale }

  pub of_finding :
      (a : Address) (locale : Option String) (w : World) (addresses : List Address)
      → find active addresses ≡ some a
      → w.db.addresses ≡ addresses
      → Held d (holder a locale) w
  of_finding a locale w addresses h same =
      let is = find-some active addresses a h in
      ap (any (is_held d (holder a locale))) same
      ∙ find-any_at active (is_held d (holder a locale)) addresses a h
          (ground (arith, is, beq_refl a.id, beq_refl a.customer_id))

  -- With the destination held, the winner's look-up does not panic.
  unfoldable pub Holds : World → Address → World → Type 0
  Holds w a u = (find active w.db.addresses ≡ some a) × (u.db ≡ w.db)

  pub kept_by_winner :
      (a : Address) (locale : Option String) (w u : World)
      → Holds w a u
      → Held d (holder a locale) u
  unfolding Holds
  kept_by_winner a locale w u h =
      of_finding a locale u w.db.addresses h.0 (ap (λ (db : Db). db.addresses) h.1)

  got_held :
      (w : World) (found : Option Address) (u : World) (a : Address)
      → Ran (λ db. (find active db.addresses, db)) w found u
      → find active w.db.addresses ≡ some a
      → Ends (Safe (Holds w)) (or_fail found panic) u
  unfolding Holds
  got_held w none u a h e = absurd (cc (h.0, e))
  got_held w (some b) u a h e = (sym h.0, h.1)

  pub winner-Safe :
      (w : World) → any active w.db.addresses ≡ true → Ends (Safe (Holds w)) (winner keystore d) w
  unfolding winner find_active_address_by_hmac
  winner-Safe w there =
      let (a, e) = find_exists active w.db.addresses there in
      Ends-then (Ran (λ db. (find active db.addresses, db)) w) (Holds w)
        (find_active_address_by_hmac d.kind d.value_hmac) (λ found. or_fail found panic) w
        (query-Safe (λ db. find active db.addresses) w) (λ found u h. got_held w found u a h e)

  -- What a transaction that inserts an address ends with.
  unfoldable pub Added : ℕ → ℕ → Bool → Db → Type 0
  Added customer_id address_id true db =
      (locale : Option String)
      → any
          (is_held d
            (record { customer_id = customer_id; address_id = address_id; locale = locale }))
          db.addresses
        ≡ true
  Added customer_id address_id false db = any active db.addresses ≡ true

  pub insert-Within :
      (address_id customer_id : ℕ) (ciphertext : List ℕ) (rank now : ℕ) (v w u : World)
      (held : Bool)
      → w.db.addresses ≡ v.db.addresses
      → Ran
          (insert_address
            (new_address address_id customer_id d.kind ciphertext d.value_hmac rank now))
          w
          held
          u
      → Within (Added customer_id address_id) v held u
  unfolding Added
  insert-Within address_id customer_id ciphertext rank now v w u true same h = λ locale.
      let a = new_address address_id customer_id d.kind ciphertext d.value_hmac rank now in
      let p =
        is_held d
          (record { customer_id = customer_id; address_id = address_id; locale = locale }) in
      let rows = ap (λ (db : Db). db.addresses) h.1 ∙ insert_done a w.db (sym h.0) in
      let split = any-append p w.db.addresses (a ∷ []) in
      ap (any p) rows
      ∙ split
      ∙ ground
          (arith, beq_refl address_id, beq_refl customer_id, beq_refl d.kind, beq_refl d.value_hmac)
  insert-Within address_id customer_id ciphertext rank now v w u false same h =
      ap (any active) (sym same)
      ∙ insert_refused (new_address address_id customer_id d.kind ciphertext d.value_hmac rank now)
          w.db (sym h.0)

  -- The minted customer and address, or the winner's.
  pub minted-Safe :
      (customer_id address_id : ℕ) (inserted : Bool) (w : World)
      → Added customer_id address_id inserted w.db
      → Ends (Safe (Held d)) (minted_or_winner keystore d customer_id address_id inserted) w
  unfolding Added
  minted-Safe customer_id address_id true w h = h none
  minted-Safe customer_id address_id false w h =
      Ends-then (Holds w) (Held d) (winner keystore d) (λ a. pure (holder a none)) w
        (winner-Safe w h) (λ a u k. kept_by_winner a none w u k)

  pub insert_dek_if-Added :
      (customer_id address_id : ℕ) (wrapped : String) (now : ℕ) (held : Bool) (v w : World)
      → Within (Added customer_id address_id) v held w
      → Ends
          (Safe (Within (Added customer_id address_id) v))
          (insert_dek_if keystore d customer_id wrapped now held)
          w
  unfolding Added insert_dek
  insert_dek_if-Added customer_id address_id wrapped now true v w h =
      Ends-then (Ran (insert_dek customer_id wrapped now) w)
        (Within (Added customer_id address_id) v)
        (sql database (insert_dek customer_id wrapped now)) (λ inserted. pure true) w
        (sql-Safe (insert_dek customer_id wrapped now) w)
        (λ inserted u k. λ locale.
          ap
            (any (
              is_held d
                (record { customer_id = customer_id; address_id = address_id; locale = locale })))
            (ap (λ (db : Db). db.addresses) k.1 ∙ insert_dek-addresses customer_id wrapped now w.db)
          ∙ h locale)
  insert_dek_if-Added customer_id address_id wrapped now false v w h = h
