-- ===== src/Customers/Resolution.antt =====
-- What `resolve` of src/customer/resolve.rs answers.
use messgr.Base.{
  ℕ, String, ◌≡◌, refl, sym, ap, ◌∙◌, Bool, true, false, Option, none, some, List, arith, beq_refl,
  any, find, find-some, nat_eq, string_eq, option_eq, list_eq,
}
use messgr.Store.Tables.{Db, Address}
use messgr.Store.Steps.{Ends}
use messgr.Ingest.Request.{ResolutionInput, explicit, external, address_only}
use messgr.Store.Exec.{World, Exec, pure, ◌>>=◌, sql, utc_now, next_call}
use messgr.Customers.Safe.{
  Safe, Ends-then, SameDb, Ran, next_call-Safe, utc_now-Safe, sql-Safe, query-Safe, Within,
  transaction_if-Safe,
}
use messgr.Customers.DekSafe.{Anything, or_fail-Anything, create_dek-Safe, get_or_create_dek-Safe}
use messgr.Customers.Holding.{
  Held, Referenced, is_held, holder, of_finding, Holds, kept_by_winner, winner-Safe, Added,
  insert-Within, minted-Safe, insert_dek_if-Added, find-any_at, insert_customer-addresses,
}
use messgr.Customers.Deks.{
  ResolveError, database, encryption, Keystore, Dek, or_fail, create_dek, get_or_create_dek,
}
use messgr.Customers.Repo.{
  is_customer, is_active_address, is_address_of, external_customer, find_by_id, expand_alias,
  find_customer_by_external_id, find_active_address_by_hmac, find_active_address_for_customer,
  insert_address, insert_customer, provisional_customer, next_rank_for_update,
}
use messgr.Customers.Resolve.{
  Destination, winner, new_address, transaction_if, minted_or_winner, insert_dek_if,
  mint_provisional_customer_and_address, or_mint, known_or_mint, winner_locale, added_or_winner,
  add_address, held_or_add, resolve_address, owner_or_mint, resolve, non_provisional_locale,
}
use messgr.Customers.Steps.{
  next_rank-Safe, find_by_id-Safe, expand_alias-Safe, find_external-Safe, or_mint-Safe,
  winner_locale-Safe, known_or_mint-Safe,
}

module _ (keystore : Keystore) (d : Destination) where
  abbrev minting : ℕ → ℕ → List ℕ → String → ℕ → Exec ResolveError Bool
  minting customer_id address_id ciphertext wrapped now =
      sql database (insert_customer (provisional_customer customer_id d.locale d.timezone now))
      >>= λ minted.
          sql database (
            insert_address
              (new_address address_id customer_id d.kind ciphertext d.value_hmac 1 now))
          >>= insert_dek_if keystore d customer_id wrapped now

  abbrev adding : ℕ → ℕ → List ℕ → ℕ → Exec ResolveError Bool
  adding customer_id address_id ciphertext now = next_rank_for_update customer_id d.kind >>= λ rank.
      sql database (
        insert_address (new_address address_id customer_id d.kind ciphertext d.value_hmac rank now))
      >>= pure

  -- A destination that no one holds: a new customer with it.
  minting-Added :
      (customer_id address_id : ℕ) (ciphertext : List ℕ) (wrapped : String) (now : ℕ) (v u : World)
      → u.db ≡ v.db
      → Ends
          (Safe (Within (Added keystore d customer_id address_id) v))
          (minting customer_id address_id ciphertext wrapped now)
          u
  minting-Added customer_id address_id ciphertext wrapped now v u same =
      let c = provisional_customer customer_id d.locale d.timezone now in
      let a = new_address address_id customer_id d.kind ciphertext d.value_hmac 1 now in
      let P = Within (Added keystore d customer_id address_id) v in
      Ends-then (Ran (insert_customer c) u) P (sql database (insert_customer c))
        (λ minted.
          sql database (insert_address a) >>= insert_dek_if keystore d customer_id wrapped now)
        u (sql-Safe (insert_customer c) u)
        (λ minted x h.
          Ends-then (Ran (insert_address a) x) P (sql database (insert_address a))
            (insert_dek_if keystore d customer_id wrapped now) x (sql-Safe (insert_address a) x)
            (λ held y k.
              insert_dek_if-Added keystore d customer_id address_id wrapped now held v y (
                insert-Within keystore d address_id customer_id ciphertext 1 now v x y held
                  (ap (λ (db : Db). db.addresses) h.1
                    ∙ insert_customer-addresses c u.db
                    ∙ ap (λ (db : Db). db.addresses) same)
                  k)))

  sealed_mint :
      (customer_id address_id now : ℕ) (dek : Dek) (ciphertext : List ℕ) (w : World)
      → Ends
          (Safe (Held d))
          (transaction_if (minting customer_id address_id ciphertext dek.wrapped now)
            >>= minted_or_winner keystore d customer_id address_id)
          w
  sealed_mint customer_id address_id now dek ciphertext w =
      Ends-then (λ b (u : World). Added keystore d customer_id address_id b u.db) (Held d)
        (transaction_if (minting customer_id address_id ciphertext dek.wrapped now))
        (minted_or_winner keystore d customer_id address_id) w
        (transaction_if-Safe (Added keystore d customer_id address_id) w
          (minting customer_id address_id ciphertext dek.wrapped now)
          (λ u same. minting-Added customer_id address_id ciphertext dek.wrapped now w u same))
        (λ b u h. minted-Safe keystore d customer_id address_id b u h)

  mint_provisional_customer_and_address-Safe :
      (w : World) → Ends (Safe (Held d)) (mint_provisional_customer_and_address keystore d) w
  unfolding mint_provisional_customer_and_address
  mint_provisional_customer_and_address-Safe w =
      Ends-then (SameDb w) (Held d) next_call _ w (next_call-Safe w) (λ customer_call w1 h1.
        Ends-then (SameDb w1) (Held d) next_call _ w1 (next_call-Safe w1) (λ address_call w2 h2.
          Ends-then (SameDb w2) (Held d) utc_now _ w2 (utc_now-Safe w2) (λ now w3 h3.
            Ends-then Anything (Held d) (create_dek keystore) _ w3 (create_dek-Safe keystore w3)
              (λ dek w4 h4.
                Ends-then Anything (Held d)
                  (or_fail
                    (keystore.encrypt dek.plaintext (keystore.aad (keystore.new_uuid address_call))
                      d.destination)
                    encryption)
                  _ w4 (or_fail-Anything _ encryption w4 refl)
                  (λ ciphertext w5 h5.
                    sealed_mint (keystore.new_uuid customer_call) (keystore.new_uuid address_call)
                      now dek ciphertext w5)))))

  -- A new address of a customer.
  adding-Added :
      (customer_id address_id : ℕ) (ciphertext : List ℕ) (now : ℕ) (v u : World)
      → u.db ≡ v.db
      → Ends
          (Safe (Within (Added keystore d customer_id address_id) v))
          (adding customer_id address_id ciphertext now)
          u
  adding-Added customer_id address_id ciphertext now v u same =
      let P = Within (Added keystore d customer_id address_id) v in
      Ends-then (SameDb u) P (next_rank_for_update customer_id d.kind) _ u
        (next_rank-Safe customer_id d.kind u)
        (λ rank x h.
          let a = new_address address_id customer_id d.kind ciphertext d.value_hmac rank now in
          Ends-then (Ran (insert_address a) x) P (sql database (insert_address a)) pure x
            (sql-Safe (insert_address a) x)
            (λ held y k.
              insert-Within keystore d address_id customer_id ciphertext rank now v x y held
                (ap (λ (db : Db). db.addresses) (h ∙ same)) k))

  outcome-Safe :
      (customer_id : ℕ) (locale : Option String) (address_id : ℕ) (inserted : Bool) (w : World)
      → Added keystore d customer_id address_id inserted w.db
      → Ends (Safe (Held d)) (added_or_winner keystore d customer_id locale address_id inserted) w
  unfolding Added
  outcome-Safe customer_id locale address_id true w h = h locale
  outcome-Safe customer_id locale address_id false w h =
      Ends-then (Holds keystore d w) (Held d) (winner keystore d)
        (λ a. winner_locale keystore d customer_id locale a >>= λ its_locale.
          pure (holder keystore d a its_locale))
        w (winner-Safe keystore d w h)
        (λ a u k.
          Ends-then (SameDb u) (Held d) (winner_locale keystore d customer_id locale a)
            (λ its_locale. pure (holder keystore d a its_locale)) u
            (winner_locale-Safe keystore d customer_id locale a u)
            (λ its_locale x same.
              ap (λ (db : Db). any (is_held d (holder keystore d a its_locale)) db.addresses) same
              ∙ kept_by_winner keystore d a its_locale w u k))

  add_address-Safe :
      (customer_id : ℕ) (locale : Option String) (w : World)
      → Ends (Safe (Held d)) (add_address keystore d customer_id locale) w
  unfolding add_address
  add_address-Safe customer_id locale w =
      Ends-then Anything (Held d) (get_or_create_dek keystore customer_id) _ w
        (get_or_create_dek-Safe keystore customer_id w)
        (λ dek w1 h1.
          Ends-then (SameDb w1) (Held d) next_call _ w1 (next_call-Safe w1) (λ call w2 h2.
            let id = keystore.new_uuid call in
            Ends-then Anything (Held d)
              (or_fail (keystore.encrypt dek (keystore.aad id) d.destination) encryption) _ w2
              (or_fail-Anything _ encryption w2 refl)
              (λ ciphertext w3 h3.
                Ends-then (SameDb w3) (Held d) utc_now _ w3 (utc_now-Safe w3) (λ now w4 h4.
                  Ends-then (λ b (u : World). Added keystore d customer_id id b u.db) (Held d)
                    (transaction_if (adding customer_id id ciphertext now))
                    (added_or_winner keystore d customer_id locale id) w4
                    (transaction_if-Safe (Added keystore d customer_id id) w4
                      (adding customer_id id ciphertext now)
                      (λ u same. adding-Added customer_id id ciphertext now w4 u same))
                    (λ b u h. outcome-Safe customer_id locale id b u h)))))

  held_or_add-Safe :
      (customer_id : ℕ) (locale : Option String) (found : Option Address) (w u : World)
      → Ran
          (λ db. (find (is_address_of customer_id d.kind d.value_hmac) db.addresses, db))
          w
          found
          u
      → Ends (Safe (Held d)) (held_or_add keystore d customer_id locale found) u
  held_or_add-Safe customer_id locale none w u h = add_address-Safe customer_id locale u
  held_or_add-Safe customer_id locale (some a) w u h =
      let p = is_address_of customer_id d.kind d.value_hmac in
      let its = find-some p w.db.addresses a (sym h.0) in
      let q =
        is_held d (record { customer_id = customer_id; address_id = a.id; locale = locale }) in
      ap (λ (db : Db). any q db.addresses) h.1
      ∙ find-any_at p q w.db.addresses a (sym h.0) (ground (arith, its, beq_refl a.id))

  resolve_address-Safe :
      (who : ℕ × Option String) (w : World)
      → Ends (Safe (Held d)) (resolve_address keystore d who) w
  unfolding resolve_address find_active_address_for_customer
  resolve_address-Safe (customer_id, locale) w =
      let f = λ (db : Db). find (is_address_of customer_id d.kind d.value_hmac) db.addresses in
      Ends-then (Ran (λ db. (f db, db)) w) (Held d)
        (find_active_address_for_customer customer_id d.kind d.value_hmac)
        (held_or_add keystore d customer_id locale) w (query-Safe f w)
        (λ found u h. held_or_add-Safe customer_id locale found w u h)

  owner_or_mint-Safe :
      (found : Option Address) (w u : World)
      → Ran (λ db. (find (is_active_address d.kind d.value_hmac) db.addresses, db)) w found u
      → Ends (Safe (Held d)) (owner_or_mint keystore d found) u
  unfolding find_by_id
  owner_or_mint-Safe none w u h = mint_provisional_customer_and_address-Safe u
  owner_or_mint-Safe (some a) w u h =
      let f = λ (db : Db). find (is_customer a.customer_id) db.customers in
      Ends-then (Ran (λ db. (f db, db)) u) (Held d) (find_by_id a.customer_id) _ u (query-Safe f u)
        (λ row x k.
          of_finding keystore d a (non_provisional_locale row) x w.db.addresses (sym h.0)
            (ap (λ (db : Db). db.addresses) (k.1 ∙ h.1)))

  -- Where external ids are of customers that are there, a resolution ends with an active address of
  -- the destination, which is of the resolved customer, or with an error that is not a panic.
  pub resolve-Safe :
      (input : ResolutionInput) (w : World)
      → Referenced w.db
      → Ends (Safe (Held d)) (resolve keystore d input) w
  unfolding resolve find_active_address_by_hmac
  resolve-Safe (explicit named) w known =
      Ends-then Anything (Held d) (expand_alias named) _ w (expand_alias-Safe named w) (λ id w1 h1.
        Ends-then (SameDb w1) (Held d) (find_by_id id) _ w1 (find_by_id-Safe id w1) (λ found w2 h2.
          Ends-then Anything (Held d) (or_mint keystore d id found) (resolve_address keystore d) w2
            (or_mint-Safe keystore d id found w2) (λ who w3 h3. resolve_address-Safe who w3)))
  resolve-Safe (external system external_id) w known =
      let f = external_customer system external_id in
      Ends-then (Ran (λ db. (f db, db)) w) (Held d)
        (find_customer_by_external_id system external_id) _ w
        (find_external-Safe system external_id w)
        (λ found w1 h1.
          Ends-then Anything (Held d) (known_or_mint keystore d system external_id found)
            (resolve_address keystore d) w1
            (known_or_mint-Safe keystore d system external_id found w w1 known h1)
            (λ who w3 h3. resolve_address-Safe who w3))
  resolve-Safe address_only w known =
      let f = λ (db : Db). find (is_active_address d.kind d.value_hmac) db.addresses in
      Ends-then (Ran (λ db. (f db, db)) w) (Held d)
        (find_active_address_by_hmac d.kind d.value_hmac) (owner_or_mint keystore d) w
        (query-Safe f w) (λ found u h. owner_or_mint-Safe found w u h)
