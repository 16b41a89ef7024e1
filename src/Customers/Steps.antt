-- ===== src/Customers/Steps.antt =====
-- The steps of `resolve` in src/customer/resolve.rs that find or mint a customer: none panics.
use messgr.Customers.Resolve.{
  always, known_or_mint, won_or_winner, or_mint, mint_provisional_customer_with_external_id,
  non_provisional_locale, winner_locale, mint_provisional_customer, transaction_if, Destination,
}
use messgr.Base.{
  ℕ, zero, suc, ◌+◌, String, ◌≡◌, refl, sym, ap, ◌∙◌, inl, inr, Bool, true, false, Option, none,
  some, arith, ◌==◌, Bool-cases, any, find, find_exists, nat_eq, string_eq, option_eq, list_eq,
}
use messgr.Store.Tables.{ExternalId, Address, Customer, Db}
use messgr.Store.Exec.{utc_now, query, next_call, pure, World, ◌>>=◌, sql}
use messgr.Store.Steps.{Ends}
use messgr.Customers.Deks.{panic, or_fail, database, Keystore}
use messgr.Customers.Repo.{
  insert_external_id, alias_hop_limit, is_external, next_alias, max_rank, external_customer,
  find_customer_by_external_id, is_customer, expand_alias, expand_hops, find_by_id,
  next_rank_for_update, insert_customer, provisional_customer,
}
use messgr.Customers.Safe.{
  utc_now-Safe, query-Safe, query-Same, transaction_if-Safe, next_call-Safe, SameDb, Safe,
  Ends-then, Ran, sql-Safe, Within,
}
use messgr.Customers.Holding.{known_customer, Referenced}
use messgr.Customers.DekSafe.{Anything}

rank_after :
    {A : Type 0} (row : Option A) (f : Db → ℕ) (u w : World)
    → w.db ≡ u.db
    → Ends (Safe (SameDb u)) (or_fail row database >>= λ locked. query database f) w
rank_after none f u w same = refl
rank_after (some c) f u w same = query-Same f u w same

pub next_rank-Safe :
    (customer_id : ℕ) (kind : String) (u : World)
    → Ends (Safe (SameDb u)) (next_rank_for_update customer_id kind) u
unfolding next_rank_for_update
next_rank-Safe customer_id kind u =
    let f = λ (db : Db). find (is_customer customer_id) db.customers in
    Ends-then (SameDb u) (SameDb u) (query database f) _ u (query-Same f u u refl)
      (λ row x same. rank_after row (λ db. max_rank customer_id kind db.addresses + 1) u x same)

pub find_by_id-Safe :
    (id : ℕ) (w : World) → Ends (Safe {A = Option Customer} (SameDb w)) (find_by_id id) w
unfolding find_by_id
find_by_id-Safe id w = query-Same (λ db. find (is_customer id) db.customers) w w refl

expand_hops-Safe : (hops id : ℕ) (w : World) → Ends (Safe {A = ℕ} Anything) (expand_hops hops id) w
unfolding expand_hops
expand_hops-Safe zero id w = tt
expand_hops-Safe (suc hops) id w =
    Ends-then (SameDb w) Anything (query database (next_alias id)) _ w
      (query-Same (next_alias id) w w refl)
      (λ next u same. follow next u (λ other x. expand_hops-Safe hops other x))
  where
    follow :
        (next : Option ℕ) (u : World)
        → ((other : ℕ) (x : World) → Ends (Safe {A = ℕ} Anything) (expand_hops hops other) x)
        → Ends
            (Safe {A = ℕ} Anything)
            (elim next [ none ↦ pure id | some other ↦ expand_hops hops other ])
            u
    follow none u ih = tt
    follow (some other) u ih = ih other u

pub expand_alias-Safe : (id : ℕ) (w : World) → Ends (Safe {A = ℕ} Anything) (expand_alias id) w
unfolding expand_alias
expand_alias-Safe id w = expand_hops-Safe alias_hop_limit id w

pub find_external-Safe :
    (system external_id : String) (w : World)
    → let f = external_customer system external_id in
      Ends (Safe (Ran (λ db. (f db, db)) w)) (find_customer_by_external_id system external_id) w
unfolding find_customer_by_external_id
find_external-Safe system external_id w = query-Safe (external_customer system external_id) w

module _ (keystore : Keystore) (d : Destination) where
  mint-Safe :
      (id : ℕ) (w : World)
      → Ends (Safe {A = Bool} Anything) (mint_provisional_customer keystore d id) w
  unfolding mint_provisional_customer
  mint-Safe id w =
      transaction_if-Safe (λ b db. Unit) w _
        (λ u same.
          Ends-then (SameDb u) (Within (λ b db. Unit) w) utc_now _ u (utc_now-Safe u) (λ now x h.
            let c = provisional_customer id d.locale d.timezone now in
            Ends-then (Ran (insert_customer c) x) (Within (λ b db. Unit) w)
              (sql database (insert_customer c)) always x (sql-Safe (insert_customer c) x)
              (λ inserted y k. tt)))

  pub or_mint-Safe :
      (id : ℕ) (found : Option Customer) (w : World)
      → Ends (Safe {A = ℕ × Option String} Anything) (or_mint keystore d id found) w
  or_mint-Safe id (some row) w = tt
  or_mint-Safe id none w =
      Ends-then Anything Anything (mint_provisional_customer keystore d id)
        (λ minted. pure (id, none)) w (mint-Safe id w) (λ minted u h. tt)

  pub winner_locale-Safe :
      (customer_id : ℕ) (locale : Option String) (a : Address) (u : World)
      → Ends (Safe {A = Option String} (SameDb u)) (winner_locale keystore d customer_id locale a) u
  winner_locale-Safe customer_id locale a u = elim (Bool-cases (a.customer_id == customer_id)) [
    | inl e ↦ rw e refl
    | inr e ↦ rw e (
        Ends-then (SameDb u) (SameDb u) (find_by_id a.customer_id)
          (λ row. pure (non_provisional_locale row)) u (find_by_id-Safe a.customer_id u)
          (λ row x same. same))
  ]

  found_by_id :
      (id : ℕ) (u : World)
      → Ends (Safe (Ran (λ db. (find (is_customer id) db.customers, db)) u)) (find_by_id id) u
  unfolding find_by_id
  found_by_id id u = query-Safe (λ db. find (is_customer id) db.customers) u

  abbrev Named : String → String → Bool → Db → Type 0
  Named system external_id true db = Unit
  Named system external_id false db = any (is_external system external_id) db.external_ids ≡ true

  naming-Within :
      (x : ExternalId) (v w u : World) (named : Bool)
      → w.db.external_ids ≡ v.db.external_ids
      → Ran (insert_external_id x) w named u
      → Within (Named x.system x.external_id) v named u
  unfolding insert_external_id
  naming-Within x v w u true same h = tt
  naming-Within x v w u false same h =
      elim (Bool-cases (any (is_external x.system x.external_id) w.db.external_ids)) [
        | inl e ↦ ap (any (is_external x.system x.external_id)) (sym same) ∙ e
        | inr e ↦ absurd (let no = rw e at h in cc (no.0))
      ]

  customer_externals :
      (c : Customer) (db : Db) → (insert_customer c db).1.external_ids ≡ db.external_ids
  unfolding insert_customer
  customer_externals c db = ground arith

  external_there :
      (system external_id : String) (db : Db)
      → any (is_external system external_id) db.external_ids ≡ true
      → (id : ℕ) × (external_customer system external_id db ≡ some id)
  external_there system external_id db h =
      let (x, e) = find_exists (is_external system external_id) db.external_ids h in
      (x.customer_id, rw (external_customer, e) refl)

  won_or_winner-Safe :
      (id : ℕ) (system external_id : String) (inserted : Bool) (w : World)
      → Named system external_id inserted w.db
      → Ends (Safe {A = ℕ} Anything) (won_or_winner keystore d id system external_id inserted) w
  won_or_winner-Safe id system external_id true w h = tt
  won_or_winner-Safe id system external_id false w h =
      let f = external_customer system external_id in
      let (its, e) = external_there system external_id w.db h in
      Ends-then (Ran (λ db. (f db, db)) w) Anything
        (find_customer_by_external_id system external_id) (λ found. or_fail found panic) w
        (find_external-Safe system external_id w) (λ found u k. got found u its (k.0 ∙ e))
    where
      got :
          {A : Type 0} (found : Option A) (u : World) (a : A)
          → found ≡ some a
          → Ends (Safe {A = A} Anything) (or_fail found panic) u
      got none u a e = absurd (cc e)
      got (some b) u a e = tt

  naming-Safe :
      (id : ℕ) (system external_id : String) (now : ℕ) (w : World)
      → Ends
          (Safe (λ b (u : World). Named system external_id b u.db))
          (transaction_if (
            sql database (insert_customer (provisional_customer id d.locale d.timezone now))
            >>= λ minted.
                sql database (
                  insert_external_id
                    (record { customer_id = id; system = system; external_id = external_id }))
                >>= pure))
          w
  naming-Safe id system external_id now w =
      let c = provisional_customer id d.locale d.timezone now in
      let x : ExternalId = record {
        customer_id = id;
        system = system;
        external_id = external_id;
      } in
      let H = Named system external_id in
      transaction_if-Safe H w _ (λ u same.
        Ends-then (Ran (insert_customer c) u) (Within H w) (sql database (insert_customer c)) _ u
          (sql-Safe (insert_customer c) u)
          (λ minted y h.
            Ends-then (Ran (insert_external_id x) y) (Within H w)
              (sql database (insert_external_id x)) pure y (sql-Safe (insert_external_id x) y)
              (λ named z k.
                naming-Within x w y z named
                  (ap (λ (db : Db). db.external_ids) h.1
                    ∙ customer_externals c u.db
                    ∙ ap (λ (db : Db). db.external_ids) same)
                  k)))

  mint_external-Safe :
      (system external_id : String) (w : World)
      → Ends
          (Safe {A = ℕ} Anything)
          (mint_provisional_customer_with_external_id keystore d system external_id)
          w
  unfolding mint_provisional_customer_with_external_id
  mint_external-Safe system external_id w =
      Ends-then (SameDb w) Anything next_call _ w (next_call-Safe w) (λ call w1 h1.
        Ends-then (SameDb w1) Anything utc_now _ w1 (utc_now-Safe w1) (λ now w2 h2.
          let id = keystore.new_uuid call in
          Ends-then (λ b (u : World). Named system external_id b u.db) Anything
            (transaction_if (
              sql database (insert_customer (provisional_customer id d.locale d.timezone now))
              >>= λ minted.
                  sql database (
                    insert_external_id
                      (record { customer_id = id; system = system; external_id = external_id }))
                  >>= pure))
            (won_or_winner keystore d id system external_id) w2
            (naming-Safe id system external_id now w2)
            (λ b u h. won_or_winner-Safe id system external_id b u h)))

  pub known_or_mint-Safe :
      (system external_id : String) (found : Option ℕ) (w u : World)
      → Referenced w.db
      → Ran (λ db. (external_customer system external_id db, db)) w found u
      → Ends
          (Safe {A = ℕ × Option String} Anything)
          (known_or_mint keystore d system external_id found)
          u
  known_or_mint-Safe system external_id none w u known h =
      Ends-then Anything Anything
        (mint_provisional_customer_with_external_id keystore d system external_id)
        (λ id. pure (id, none)) u (mint_external-Safe system external_id u) (λ id x k. tt)
  known_or_mint-Safe system external_id (some id) w u known h =
      let f = λ (db : Db). find (is_customer id) db.customers in
      let there = known_customer system external_id w.db id known (sym h.0) in
      let (row, e) = find_exists (is_customer id) w.db.customers there in
      Ends-then (Ran (λ db. (f db, db)) u) Anything (find_by_id id)
        (λ found. or_fail found panic >>= λ r. pure (id, non_provisional_locale (some r))) u
        (found_by_id id u) (λ found x k. known_row id found x row (k.0 ∙ ap f h.1 ∙ e))
    where
      known_row :
          (id : ℕ) (found : Option Customer) (x : World) (row : Customer)
          → found ≡ some row
          → Ends
              (Safe {A = ℕ × Option String} Anything)
              (or_fail found panic >>= λ r. pure (id, non_provisional_locale (some r)))
              x
      known_row id none x row e = absurd (cc e)
      known_row id (some r) x row e = tt
