-- ===== src/Customers/DekFrame.antt =====
-- What `get_or_create_dek` of src/customer_dek/lifecycle.rs leaves as it is, however it ends.
use messgr.Base.{
  ℕ, ◌≤◌, String, ◌≡◌, refl, ap, ◌∙◌, Bool, true, false, Option, none, some, List, arith,
  if◌then◌else◌,
}
use messgr.Store.Tables.{CustomerDek, Db}
use messgr.Store.Exec.{
  World, Result, ok, err, Exec, continue, ◌>>=◌, sql, query, next_call, utc_now,
}
use messgr.Store.Steps.{Steady}
use messgr.Customers.Deks.{
  ResolveError, database, vault, panic, Keystore, Dek, or_fail, find_dek, insert_dek, create_dek,
  unwrap_dek, insert_or_winner, unwrap_or_create, cached_or_find, get_or_create_dek,
}

-- Only the table of customer keys may differ; time does not go back.
pub record Keyed (v w : World) : Type 0 where
  pub deks : List CustomerDek
  pub db : w.db ≡ record v.db { deks = deks }
  pub sent : w.sent ≡ v.sent
  pub quota : w.quota ≡ v.quota
  pub later : v.clock ≤ w.clock

pub Keyed-trans : {u v w : World} → Keyed u v → Keyed v w → Keyed u w
Keyed-trans h k = record {
  deks = k.deks;
  db = k.db ∙ ap (λ (d : Db). record d { deks = k.deks }) h.db;
  sent = k.sent ∙ h.sent;
  quota = k.quota ∙ h.quota;
  later = let before = h.later in let after = k.later in omega arith;
}

pub Steady-Keyed : {v w : World} → Steady v w → Keyed v w
Steady-Keyed {v} h = record {
  deks = v.db.deks;
  db = h.db;
  sent = h.sent;
  quota = h.quota;
  later = h.later;
}

abbrev pub Keeps : {E A : Type 0} → Exec E A → Type 0
Keeps m = (w : World) → Keyed w (m w).1

kept : (w : World) → Keyed w w
kept w = record { deks = w.db.deks; db = refl; sent = refl; quota = refl; later = omega arith }

or_fail-Keeps : {A : Type 0} (o : Option A) (e : ResolveError) → Keeps (or_fail o e)
or_fail-Keeps none e w = kept w
or_fail-Keeps (some a) e w = kept w

module _ {E A : Type 0} where
  pub same-Keeps : (r : Result E A) → Keeps (λ (w : World). (r, w))
  same-Keeps r w = kept w

  after_sql-Keeps :
      (e : E) (f : Db → A × Db) (w : World) (fault : Bool) (rest : List Bool)
      → (ks : List CustomerDek) × ((f w.db).1 ≡ record w.db { deks = ks })
      → Keyed w (
          let r : Result E A × World =
            if fault
            then (err e, record w { faults = rest })
            else (ok (f w.db).0, record w { db = (f w.db).1; faults = rest }) in
          r.1)
  after_sql-Keeps e f w true rest h = record {
    deks = w.db.deks;
    db = refl;
    sent = refl;
    quota = refl;
    later = omega arith;
  }
  after_sql-Keeps e f w false rest h = record {
    deks = h.0;
    db = h.1;
    sent = refl;
    quota = refl;
    later = omega arith;
  }

  sql-Keeps :
      (e : E) (f : Db → A × Db)
      → ((db : Db) → (ks : List CustomerDek) × ((f db).1 ≡ record db { deks = ks }))
      → Keeps (sql e f)
  unfolding sql
  sql-Keeps e f h w = after_sql-Keeps e f w _ _ (h w.db)

next_call-Keeps : (E : Type 0) (w : World) → Keyed w (next_call {E = E} w).1
unfolding next_call
next_call-Keeps E w = record {
  deks = w.db.deks;
  db = refl;
  sent = refl;
  quota = refl;
  later = omega arith;
}

utc_now-Keeps : (E : Type 0) (w : World) → Keyed w (utc_now {E = E} w).1
unfolding utc_now
utc_now-Keeps E w = record {
  deks = w.db.deks;
  db = refl;
  sent = refl;
  quota = refl;
  later = omega arith;
}

module _ {E A B : Type 0} where
  continue-Keeps :
      (r : Result E A) (k : A → Exec E B)
      → ((a : A) → Keeps (k a))
      → Keeps (λ (w : World). continue r k w)
  continue-Keeps (ok a) k h w = h a w
  continue-Keeps (err e) k h w = kept w

  pub bind-Keeps :
      (m : Exec E A) (k : A → Exec E B) → Keeps m → ((a : A) → Keeps (k a)) → Keeps (m >>= k)
  bind-Keeps m k h next w = Keyed-trans (h w) (continue-Keeps (m w).0 k next (m w).1)

insert_dek-deks :
    (customer_id : ℕ) (wrapped : String) (now : ℕ) (db : Db)
    → (ks : List CustomerDek) × ((insert_dek customer_id wrapped now db).1
        ≡ record db { deks = ks })
unfolding insert_dek
insert_dek-deks customer_id wrapped now db =
    ((insert_dek customer_id wrapped now db).1.deks, ground arith)

find_dek-Keeps : (customer_id : ℕ) → Keeps (find_dek customer_id)
unfolding find_dek query
find_dek-Keeps customer_id = sql-Keeps database _ (λ db. (db.deks, refl))

module _ (keystore : Keystore) where
  unwrap_dek-Keeps : (wrapped : String) → Keeps (unwrap_dek keystore wrapped)
  unfolding unwrap_dek
  unwrap_dek-Keeps wrapped =
      bind-Keeps next_call _ (next_call-Keeps _) (λ call. or_fail-Keeps _ vault)

  create_dek-Keeps : Keeps (create_dek keystore)
  unfolding create_dek
  create_dek-Keeps = bind-Keeps next_call _ (next_call-Keeps _) (λ call. or_fail-Keeps _ vault)

  insert_or_winner-Keeps :
      (customer_id : ℕ) (dek : Dek) (inserted : Bool)
      → Keeps (insert_or_winner keystore customer_id dek inserted)
  insert_or_winner-Keeps customer_id dek true = same-Keeps {E = ResolveError} (ok dek.plaintext)
  insert_or_winner-Keeps customer_id dek false =
      bind-Keeps (find_dek customer_id) _ (find_dek-Keeps customer_id) (λ found.
        bind-Keeps (or_fail found panic) _ (or_fail-Keeps found panic)
          (λ row. unwrap_dek-Keeps row.wrapped_dek))

  unwrap_or_create-Keeps :
      (customer_id : ℕ) (found : Option CustomerDek)
      → Keeps (unwrap_or_create keystore customer_id found)
  unwrap_or_create-Keeps customer_id (some row) = unwrap_dek-Keeps row.wrapped_dek
  unwrap_or_create-Keeps customer_id none =
      bind-Keeps (create_dek keystore) _ create_dek-Keeps (λ dek.
        bind-Keeps utc_now _ (utc_now-Keeps _) (λ now.
          bind-Keeps (sql database (insert_dek customer_id dek.wrapped now)) _
            (sql-Keeps database _ (insert_dek-deks customer_id dek.wrapped now))
            (λ inserted. insert_or_winner-Keeps customer_id dek inserted)))

  cached_or_find-Keeps :
      (customer_id : ℕ) (cached : Option (List ℕ))
      → Keeps (cached_or_find keystore customer_id cached)
  cached_or_find-Keeps customer_id (some plaintext) = same-Keeps {E = ResolveError} (ok plaintext)
  cached_or_find-Keeps customer_id none =
      bind-Keeps (find_dek customer_id) _ (find_dek-Keeps customer_id)
        (λ found. unwrap_or_create-Keeps customer_id found)

  pub get_or_create_dek-Keeps : (customer_id : ℕ) → Keeps (get_or_create_dek keystore customer_id)
  unfolding get_or_create_dek
  get_or_create_dek-Keeps customer_id =
      bind-Keeps next_call _ (next_call-Keeps _) (λ call. cached_or_find-Keeps customer_id _)
