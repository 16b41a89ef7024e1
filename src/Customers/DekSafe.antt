-- ===== src/Customers/DekSafe.antt =====
-- That `get_or_create_dek` of src/customer_dek/lifecycle.rs does not panic.
use messgr.Base.{
  ℕ, String, ◌≡◌, refl, sym, ap, ◌∙◌, inl, inr, Bool, true, false, Option, none, some, List, ◌==◌,
  Bool-cases, any, find, find_exists, nat_eq, string_eq, option_eq, list_eq,
}
use messgr.Store.Tables.{CustomerDek, Db}
use messgr.Store.Exec.{utc_now, next_call, World, ◌>>=◌, sql}
use messgr.Store.Steps.{Ends}
use messgr.Customers.Deks.{
  ResolveError, database, vault, panic, Keystore, Dek, or_fail, find_dek, insert_dek, create_dek,
  unwrap_dek, insert_or_winner, unwrap_or_create, cached_or_find, get_or_create_dek,
}
use messgr.Customers.Safe.{
  is_panic, Safe, Ends-then, SameDb, Ran, Got, next_call-Safe, utc_now-Safe, sql-Safe, query-Safe,
  present-Safe,
}

abbrev pub Anything : {A : Type 0} → A → World → Type 0
Anything a u = Unit

pub or_fail-Anything :
    {A : Type 0} (o : Option A) (e : ResolveError) (w : World)
    → is_panic e ≡ false
    → Ends (Safe {A = A} Anything) (or_fail o e) w
or_fail-Anything none e w h = h
or_fail-Anything (some a) e w h = tt

module _ (keystore : Keystore) where
  pub create_dek-Safe : (w : World) → Ends (Safe {A = Dek} Anything) (create_dek keystore) w
  unfolding create_dek
  create_dek-Safe w =
      Ends-then (SameDb w) Anything next_call (λ call. or_fail (keystore.create_dek call) vault) w
        (next_call-Safe w) (λ call u h. or_fail-Anything (keystore.create_dek call) vault u refl)

  unwrap_dek-Safe :
      (wrapped : String) (w : World)
      → Ends (Safe {A = List ℕ} Anything) (unwrap_dek keystore wrapped) w
  unfolding unwrap_dek
  unwrap_dek-Safe wrapped w =
      Ends-then (SameDb w) Anything next_call
        (λ call. or_fail (keystore.unwrap_dek call wrapped) vault) w (next_call-Safe w)
        (λ call u h. or_fail-Anything (keystore.unwrap_dek call wrapped) vault u refl)

  abbrev is_of : ℕ → CustomerDek → Bool
  is_of customer_id d = d.customer_id == customer_id

  refused_is_there :
      (customer_id : ℕ) (wrapped : String) (now : ℕ) (db : Db)
      → (insert_dek customer_id wrapped now db).0 ≡ false
      → any (is_of customer_id) (insert_dek customer_id wrapped now db).1.deks ≡ true
  unfolding insert_dek
  refused_is_there customer_id wrapped now db h =
      elim (Bool-cases (any (is_of customer_id) db.deks)) [
        | inl e ↦ rw (e, e) refl
        | inr e ↦ absurd (let no = rw e at h in cc no)
      ]

  winner_dek :
      (customer_id : ℕ) (dek : Dek) (w : World)
      → any (is_of customer_id) w.db.deks ≡ true
      → Ends (Safe {A = List ℕ} Anything) (insert_or_winner keystore customer_id dek false) w
  unfolding find_dek
  winner_dek customer_id dek w there =
      let (row, e) = find_exists (is_of customer_id) w.db.deks there in
      Ends-then (Ran (λ db. (find (is_of customer_id) db.deks, db)) w) Anything
        (find_dek customer_id)
        (λ found. or_fail found panic >>= λ r. unwrap_dek keystore r.wrapped_dek) w
        (query-Safe (λ db. find (is_of customer_id) db.deks) w)
        (λ found u h.
          Ends-then (Got found u) Anything (or_fail found panic)
            (λ r. unwrap_dek keystore r.wrapped_dek) u (present-Safe found panic u row (h.0 ∙ e))
            (λ r x k. unwrap_dek-Safe r.wrapped_dek x))

  after_insert :
      (customer_id : ℕ) (dek : Dek) (now : ℕ) (inserted : Bool) (v w : World)
      → Ran (insert_dek customer_id dek.wrapped now) v inserted w
      → Ends (Safe {A = List ℕ} Anything) (insert_or_winner keystore customer_id dek inserted) w
  after_insert customer_id dek now true v w h = tt
  after_insert customer_id dek now false v w h = winner_dek customer_id dek w (
      ap (λ (x : Db). any (is_of customer_id) x.deks) h.1
      ∙ refused_is_there customer_id dek.wrapped now v.db (sym h.0))

  unwrap_or_create-Safe :
      (customer_id : ℕ) (found : Option CustomerDek) (w : World)
      → Ends (Safe {A = List ℕ} Anything) (unwrap_or_create keystore customer_id found) w
  unwrap_or_create-Safe customer_id (some row) w = unwrap_dek-Safe row.wrapped_dek w
  unwrap_or_create-Safe customer_id none w =
      Ends-then Anything Anything (create_dek keystore)
        (λ dek. utc_now >>= λ now.
          sql database (insert_dek customer_id dek.wrapped now)
          >>= insert_or_winner keystore customer_id dek)
        w (create_dek-Safe w)
        (λ dek u h.
          Ends-then (SameDb u) Anything utc_now
            (λ now.
              sql database (insert_dek customer_id dek.wrapped now)
              >>= insert_or_winner keystore customer_id dek)
            u (utc_now-Safe u)
            (λ now x k.
              Ends-then (Ran (insert_dek customer_id dek.wrapped now) x) Anything
                (sql database (insert_dek customer_id dek.wrapped now))
                (insert_or_winner keystore customer_id dek) x
                (sql-Safe (insert_dek customer_id dek.wrapped now) x)
                (λ inserted y r. after_insert customer_id dek now inserted x y r)))

  cached_or_find-Safe :
      (customer_id : ℕ) (cached : Option (List ℕ)) (w : World)
      → Ends (Safe {A = List ℕ} Anything) (cached_or_find keystore customer_id cached) w
  unfolding find_dek
  cached_or_find-Safe customer_id (some plaintext) w = tt
  cached_or_find-Safe customer_id none w =
      Ends-then (Ran (λ db. (find (is_of customer_id) db.deks, db)) w) Anything
        (find_dek customer_id) (unwrap_or_create keystore customer_id) w
        (query-Safe (λ db. find (is_of customer_id) db.deks) w)
        (λ found u h. unwrap_or_create-Safe customer_id found u)

  pub get_or_create_dek-Safe :
      (customer_id : ℕ) (w : World)
      → Ends (Safe {A = List ℕ} Anything) (get_or_create_dek keystore customer_id) w
  unfolding get_or_create_dek
  get_or_create_dek-Safe customer_id w =
      Ends-then (SameDb w) Anything next_call
        (λ call. cached_or_find keystore customer_id (keystore.cached call customer_id)) w
        (next_call-Safe w)
        (λ call u h. cached_or_find-Safe customer_id (keystore.cached call customer_id) u)
