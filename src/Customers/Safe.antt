-- ===== src/Customers/Safe.antt =====
-- Statements of src/customer that end without a panic, and what holds if they succeed.
use messgr.Base.{
  ◌≡◌, refl, sym, subst, ◌∙◌, Bool, true, false, Option, none, some, List, if◌then◌else◌,
}
use messgr.Store.Tables.{Db}
use messgr.Store.Exec.{
  World, Result, ok, err, Exec, ◌>>=◌, continue, utc_now, query, sql, next_call,
}
use messgr.Store.Steps.{Ends}
use messgr.Customers.Deks.{ResolveError, database, vault, encryption, panic, or_fail}
use messgr.Customers.Resolve.{transaction_if}
use messgr.Customers.Undo.{Ends-transaction_if, Inside}

abbrev pub is_panic : ResolveError → Bool
is_panic panic = true
is_panic database = false
is_panic vault = false
is_panic encryption = false

abbrev pub Safe : {A : Type 0} → (A → World → Type 0) → Result ResolveError A → World → Type 0
Safe F (ok a) w = F a w
Safe F (err e) w = is_panic e ≡ false

module _ {A B : Type 0} (F : A → World → Type 0) (G : B → World → Type 0) where
  then_on :
      (k : A → Exec ResolveError B) (r : Result ResolveError A) (u : World)
      → Safe F r u
      → ((a : A) (x : World) → F a x → Ends (Safe G) (k a) x)
      → Ends (Safe G) (λ (w : World). continue r k w) u
  then_on k (ok a) u h next = next a u h
  then_on k (err e) u h next = h

  pub Ends-then :
      (m : Exec ResolveError A) (k : A → Exec ResolveError B) (w : World)
      → Ends (Safe F) m w
      → ((a : A) (x : World) → F a x → Ends (Safe G) (k a) x)
      → Ends (Safe G) (m >>= k) w
  Ends-then m k w h next = then_on k (m w).0 (m w).1 h next

abbrev pub SameDb : {A : Type 0} → World → A → World → Type 0
SameDb w a u = u.db ≡ w.db

pub next_call-Safe : (w : World) → Ends (Safe (SameDb w)) (next_call {E = ResolveError}) w
unfolding next_call
next_call-Safe w = refl

pub utc_now-Safe : (w : World) → Ends (Safe (SameDb w)) (utc_now {E = ResolveError}) w
unfolding utc_now
utc_now-Safe w = refl

abbrev pub Ran : {A : Type 0} → (Db → A × Db) → World → A → World → Type 0
Ran f w a u = (a ≡ (f w.db).0) × (u.db ≡ (f w.db).1)

sql_on :
    {A : Type 0} (f : Db → A × Db) (w : World) (fault : Bool) (rest : List Bool)
    → Ends
        (Safe (Ran f w))
        (λ (_ : World).
          if fault
          then (err database, record w { faults = rest })
          else (ok (f w.db).0, record w { db = (f w.db).1; faults = rest }))
        w
sql_on f w true rest = refl
sql_on f w false rest = (refl, refl)

pub sql-Safe : {A : Type 0} (f : Db → A × Db) (w : World) → Ends (Safe (Ran f w)) (sql database f) w
unfolding sql
sql-Safe f w = sql_on f w _ _

pub query-Safe :
    {A : Type 0} (f : Db → A) (w : World)
    → Ends (Safe (Ran (λ db. (f db, db)) w)) (query database f) w
unfolding query
query-Safe f w = sql-Safe (λ db. (f db, db)) w

weaken_same :
    {A : Type 0} (f : Db → A) (u w : World) (r : Result ResolveError A) (x : World)
    → w.db ≡ u.db
    → Safe (Ran (λ db. (f db, db)) w) r x
    → Safe (SameDb u) r x
weaken_same f u w (ok a) x same h = h.1 ∙ same
weaken_same f u w (err e) x same h = h

-- A look-up leaves the database as it is.
pub query-Same :
    {A : Type 0} (f : Db → A) (u w : World)
    → w.db ≡ u.db
    → Ends (Safe {A = A} (SameDb u)) (query database f) w
unfolding query
query-Same f u w same =
    weaken_same f u w (query database f w).0 (query database f w).1 same (query-Safe f w)

abbrev pub Got : {A : Type 0} → Option A → World → A → World → Type 0
Got o w a u = (o ≡ some a) × (u.db ≡ w.db)

pub or_fail-Safe :
    {A : Type 0} (o : Option A) (e : ResolveError) (w : World)
    → is_panic e ≡ false
    → Ends (Safe (Got o w)) (or_fail o e) w
or_fail-Safe none e w h = h
or_fail-Safe (some a) e w h = (refl, refl)

pub present-Safe :
    {A : Type 0} (o : Option A) (e : ResolveError) (w : World) (a : A)
    → o ≡ some a
    → Ends (Safe (Got o w)) (or_fail o e) w
present-Safe none e w a h = absurd (cc h)
present-Safe (some b) e w a h = (refl, refl)

-- What holds at the end of a transaction's statements: of their database, or of the one before.
abbrev pub Within : (Bool → Db → Type 0) → World → Bool → World → Type 0
Within H v true u = H true u.db
Within H v false u = H false v.db

module _ (H : Bool → Db → Type 0) (v : World) where
  abbrev AtEnd : Bool → World → Type 0
  AtEnd b w = H b w.db

  inside :
      (r : Result ResolveError Bool) (u : World) → Safe (Within H v) r u → Inside (Safe AtEnd) v r u
  inside (ok true) u h = λ w e. subst (H true) (sym e) h
  inside (ok false) u h = λ w e. subst (H false) (sym e) h
  inside (err e) u h = λ w k. h

  pub transaction_if-Safe :
      (m : Exec ResolveError Bool)
      → ((u : World) → u.db ≡ v.db → Ends (Safe (Within H v)) m u)
      → Ends (Safe (λ b w. H b w.db)) (transaction_if m) v
  transaction_if-Safe m body =
      Ends-transaction_if (Safe AtEnd) v (λ w e. refl) m (λ u e. inside (m u).0 (m u).1 (body u e))
