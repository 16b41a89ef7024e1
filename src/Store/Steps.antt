-- ===== src/Store/Steps.antt =====
-- Proof steps for the effects of Exec.antt: to show a predicate of how an action ends, go through
-- its first statement, clock reading or test, and show it of the rest.
use messgr.Base.{ℕ, ◌≤◌, ◌≡◌, refl, ◌∙◌, Bool, true, false, List, arith, if◌then◌else◌}
use messgr.Store.Tables.{Db}
use messgr.Store.Laws.{Quiet}
use messgr.Store.Exec.{
  pure, restore, transaction, ◌>>◌, continue, execute, World, Result, ok, err, Exec, ◌>>=◌, utc_now,
  query, sql,
}

-- What a reading, a failing statement or a query leaves as it is; time does not go back.
pub record Steady (v w : World) : Type 0 where
  pub db : w.db ≡ v.db
  pub sent : w.sent ≡ v.sent
  pub quota : w.quota ≡ v.quota
  pub later : v.clock ≤ w.clock

pub Steady-refl : (w : World) → Steady w w
Steady-refl w = record { db = refl; sent = refl; quota = refl; later = omega arith }

pub Steady-trans : {u v w : World} → Steady u v → Steady v w → Steady u w
Steady-trans h k = record {
  db = k.db ∙ h.db;
  sent = k.sent ∙ h.sent;
  quota = k.quota ∙ h.quota;
  later = omega arith;
}

-- `P` holds of how `m` ends from `w`.
abbrev pub Ends : {E A : Type 0} → (Result E A → World → Type 0) → Exec E A → World → Type 0
Ends P m w = P (m w).0 (m w).1

module _ {E B : Type 0} (P : Result E B → World → Type 0) where
  pub Ends-if :
      (b : Bool) (x y : Exec E B) (w : World)
      → (b ≡ true → Ends P x w)
      → (b ≡ false → Ends P y w)
      → Ends P (if b then x else y) w
  Ends-if true x y w hit miss = hit refl
  Ends-if false x y w hit miss = miss refl

  pub Ends-now :
      (k : ℕ → Exec E B) (w : World)
      → ((w' : World) → Steady w w' → Ends P (k w'.clock) w')
      → Ends P (utc_now >>= k) w
  unfolding utc_now
  Ends-now k w next =
      next (utc_now {E = E} w).1
        (record { db = refl; sent = refl; quota = refl; later = omega arith })

module _ {E A B : Type 0} (P : Result E B → World → Type 0) (e : E) (k : A → Exec E B) where
  after_fault :
      (f : Db → A) (w : World) (fault : Bool) (rest : List Bool)
      → ((w' : World) → Steady w w' → P (err e) w')
      → ((w' : World) → Steady w w' → Ends P (k (f w.db)) w')
      → Ends P
          ((λ (_ : World).
              if fault
              then (err e, record w { faults = rest })
              else (ok (f w.db), record w { faults = rest }))
            >>= k)
          w
  after_fault f w true rest on_err on_ok =
      on_err (record w { faults = rest })
        (record { db = refl; sent = refl; quota = refl; later = omega arith })
  after_fault f w false rest on_err on_ok =
      on_ok (record w { faults = rest })
        (record { db = refl; sent = refl; quota = refl; later = omega arith })

  pub Ends-query :
      (f : Db → A) (w : World)
      → ((w' : World) → Steady w w' → P (err e) w')
      → ((w' : World) → Steady w w' → Ends P (k (f w.db)) w')
      → Ends P (query e f >>= k) w
  unfolding query sql
  Ends-query f w on_err on_ok = after_fault f w _ _ on_err on_ok

-- What a statement that runs does: it changes the database by `f`.
pub record Changed (f : Db → Db) (v w : World) : Type 0 where
  pub db : w.db ≡ f v.db
  pub sent : w.sent ≡ v.sent
  pub quota : w.quota ≡ v.quota
  pub later : v.clock ≤ w.clock

module _ {E B : Type 0} (P : Result E B → World → Type 0) (e : E) where
  pub Ends-bind :
      {A : Type 0} (m : Exec E A) (k : A → Exec E B) (w : World)
      → Ends (λ r w'. Ends P (continue r k) w') m w
      → Ends P (m >>= k) w
  Ends-bind m k w h = h

  after_execute :
      (f : Db → Db) (k : Exec E B) (w : World) (fault : Bool) (rest : List Bool)
      → ((w' : World) → Steady w w' → P (err e) w')
      → ((w' : World) → Changed f w w' → Ends P k w')
      → Ends P
          ((λ (_ : World).
              if fault
              then (err e, record w { faults = rest })
              else (ok tt, record w { db = f w.db; faults = rest }))
            >> k)
          w
  after_execute f k w true rest on_err on_ok =
      on_err (record w { faults = rest })
        (record { db = refl; sent = refl; quota = refl; later = omega arith })
  after_execute f k w false rest on_err on_ok =
      on_ok (record w { db = f w.db; faults = rest })
        (record { db = refl; sent = refl; quota = refl; later = omega arith })

  pub Ends-execute :
      (f : Db → Db) (k : Exec E B) (w : World)
      → ((w' : World) → Steady w w' → P (err e) w')
      → ((w' : World) → Changed f w w' → Ends P k w')
      → Ends P (execute e f >> k) w
  unfolding execute sql
  Ends-execute f k w on_err on_ok = after_execute f k w _ _ on_err on_ok

module _ {E : Type 0} (P : Result E (Unit {0}) → World → Type 0) (e : E) where
  last_execute :
      (f : Db → Db) (w : World) (fault : Bool) (rest : List Bool)
      → ((w' : World) → Steady w w' → P (err e) w')
      → ((w' : World) → Changed f w w' → P (ok tt) w')
      → Ends P
          (λ (_ : World).
            if fault
            then (err e, record w { faults = rest })
            else (ok tt, record w { db = f w.db; faults = rest }))
          w
  last_execute f w true rest on_err on_ok =
      on_err (record w { faults = rest })
        (record { db = refl; sent = refl; quota = refl; later = omega arith })
  last_execute f w false rest on_err on_ok =
      on_ok (record w { db = f w.db; faults = rest })
        (record { db = refl; sent = refl; quota = refl; later = omega arith })

  pub Ends-last :
      (f : Db → Db) (w : World)
      → ((w' : World) → Steady w w' → P (err e) w')
      → ((w' : World) → Changed f w w' → P (ok tt) w')
      → Ends P (execute e f) w
  unfolding execute sql
  Ends-last f w on_err on_ok = last_execute f w _ _ on_err on_ok

pub Steady-Quiet : {u v w : World} → Quiet u v → Steady v w → Quiet u w
Steady-Quiet h k = record { sent = k.sent ∙ h.sent; quota = k.quota ∙ h.quota; later = omega arith }

pub Changed-Quiet : {f : Db → Db} {u v w : World} → Quiet u v → Changed f v w → Quiet u w
Changed-Quiet h k = record {
  sent = k.sent ∙ h.sent;
  quota = k.quota ∙ h.quota;
  later = omega arith;
}

-- How the statements of a transaction that began at `v` may end, so that `P` holds after it.
pub data Body {E A : Type 0} (P : Result E A → World → Type 0) (v : World)
    : Result E A → World → Type 0 where
  failed :
      {d : E} {u : World}
      → Quiet v u
      → ((w : World) → Steady v w → P (err d) w)
      → Body P v (err d) u
  finished :
      {a : A} {u : World} → Quiet v u → ((w : World) → Steady u w → P (ok a) w) → Body P v (ok a) u

module _ {E A : Type 0} (P : Result E A → World → Type 0) (e : E) (v : World)
    (rollback : (w : World) → Steady v w → P (err e) w) where
  restored : {u w : World} → Quiet v u → Steady u w → Steady v (record w { db = v.db })
  restored h k = record {
    db = refl;
    sent = k.sent ∙ h.sent;
    quota = k.quota ∙ h.quota;
    later = omega arith;
  }

  AfterRestore : Result E A → World → Type 0
  AfterRestore r u = P (restore v (r, u)).0 (restore v (r, u)).1

  commit :
      (r : Result E A) (u : World)
      → Body P v r u
      → Ends AfterRestore (λ (w : World). continue r (λ a. execute e (λ db. db) >> pure a) w) u
  unfolding AfterRestore
  commit (err d) u (failed h undo) = undo _ (restored h (Steady-refl u))
  commit (ok a) u (finished h next) =
      Ends-execute AfterRestore e (λ db. db) (pure a) u (λ w k. rollback _ (restored h k))
        (λ w k. next w (record { db = k.db; sent = k.sent; quota = k.quota; later = k.later }))

  pub Ends-transaction :
      (m : Exec E A) → ((u : World) → Steady v u → Ends (Body P v) m u) → Ends P (transaction e m) v
  unfolding transaction AfterRestore
  Ends-transaction m body =
      Ends-execute AfterRestore e (λ db. db) (m >>= λ a. execute e (λ db. db) >> pure a) v
        (λ w k. rollback _ (record { db = refl; sent = k.sent; quota = k.quota; later = k.later }))
        (λ w k.
          commit _ _
            (body w (record { db = k.db; sent = k.sent; quota = k.quota; later = k.later })))

module _ {E A B : Type 0} (P : Result E B → World → Type 0) (e : E) (k : A → Exec E B) where
  after_sql :
      (f : Db → A × Db) (w : World) (fault : Bool) (rest : List Bool)
      → ((w' : World) → Steady w w' → P (err e) w')
      → ((w' : World) → Changed (λ db. (f db).1) w w' → Ends P (k (f w.db).0) w')
      → Ends P
          ((λ (_ : World).
              if fault
              then (err e, record w { faults = rest })
              else (ok (f w.db).0, record w { db = (f w.db).1; faults = rest }))
            >>= k)
          w
  after_sql f w true rest on_err on_ok =
      on_err (record w { faults = rest })
        (record { db = refl; sent = refl; quota = refl; later = omega arith })
  after_sql f w false rest on_err on_ok =
      on_ok (record w { db = (f w.db).1; faults = rest })
        (record { db = refl; sent = refl; quota = refl; later = omega arith })

  pub Ends-sql :
      (f : Db → A × Db) (w : World)
      → ((w' : World) → Steady w w' → P (err e) w')
      → ((w' : World) → Changed (λ db. (f db).1) w w' → Ends P (k (f w.db).0) w')
      → Ends P (sql e f >>= k) w
  unfolding sql
  Ends-sql f w on_err on_ok = after_sql f w _ _ on_err on_ok

-- Statements in sequence, however they are grouped.
module _ {E B : Type 0} (P : Result E B → World → Type 0) (c : Exec E (Unit {0}))
    (d : Exec E B) where
  regroup :
      (r : Result E (Unit {0})) (u : World)
      → Ends P (λ (w : World). continue r (λ _. c >> d) w) u
      → Ends P
          (λ (w : World). continue (continue r (λ _. c) w).0 (λ _. d) (continue r (λ _. c) w).1)
          u
  regroup (ok a) u h = h
  regroup (err e) u h = h

  pub Ends-regroup :
      (b : Exec E (Unit {0})) (w : World) → Ends P (b >> (c >> d)) w → Ends P ((b >> c) >> d) w
  Ends-regroup b w h = regroup (b w).0 (b w).1 h
