-- ===== src/Customers/Undo.antt =====
-- How the transactions of src/customer/resolve.rs end, which are rolled back if they insert nothing.
use messgr.Base.{◌≡◌, refl, Bool, true, false}
use messgr.Store.Exec.{World, Result, ok, err, Exec, pure, ◌>>=◌, continue, execute}
use messgr.Store.Steps.{Ends, Ends-execute}
use messgr.Customers.Deks.{ResolveError, database}
use messgr.Customers.Resolve.{transaction_if, undo_unless}

module _ (P : Result ResolveError Bool → World → Type 0) (v : World) where
  -- What the statements have to give for the end of the transaction.
  abbrev pub Inside : Result ResolveError Bool → World → Type 0
  Inside (ok true) u = (w : World) → w.db ≡ u.db → P (ok true) w
  Inside (ok false) u = (w : World) → w.db ≡ v.db → P (ok false) w
  Inside (err e) u = (w : World) → w.db ≡ v.db → P (err e) w

  abbrev Undone : Result ResolveError Bool → World → Type 0
  Undone r w = P (undo_unless v (r, w)).0 (undo_unless v (r, w)).1

  abbrev finish : Bool → Exec ResolveError Bool
  finish inserted = execute database (λ db. db) >>= λ (done : Unit {0}). pure inserted

  module _ (aborted : (w : World) → w.db ≡ v.db → P (err database) w) where
    commit :
        (r : Result ResolveError Bool) (u : World)
        → Inside r u
        → Ends Undone (λ (w : World). continue r finish w) u
    commit (err e) u h = h _ refl
    commit (ok true) u h =
        Ends-execute Undone database (λ db. db) (pure true) u (λ w k. aborted _ refl)
          (λ w k. h w k.db)
    commit (ok false) u h =
        Ends-execute Undone database (λ db. db) (pure false) u (λ w k. aborted _ refl)
          (λ w k. h _ refl)

    pub Ends-transaction_if :
        (m : Exec ResolveError Bool)
        → ((u : World) → u.db ≡ v.db → Ends Inside m u)
        → Ends P (transaction_if m) v
    unfolding transaction_if
    Ends-transaction_if m body =
        Ends-execute Undone database (λ db. db) (m >>= finish) v (λ w k. aborted _ refl)
          (λ u k. commit (m u).0 (m u).1 (body u k.db))
