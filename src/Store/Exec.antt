-- ===== src/Store/Exec.antt =====
-- What an async function of the program does: it reads the clock, sends SQL statements, each of
-- which may fail, and calls the provider. State that was written before an error stays written,
-- but for what stands in a transaction.
use messgr.Base.{ℕ, ◌+◌, Bool, false, List, [], ◌∷◌, if◌then◌else◌}
use messgr.Store.Tables.{Db}
use messgr.Quota.Tracker.{QuotaTracker}

-- A message handed to the provider, `Sender::send`'s arguments.
pub record Message : Type 0 where
  pub destination : List ℕ
  pub body : List ℕ

-- `faults` tells of each coming statement whether it fails, `elapses` how far the clock goes
-- before each coming reading. `calls` counts calls of random generators and of the provider.
pub record World : Type 0 where
  pub db : Db
  pub quota : QuotaTracker
  pub sent : List Message
  pub clock : ℕ
  pub faults : List Bool
  pub elapses : List ℕ
  pub calls : ℕ

pub data Result {ℓ} (E A : Type ℓ) : Type ℓ where
  ok : A → Result E A
  err : E → Result E A

abbrev pub Exec : Type 0 → Type 0 → Type 0
Exec E A = World → Result E A × World

module _ {E A : Type 0} where
  abbrev pub pure : A → Exec E A
  pure a w = (ok a, w)

  abbrev pub raise : E → Exec E A
  raise e w = (err e, w)

module _ {E A B : Type 0} where
  abbrev pub continue : Result E A → (A → Exec E B) → Exec E B
  continue (ok a) f w = f a w
  continue (err e) f w = (err e, w)

infixl 5 ◌>>=◌ ◌>>◌
abbrev pub ◌>>=◌ : {E A B : Type 0} → Exec E A → (A → Exec E B) → Exec E B
◌>>=◌ m f w = let (r, w') = m w in continue r f w'

abbrev pub ◌>>◌ : {E B : Type 0} → Exec E (Unit {0}) → Exec E B → Exec E B
m >> k = m >>= λ _. k

abbrev next_fault : List Bool → Bool × List Bool
next_fault [] = (false, [])
next_fault (fault ∷ rest) = (fault, rest)

abbrev next_elapse : List ℕ → ℕ × List ℕ
next_elapse [] = (0, [])
next_elapse (ms ∷ rest) = (ms, rest)

-- `Utc::now()`, and SQL's `now()`.
unfoldable pub utc_now : {E : Type 0} → Exec E ℕ
utc_now w =
    let (ms, rest) = next_elapse w.elapses in
    (ok (w.clock + ms), record w { clock = w.clock + ms; elapses = rest })

-- One SQL statement: it fails with the error `e` and changes nothing, or runs.
unfoldable pub sql : {E A : Type 0} → E → (Db → A × Db) → Exec E A
sql e f w =
    let (fault, rest) = next_fault w.faults in
    if fault
    then (err e, record w { faults = rest })
    else (let (a, db) = f w.db in (ok a, record w { db = db; faults = rest }))

unfoldable pub query : {E A : Type 0} → E → (Db → A) → Exec E A
unfolding sql
query e f = sql e (λ db. (f db, db))

unfoldable pub execute : {E : Type 0} → E → (Db → Db) → Exec E (Unit {0})
unfolding sql
execute e f = sql e (λ db. (tt, f db))

abbrev pub restore : {E A : Type 0} → World → Result E A × World → Result E A × World
restore w (ok a, w') = (ok a, w')
restore w (err e, w') = (err e, record w' { db = w.db })

-- `pool.begin()`, the statements of `m`, `tx.commit()`; an error rolls the transaction back.
unfoldable pub transaction : {E A : Type 0} → E → Exec E A → Exec E A
unfolding execute
transaction e m w = restore w ((do execute e (λ db. db); a ← m; execute e (λ db. db); pure a) w)

-- The number of this call of a crate or the provider.
unfoldable pub next_call : {E : Type 0} → Exec E ℕ
next_call w = (ok w.calls, record w { calls = w.calls + 1 })
