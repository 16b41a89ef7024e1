-- ===== src/Store/Laws.antt =====
-- Laws of the effects of Exec.antt: what a statement, a clock reading and a transaction change.
use messgr.Base.{◌≤◌, ◌≡◌, refl, ◌∙◌, arith}
use messgr.Store.Tables.{Db}
use messgr.Store.Exec.{World, ok, err, sql}

module _ {E A : Type 0} (e : E) where
  pub sql-ok :
      (f : Db → A × Db) (w : World) {a : A}
      → (sql e f w).0 ≡ ok a
      → (a ≡ (f w.db).0) × ((sql e f w).1.db ≡ (f w.db).1)
  unfolding sql
  sql-ok f w h = ground arith

  pub sql-err :
      (f : Db → A × Db) (w : World) {d : E}
      → (sql e f w).0 ≡ err d
      → (d ≡ e) × ((sql e f w).1.db ≡ w.db)
  unfolding sql
  sql-err f w h = ground arith

-- What neither a statement nor a clock reading touches, and that time does not go back.
pub record Quiet (v w : World) : Type 0 where
  pub sent : w.sent ≡ v.sent
  pub quota : w.quota ≡ v.quota
  pub later : v.clock ≤ w.clock

pub Quiet-refl : (w : World) → Quiet w w
Quiet-refl w = record { sent = refl; quota = refl; later = omega arith }

pub Quiet-trans : {u v w : World} → Quiet u v → Quiet v w → Quiet u w
Quiet-trans h k = record { sent = k.sent ∙ h.sent; quota = k.quota ∙ h.quota; later = omega arith }

pub sql-Quiet : {E A : Type 0} (e : E) (f : Db → A × Db) (w : World) → Quiet w (sql e f w).1
unfolding sql
sql-Quiet e f w = ground arith
