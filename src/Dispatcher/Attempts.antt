-- ===== src/Dispatcher/Attempts.antt =====
-- src/dispatcher/drain.rs write_expired and write_discarded: what their bounded attempts leave.
use messgr.Base.{ℕ, zero, suc, ◌≤◌, ◌≡◌, ap, ◌∙◌, true, false, none, arith}
use messgr.Store.Tables.{OutboxRow}
use messgr.Store.Exec.{World, Result}
use messgr.Store.Steps.{Steady, Steady-refl, Steady-trans}
use messgr.Dispatcher.Queries.{DispatchError, Terminal}
use messgr.Dispatcher.Atomic.{concluded, Recorded, rolled_back, written, write_terminal-Recorded}
use messgr.Dispatcher.Worker.{terminal}
use messgr.Dispatcher.Drain.{is_ok, write_attempts, write_expired, write_discarded}

-- The outcome is recorded in full, or nothing changed but the clock. No message leaves.
pub data Settled (t : Terminal) (v : World) : World → Type 0 where
  given_up : {w : World} → Steady v w → Settled t v w
  recorded :
      {w : World} (now : ℕ)
      → v.clock ≤ now
      → w.db ≡ concluded t now v.db
      → w.sent ≡ v.sent
      → w.quota ≡ v.quota
      → Settled t v w

once :
    (t : Terminal) (attempts : ℕ) (v w : World)
    → Steady v w
    → {r : Result DispatchError (Unit {0})} {u : World} → Recorded t w r u
    → ((x : World) → Steady v x → Settled t v (write_attempts attempts t x))
    → Settled t v (elim (is_ok r) [ true ↦ u | false ↦ write_attempts attempts t u ])
once t attempts v w k (rolled_back e) next = next _ (Steady-trans k e)
once t attempts v w k (written now later by db sent quota) next =
    recorded now (let before = k.later in omega arith) (db ∙ ap (concluded t now) k.db)
      (sent ∙ k.sent) (quota ∙ k.quota)

pub write_attempts-Settled :
    (attempts : ℕ) (t : Terminal) (v w : World)
    → Steady v w
    → Settled t v (write_attempts attempts t w)
unfolding write_attempts
write_attempts-Settled zero t v w k = given_up k
write_attempts-Settled (suc attempts) t v w k =
    once t attempts v w k (write_terminal-Recorded t w)
      (λ x kx. write_attempts-Settled attempts t v x kx)

-- Writing the `discarded` or the `expired` outcome of a row, in up to five attempts, records all of it
-- or leaves the database as it was, and sends no message.
pub write_outcome-Settled :
    (row : OutboxRow) (v : World)
    → Settled (terminal row "discarded" none none) v (write_discarded row v)
      × Settled (terminal row "expired" none none) v (write_expired row v)
unfolding write_discarded write_expired
write_outcome-Settled row v =
    (write_attempts-Settled 5 _ v v (Steady-refl v), write_attempts-Settled 5 _ v v (Steady-refl v))
