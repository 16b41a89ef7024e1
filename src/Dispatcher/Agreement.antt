-- ===== src/Dispatcher/Agreement.antt =====
-- The check of the ingest service, `blocking_scope` of src/kill_switch/cache.rs, against the claims of
-- the dispatcher, `claim_exclusion` of src/dispatcher/worker.rs.
use messgr.Base.{ℕ, String, ◌≡◌, ◌&&◌, not, Option, List, ◌++◌, arith, is_none, any, any-append}
use messgr.KillSwitch.Model.{KillSwitch, Target, matches}
use messgr.KillSwitch.Cache.{ActiveSet, blocking_scope, active_snapshot}
use messgr.KillSwitch.Exclusion.{admits, admits-exclusion_for_channel}
use messgr.KillSwitch.Refresh.{PlatformHeld, blocking_scope-eq-admits}
use messgr.Dispatcher.Switches.{claim_exclusion}

module _ (parse_uuid : String → Option ℕ) (t : Target) where
  -- With a cache that keeps the platform invariant, the dispatcher's claims let a message through
  -- exactly where the ingest check does and no switch whose backlog is draining matches it.
  pub claim_exclusion-blocking_scope :
      (a : ActiveSet) (draining : List KillSwitch)
      → PlatformHeld a
      → admits (claim_exclusion parse_uuid a draining t.channel) t ≡ (
          is_none (blocking_scope parse_uuid a t)
          && not (any (λ s. matches parse_uuid s t) draining))
  unfolding claim_exclusion
  claim_exclusion-blocking_scope a draining h = ground (
    arith,
    blocking_scope-eq-admits parse_uuid t a h,
    admits-exclusion_for_channel parse_uuid t (active_snapshot a),
    admits-exclusion_for_channel parse_uuid t (active_snapshot a ++ draining),
    any-append (λ s. matches parse_uuid s t) (active_snapshot a) draining,
  )
