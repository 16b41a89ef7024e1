-- ===== src/Tests/Claims.antt =====
-- Tests of the claims of the queue.
use messgr.Base.{ℕ, ◌≤◌, ◌≡◌, refl, ◌⊎◌, true, false, some, List, [], ◌∷◌, All}
use messgr.Store.Exec.{ok, sql, utc_now}
use messgr.KillSwitch.Cache.{no_exclusion, exclusion_for_channel}
use messgr.Dispatcher.Rows.{Unique}
use messgr.Dispatcher.Claim.{lease_now, claim, claimable, lease}
use messgr.Dispatcher.Leases.{Leased, Eligible, is_held, claim-Leases, claim-not-held}
use messgr.KillSwitch.Model.{KillSwitch}
use messgr.KillSwitch.Scope
use messgr.Dispatcher.Claim.{candidates}
use messgr.Tests.Samples.{switch_on, parse_uuid, queued_row, one_queued, world_with}
use messgr.KillSwitch.Model.{KillSwitch}

one_queued-Unique : Unique one_queued.outbox
one_queued-Unique = (refl, tt)

claims_one :
    (claim "sms" 20 5000 no_exclusion (λ id. false) (world_with one_queued)).0
    ≡ ok (lease 5000 queued_row ∷ [])
unfolding claim lease_now sql utc_now claimable candidates
claims_one = refl

claim-Leases_example :
    let after = (claim "sms" 20 5000 no_exclusion (λ id. false) (world_with one_queued)).1 in
    ((false ≡ true) × ((lease 5000 queued_row ∷ []) ≡ []) × (after.db.outbox ≡ queued_row ∷ []))
    ⊎ ((false ≡ false)
        × (now : ℕ) × (1000 ≤ now)
        × (now ≤ after.clock)
        × Leased
            (Eligible "sms" no_exclusion (λ id. false) now)
            5000
            (queued_row ∷ [])
            after.db.outbox
            (lease 5000 queued_row ∷ [])
        × (1 ≤ 20))
claim-Leases_example =
    claim-Leases "sms" 20 5000 no_exclusion (λ id. false) (world_with one_queued)
      (lease 5000 queued_row ∷ []) one_queued-Unique claims_one

abbrev email_switches : List KillSwitch
email_switches = switch_on 4 Scope.channel (some "email") ∷ []

claims_under_switch :
    (claim "sms" 20 5000
      (exclusion_for_channel parse_uuid email_switches "sms")
      (λ id. false)
      (world_with one_queued)).0
    ≡ ok (lease 5000 queued_row ∷ [])
unfolding claim lease_now sql utc_now claimable candidates exclusion_for_channel
claims_under_switch = refl

claim-not-held_example :
    let out =
      claim "sms" 20 5000
        (exclusion_for_channel parse_uuid email_switches "sms")
        (λ id. false)
        (world_with one_queued) in
    Leased
      (λ row. is_held parse_uuid email_switches row ≡ false)
      5000
      (queued_row ∷ [])
      out.1.db.outbox
      (lease 5000 queued_row ∷ [])
    × All (λ row. is_held parse_uuid email_switches row ≡ false) (lease 5000 queued_row ∷ [])
claim-not-held_example =
    claim-not-held parse_uuid email_switches "sms" 20 5000 (λ id. false) (world_with one_queued)
      (lease 5000 queued_row ∷ []) one_queued-Unique claims_under_switch
