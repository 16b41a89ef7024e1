-- ===== src/Tests/Switches.antt =====
-- Tests of the kill switches.
use messgr.Base.{◌≡◌, refl, true, false, ◌&&◌, not, none, some, List, [], ◌∷◌, is_none, any}
use messgr.KillSwitch.Model.{
  KillSwitch, is_active, split_once, split_producer_channel, producer_channel_parts, matches,
}
use messgr.KillSwitch.Cache.{
  swap, exclusion_for_channel, refresh_with_platform, blocking_scope, get, collect,
}
use messgr.KillSwitch.Exclusion.{admits, admits-exclusion_for_channel}
use messgr.KillSwitch.Refresh.{PlatformHeld, refresh_with_platform-PlatformHeld, platform_ids_after}
use messgr.Dispatcher.Claim.{scope_filter, target, in_scope}
use messgr.Dispatcher.ScopeClaim.{covers, scope_filter-matches}
use messgr.Dispatcher.Agreement.{claim_exclusion-blocking_scope}
use messgr.Dispatcher.Switches.{claim_exclusion, on_delta}
use messgr.Dispatcher.Handover.{refresh_handover}
use messgr.KillSwitch.Scope
use messgr.Store.Exec.{ok, err, query, sql}
use messgr.Store.Steps.{Ends}
use messgr.KillSwitch.Radius.{
  blast_radius, Radius, blast_radius-Radius, radius_filter, count_by_class, add_class, in_radius,
}
use messgr.KillSwitch.Configure.{Engage, Faults, Panel, engage, already_engaged, audited}
use messgr.KillSwitch.Engaged.{
  Command, engaging, releasing, configure_all, Configured, configure_all-Configured,
}
use messgr.Tests.Samples.{
  parse_uuid, sms_switch, producer_switch, platform_switch, one_switch, sms_target, queued_row,
  one_queued, world_with,
}

producer_channel_matches : matches parse_uuid producer_switch sms_target ≡ true
unfolding matches producer_channel_parts split_producer_channel split_once
producer_channel_matches = refl

admits-exclusion_for_channel_example :
    admits (exclusion_for_channel parse_uuid (sms_switch ∷ producer_switch ∷ []) "sms") sms_target
    ≡ not (any (λ s. matches parse_uuid s sms_target) (sms_switch ∷ producer_switch ∷ []))
admits-exclusion_for_channel_example =
    admits-exclusion_for_channel parse_uuid sms_target (sms_switch ∷ producer_switch ∷ [])

one_switch-PlatformHeld : PlatformHeld one_switch
one_switch-PlatformHeld = tt

refresh_with_platform-PlatformHeld_example :
    let after =
      (refresh_with_platform
        (some (sms_switch ∷ []))
        (some (some (platform_switch ∷ []), 1))
        one_switch).0 in
    PlatformHeld after
    × (some (sms_switch ∷ []) ≡ none → after ≡ one_switch)
    × ((rows : List KillSwitch)
        → some (sms_switch ∷ []) ≡ some rows
        → after.platform_ids
          ≡ platform_ids_after (some (some (platform_switch ∷ []), 1)) one_switch)
refresh_with_platform-PlatformHeld_example =
    refresh_with_platform-PlatformHeld (some (sms_switch ∷ []))
      (some (some (platform_switch ∷ []), 1)) one_switch one_switch-PlatformHeld

claim_exclusion-blocking_scope_example :
    admits (claim_exclusion parse_uuid one_switch (producer_switch ∷ []) "sms") sms_target ≡ (
      is_none (blocking_scope parse_uuid one_switch sms_target)
      && not (any (λ s. matches parse_uuid s sms_target) (producer_switch ∷ [])))
claim_exclusion-blocking_scope_example =
    claim_exclusion-blocking_scope parse_uuid sms_target one_switch (producer_switch ∷ [])
      one_switch-PlatformHeld

scope_filter-matches_example :
    covers (scope_filter parse_uuid producer_switch (some "sms")) queued_row
    ≡ matches parse_uuid producer_switch (target queued_row)
scope_filter-matches_example =
    scope_filter-matches parse_uuid producer_switch (some "sms") queued_row refl

refresh_handover_example :
    admits
      (claim_exclusion parse_uuid
        (refresh_with_platform (some []) none one_switch).0
        (on_delta [] (record { newly_engaged = []; released = sms_switch ∷ [] })).0
        "sms")
      sms_target
    ≡ false
unfolding refresh_with_platform swap matches get collect
refresh_handover_example =
    refresh_handover parse_uuid [] (some []) none one_switch
      (record { newly_engaged = []; released = sms_switch ∷ [] }) 1 sms_switch sms_target (refl, tt)
      refl refl refl refl refl

counts_queued :
    (blast_radius parse_uuid Scope.channel (some "sms") (world_with one_queued)).0
    ≡ ok ((queued_row.class, 1) ∷ [])
unfolding blast_radius radius_filter query sql count_by_class add_class in_radius in_scope
counts_queued = refl

unknown_scope : (blast_radius parse_uuid "region" (some "sms") (world_with one_queued)).0 ≡ ok []
unfolding blast_radius radius_filter
unknown_scope = refl

blast_radius-Radius_example :
    Ends
      (Radius parse_uuid producer_switch (world_with one_queued))
      (blast_radius parse_uuid producer_switch.scope producer_switch.scope_key)
      (world_with one_queued)
blast_radius-Radius_example = blast_radius-Radius parse_uuid producer_switch (world_with one_queued)

abbrev hold_sms : Engage
hold_sms = record {
  scope_value = Scope.channel;
  scope_key = some "sms";
  on_queued_value = Scope.hold;
  reason = "outage";
  actor = "operator";
}

abbrev no_faults : Faults
no_faults = record { statement = false; audit = false }

abbrev empty_panel : Panel
empty_panel = record { kill_switches = []; platform_audit = [] }

engages_once :
    (engage 1 hold_sms 5 1100 no_faults (engage 1 hold_sms 4 1000 no_faults empty_panel).1).0
    ≡ err already_engaged
unfolding engage audited is_active
engages_once = refl

abbrev commands : List Command
commands =
    engaging hold_sms 4 1000 no_faults
    ∷ releasing 4 "operator" 1050 no_faults
    ∷ engaging hold_sms 5 1100 no_faults
    ∷ []

configure_all-Configured_example : Configured (configure_all 1 commands empty_panel).kill_switches
configure_all-Configured_example = configure_all-Configured 1 commands empty_panel tt
