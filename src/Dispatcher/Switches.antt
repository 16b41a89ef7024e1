-- ===== src/Dispatcher/Switches.antt =====
-- How the dispatcher reacts to a refresh of its kill switches: `DispatcherContext::claim_exclusion`
-- of src/dispatcher/worker.rs, the `on_delta` callback of src/bin/dispatcher.rs, and the end of
-- `run_release_drain` in src/dispatcher/drain.rs.
use messgr.Base.{
  ℕ, String, Bool, not, Option, List, ◌++◌, ◌==◌, keep, nat_eq, string_eq, option_eq, list_eq,
}
use messgr.KillSwitch.Scope
use messgr.KillSwitch.Model.{KillSwitch}
use messgr.KillSwitch.Cache.{
  ActiveSet, RefreshDelta, ChannelExclusion, collect, exclusion_for_channel, active_snapshot,
}

-- The engaged switches and those whose backlog is still draining.
unfoldable pub claim_exclusion :
    (String → Option ℕ) → ActiveSet → List KillSwitch → String → ChannelExclusion
claim_exclusion parse_uuid active draining channel =
    exclusion_for_channel parse_uuid (active_snapshot active ++ draining) channel

abbrev pub is_hold : KillSwitch → Bool
is_hold s = s.on_queued == Scope.hold

abbrev pub is_discard : KillSwitch → Bool
is_discard s = s.on_queued == Scope.discard

-- The released switches that enter `draining`, where their drain tasks start, and the engaged
-- ones for which a discard task starts.
unfoldable pub on_delta : List KillSwitch → RefreshDelta → List KillSwitch × List KillSwitch
on_delta draining delta =
    (collect draining (keep is_hold delta.released), keep is_discard delta.newly_engaged)

-- `draining.write().remove(&kill_switch.id)`, once every channel's drain has ended.
unfoldable pub finish_drain : List KillSwitch → KillSwitch → List KillSwitch
finish_drain draining s = keep (λ d. not (d.id == s.id)) draining
