-- ===== src/Dispatcher/ScopeClaim.antt =====
-- `claim_for_scope` of src/dispatcher/repo.rs against `KillSwitch::matches`: the drain of a switch
-- takes the messages that the switch held.
use messgr.Base.{
  ℕ, String, ◌≡◌, refl, Bool, true, false, ◌&&◌, Option, none, some, arith, ◌==◌, beq_eq, is_some,
  nat_eq, string_eq, option_eq, list_eq,
}
use messgr.Store.Tables.{OutboxRow}
use messgr.KillSwitch.Model.{KillSwitch, matches, producer_id, producer_channel_parts, is_pair}
use messgr.Dispatcher.Claim.{
  any_row, target, ScopeFilter, scope_filter, in_scope, holds, pin, for_producer,
  for_producer_channel, for_channel, for_campaign,
}

-- What the switch's part of the query takes of the rows that the caller's pin lets through.
abbrev pub covers : Option ScopeFilter → OutboxRow → Bool
covers none row = false
covers (some f) row = in_scope f row

module _ (row : OutboxRow) (channel : Option String)
    (pinned : holds channel row.channel ≡ true) where
  -- A pinned channel is the row's own, so that the pin's test is the row's test.
  same_channel :
      (switch_channel : String) (c : Option String)
      → holds c row.channel ≡ true
      → (f : ScopeFilter) → f.channel_is ≡ none
      → covers (pin c switch_channel f) row ≡ ((switch_channel == row.channel) && in_scope f row)
  unfolding in_scope
  same_channel switch_channel none h f e = ground (arith, e)
  same_channel switch_channel (some p) h f e =
      let own : p ≡ row.channel = beq_eq p row.channel h in rw own (ground (arith, e))

  covers-for_channel :
      (key : Option String) → covers (for_channel key channel) row ≡ (key == some row.channel)
  covers-for_channel none = refl
  covers-for_channel (some switch_channel) =
      unfold in_scope in ground (arith, same_channel switch_channel channel pinned any_row refl)

  covers-for_producer :
      (id : Option ℕ) → covers (for_producer id) row ≡ (id == some row.producer_id)
  unfolding in_scope
  covers-for_producer none = refl
  covers-for_producer (some id) = ground arith

  covers-for_producer_channel :
      (parts : Option (ℕ × String))
      → covers (for_producer_channel parts channel) row ≡ is_pair parts row.producer_id row.channel
  covers-for_producer_channel none = refl
  covers-for_producer_channel (some (id, switch_channel)) =
      unfold in_scope in
      ground (
        arith,
        same_channel switch_channel channel pinned (record any_row { producer_is = some id }) refl,
      )

  covers-for_campaign :
      (key : Option String)
      → covers (for_campaign key) row ≡ (is_some row.campaign_id && (key == row.campaign_id))
  unfolding in_scope
  covers-for_campaign none = ground arith
  covers-for_campaign (some id) = ground arith

covers_any : (row : OutboxRow) → in_scope any_row row ≡ true
unfolding in_scope
covers_any row = refl

-- For every switch, channel pin and row that the pin lets through: the drain's query takes the
-- row exactly when the switch matches it, malformed keys and unknown scopes included.
pub scope_filter-matches :
    (parse_uuid : String → Option ℕ) (s : KillSwitch) (channel : Option String) (row : OutboxRow)
    → holds channel row.channel ≡ true
    → covers (scope_filter parse_uuid s channel) row ≡ matches parse_uuid s (target row)
unfolding scope_filter matches
scope_filter-matches parse_uuid s channel row pinned = ground (
  arith,
  covers-for_channel row channel pinned s.scope_key,
  covers-for_producer row channel pinned (producer_id parse_uuid s),
  covers-for_producer_channel row channel pinned (producer_channel_parts parse_uuid s),
  covers-for_campaign row channel pinned s.scope_key,
  covers_any row,
)
