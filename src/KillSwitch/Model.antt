-- ===== src/KillSwitch/Model.antt =====
-- src/kill_switch/model.rs and src/platform_kill_switch/model.rs: the rows of the tenant's own
-- kill switches and of the platform tier's, and which messages they cover. Uuids are numbers,
-- instants are milliseconds, and `Uuid::parse_str` is the parameter `parse_uuid`.
use Prim.Native.Char.{Char, code}
use messgr.Base.{
  ℕ, String, Bool, true, false, ◌&&◌, Option, none, some, if◌then◌else◌, ◌==◌, is_none, is_some,
  nat_eq, string_eq, option_eq,
}
use messgr.KillSwitch.Scope

pub record KillSwitch : Type 0 where
  pub id : ℕ
  pub scope : String
  pub scope_key : Option String
  pub on_queued : String
  pub engaged_by : String
  pub engaged_at : ℕ
  pub reason : String
  pub released_by : Option String
  pub released_at : Option ℕ

unfoldable pub is_active : KillSwitch → Bool
is_active s = is_none s.released_at

abbrev prepend : Char → Option (String × String) → Option (String × String)
prepend c none = none
prepend c (some (a, b)) = some (String.◌∷◌ c a, b)

-- `str::split_once`, at the first occurrence of a character.
unfoldable pub split_once : ℕ → String → Option (String × String)
split_once sep String.[] = none
split_once sep (String.◌∷◌ c s) =
    if code c == sep then some (String.[], s) else prepend c (split_once sep s)

-- A message's coordinates, as a kill switch sees them.
pub record Target : Type 0 where
  pub channel : String
  pub producer_id : ℕ
  pub campaign_id : Option String

abbrev pub is_pair : Option (ℕ × String) → ℕ → String → Bool
is_pair none id channel = false
is_pair (some (i, ch)) id channel = (i == id) && (ch == channel)

module _ (parse_uuid : String → Option ℕ) where
  abbrev with_producer : Option (String × String) → Option (ℕ × String)
  with_producer none = none
  with_producer (some (producer, channel)) = elim (parse_uuid producer) [
    | none ↦ none
    | some id ↦ some (id, channel)
  ]

  unfoldable pub split_producer_channel : String → Option (ℕ × String)
  split_producer_channel scope_key = with_producer (split_once b':' scope_key)

  unfoldable pub producer_id : KillSwitch → Option ℕ
  producer_id s = elim s.scope_key [ none ↦ none | some k ↦ parse_uuid k ]

  unfoldable pub producer_channel_parts : KillSwitch → Option (ℕ × String)
  producer_channel_parts s = elim s.scope_key [ none ↦ none | some k ↦ split_producer_channel k ]

  -- `KillSwitch::matches`.
  unfoldable pub matches : KillSwitch → Target → Bool
  matches s t =
      if s.scope == Scope.global
      then true
      else if s.scope == Scope.channel
      then s.scope_key == some t.channel
      else if s.scope == Scope.producer
      then producer_id s == some t.producer_id
      else if s.scope == Scope.producer_channel
      then is_pair (producer_channel_parts s) t.producer_id t.channel
      else if s.scope == Scope.campaign
      then is_some t.campaign_id && (s.scope_key == t.campaign_id)
      else false

pub record PlatformKillSwitch : Type 0 where
  pub id : ℕ
  pub scope : String
  pub tenant_id : Option ℕ
  pub engaged_by : String
  pub engaged_at : ℕ
  pub reason : String
  pub released_by : Option String
  pub released_at : Option ℕ

-- `PlatformKillSwitch::applies_to`.
unfoldable pub applies_to : PlatformKillSwitch → ℕ → Bool
applies_to p tenant_id =
    if p.scope == Scope.platform
    then true
    else if p.scope == Scope.tenant
    then p.tenant_id == some tenant_id
    else false

-- The tenant-tier row that the cache carries for a platform switch.
unfoldable pub as_kill_switch : PlatformKillSwitch → KillSwitch
as_kill_switch p = record {
  id = p.id;
  scope = Scope.global;
  scope_key = none;
  on_queued = Scope.hold;
  engaged_by = p.engaged_by;
  engaged_at = p.engaged_at;
  reason = p.reason;
  released_by = p.released_by;
  released_at = p.released_at;
}
