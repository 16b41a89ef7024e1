-- ===== src/KillSwitch/Cache.antt =====
-- src/kill_switch/cache.rs: the set of engaged switches that the dispatcher and the ingest
-- service hold in memory, its refresh, and the claim exclusion built from a list of switches.
use messgr.Base.{
  ℕ, String, Bool, true, false, ◌&&◌, not, Option, none, some, List, [], ◌∷◌, ◌++◌, map,
  if◌then◌else◌, ◌==◌, is_none, keep, find, contains, nat_eq, string_eq, option_eq, list_eq,
}
use messgr.KillSwitch.Scope
use messgr.KillSwitch.Model.{
  KillSwitch, PlatformKillSwitch, Target, matches, producer_id, producer_channel_parts, applies_to,
  as_kill_switch,
}

-- `HashMap<Uuid, KillSwitch>` as the list of its values in iteration order, which nothing below
-- relies on. A later insert under the same id takes the place of the earlier one.
unfoldable pub get : ℕ → List KillSwitch → Option KillSwitch
get id switches = find (λ s. s.id == id) switches

unfoldable pub insert : KillSwitch → List KillSwitch → List KillSwitch
insert s [] = s ∷ []
insert s (x ∷ xs) = if x.id == s.id then s ∷ xs else x ∷ insert s xs

unfoldable pub collect : List KillSwitch → List KillSwitch → List KillSwitch
unfolding insert
collect switches [] = switches
collect switches (s ∷ rest) = collect (insert s switches) rest

pub record ActiveSet : Type 0 where
  pub switches : List KillSwitch
  pub platform_ids : List ℕ

abbrev pub empty : ActiveSet
empty = record { switches = []; platform_ids = [] }

pub record RefreshDelta : Type 0 where
  pub newly_engaged : List KillSwitch
  pub released : List KillSwitch

-- `kill_switch::repo::list_active` and `platform_kill_switch::repo::list_active_for_tenant`.
unfoldable pub list_active : List KillSwitch → List KillSwitch
list_active rows = keep (λ s. is_none s.released_at) rows

unfoldable pub list_active_for_tenant : ℕ → List PlatformKillSwitch → List PlatformKillSwitch
unfolding applies_to
list_active_for_tenant tenant_id rows =
    keep (λ p. is_none p.released_at && applies_to p tenant_id) rows

-- The entries of the previous snapshot that belong to the platform tier.
unfoldable pub carried : List KillSwitch → List ℕ → List KillSwitch
unfolding get
carried switches [] = []
carried switches (id ∷ ids) = elim (get id switches) [
  | none ↦ carried switches ids
  | some s ↦ s ∷ carried switches ids
]

abbrev ids : List KillSwitch → List ℕ
ids = map λ s. s.id

-- The rows of both tiers. `platform_rows` is `none` where the control database could not be read.
unfoldable pub merged :
    List KillSwitch → Option (List PlatformKillSwitch) → ActiveSet → List KillSwitch
unfolding carried
merged fresh (some rows) guard = fresh ++ map as_kill_switch rows
merged fresh none guard = fresh ++ carried guard.switches guard.platform_ids

abbrev next_platform_ids : Option (List PlatformKillSwitch) → ActiveSet → List ℕ
next_platform_ids (some rows) guard = map (λ p. p.id) rows
next_platform_ids none guard = guard.platform_ids

-- The part of `refresh_with_platform` under the write lock, on the tenant's own engaged rows.
unfoldable pub swap :
    List KillSwitch → Option (List PlatformKillSwitch) → ActiveSet → ActiveSet × RefreshDelta
unfolding merged
swap fresh platform_rows guard =
    let next = merged fresh platform_rows guard in
    (
      record { switches = collect [] next; platform_ids = next_platform_ids platform_rows guard },
      record {
        newly_engaged = keep (λ s. not (contains s.id (ids guard.switches))) next;
        released = keep (λ s. not (contains s.id (ids next))) guard.switches;
      },
    )

-- `refresh_with_platform`: `tenant_rows` is `none` where the tenant database could not be read,
-- which fails the whole refresh. `platform` is `none` where the caller has no control database,
-- and `some none` where that could not be read.
unfoldable pub refresh_with_platform :
    Option (List KillSwitch)
    → Option (Option (List PlatformKillSwitch) × ℕ)
    → ActiveSet
    → ActiveSet × Option RefreshDelta
unfolding list_active list_active_for_tenant swap
refresh_with_platform none platform active = (active, none)
refresh_with_platform (some rows) none active =
    let (fresh, delta) = swap (list_active rows) (some []) active in (fresh, some delta)
refresh_with_platform (some rows) (some (none, tenant_id)) active =
    let (fresh, delta) = swap (list_active rows) none active in (fresh, some delta)
refresh_with_platform (some rows) (some (some platform_rows, tenant_id)) active =
    let blocking = list_active_for_tenant tenant_id platform_rows in
    let (fresh, delta) = swap (list_active rows) (some blocking) active in (fresh, some delta)

abbrev pub platform_scope : String
platform_scope = "platform"

abbrev scope_of : Option KillSwitch → Option String
scope_of none = none
scope_of (some s) = some s.scope

module _ (parse_uuid : String → Option ℕ) where
  -- `KillSwitchCache::blocking_scope`.
  unfoldable pub blocking_scope : ActiveSet → Target → Option String
  blocking_scope active t = elim active.platform_ids [
    | [] ↦ scope_of (find (λ s. matches parse_uuid s t) active.switches)
    | _ ∷ _ ↦ some platform_scope
  ]

-- `KillSwitchCache::active_snapshot`.
unfoldable pub active_snapshot : ActiveSet → List KillSwitch
active_snapshot active = active.switches

pub record ChannelExclusion : Type 0 where
  pub blocked_entirely : Bool
  pub blocked_producer_ids : List ℕ
  pub blocked_campaign_ids : List String

abbrev pub no_exclusion : ChannelExclusion
no_exclusion = record {
  blocked_entirely = false;
  blocked_producer_ids = [];
  blocked_campaign_ids = [];
}

abbrev pub block_all : ChannelExclusion → ChannelExclusion
block_all result = record result { blocked_entirely = true }

abbrev pub push_producer : Option ℕ → ChannelExclusion → ChannelExclusion
push_producer none result = result
push_producer (some id) result = record result {
  blocked_producer_ids = result.blocked_producer_ids ++ id ∷ [];
}

abbrev pub push_producer_on : Option (ℕ × String) → String → ChannelExclusion → ChannelExclusion
push_producer_on none channel result = result
push_producer_on (some (id, ch)) channel result =
    if ch == channel then push_producer (some id) result else result

abbrev pub push_campaign : Option String → ChannelExclusion → ChannelExclusion
push_campaign none result = result
push_campaign (some campaign_id) result = record result {
  blocked_campaign_ids = result.blocked_campaign_ids ++ campaign_id ∷ [];
}

module _ (parse_uuid : String → Option ℕ) (channel : String) where
  -- One round of the loop of `exclusion_for_channel`.
  unfoldable pub exclude : ChannelExclusion → KillSwitch → ChannelExclusion
  exclude result s =
      if s.scope == Scope.global
      then block_all result
      else if s.scope == Scope.channel
      then (if s.scope_key == some channel then block_all result else result)
      else if s.scope == Scope.producer
      then push_producer (producer_id parse_uuid s) result
      else if s.scope == Scope.producer_channel
      then push_producer_on (producer_channel_parts parse_uuid s) channel result
      else if s.scope == Scope.campaign
      then push_campaign s.scope_key result
      else result

  unfoldable pub exclude_all : ChannelExclusion → List KillSwitch → ChannelExclusion
  unfolding exclude
  exclude_all result [] = result
  exclude_all result (s ∷ rest) = exclude_all (exclude result s) rest

unfoldable pub exclusion_for_channel :
    (String → Option ℕ) → List KillSwitch → String → ChannelExclusion
unfolding exclude_all
exclusion_for_channel parse_uuid switches channel =
    exclude_all parse_uuid channel no_exclusion switches
