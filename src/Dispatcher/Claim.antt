-- ===== src/Dispatcher/Claim.antt =====
-- `claim` and `claim_for_scope` of src/dispatcher/repo.rs: which rows of the outbox a claim
-- leases, in which order, and what it returns. `locked` tells which rows other sessions have
-- locked at that moment, which `FOR UPDATE SKIP LOCKED` passes over.
use messgr.Base.{
  ℕ, ◌+◌, String, Bool, true, ◌&&◌, ◌||◌, not, Option, none, some, List, [], ◌∷◌, map, ltb, leb,
  if◌then◌else◌, PartialEq, ◌==◌, is_none, take, keep, contains, nat_eq, string_eq, option_eq,
  list_eq,
}
use messgr.Store.Tables.{Db, OutboxRow}
use messgr.Store.Exec.{Exec, pure, ◌>>=◌, utc_now, sql}
use messgr.KillSwitch.Scope
use messgr.KillSwitch.Model.{KillSwitch, Target, producer_id, producer_channel_parts}
use messgr.KillSwitch.Cache.{ChannelExclusion}
use messgr.KillSwitch.Exclusion.{lets_campaign}
use messgr.Dispatcher.Queries.{DispatchError, database}

-- A row's coordinates, as a kill switch sees them.
abbrev pub target : OutboxRow → Target
target row = record {
  channel = row.channel;
  producer_id = row.producer_id;
  campaign_id = row.campaign_id;
}

-- `next_attempt_at <= now() AND leased_until IS NULL`
abbrev pub is_ready : ℕ → OutboxRow → Bool
is_ready now row = leb row.next_attempt_at now && is_none row.leased_until

-- `producer_id <> ALL($4) AND (campaign_id IS NULL OR campaign_id <> ALL($5))`
abbrev pub not_excluded : ChannelExclusion → OutboxRow → Bool
not_excluded e row =
    not (contains row.producer_id e.blocked_producer_ids)
    && lets_campaign row.campaign_id e.blocked_campaign_ids

-- `ORDER BY priority, next_attempt_at`
abbrev pub comes_before : OutboxRow → OutboxRow → Bool
comes_before a b =
    ltb a.priority b.priority
    || ((a.priority == b.priority) && leb a.next_attempt_at b.next_attempt_at)

unfoldable pub insert_row : OutboxRow → List OutboxRow → List OutboxRow
insert_row row [] = row ∷ []
insert_row row (x ∷ xs) = if comes_before row x then row ∷ x ∷ xs else x ∷ insert_row row xs

unfoldable pub order_rows : List OutboxRow → List OutboxRow
unfolding insert_row
order_rows [] = []
order_rows (row ∷ rest) = insert_row row (order_rows rest)

abbrev pub ids_of : List OutboxRow → List ℕ
ids_of = map λ row. row.comms_request_id

-- `SELECT comms_request_id FROM outbox WHERE … ORDER BY … LIMIT $2 FOR UPDATE SKIP LOCKED`
unfoldable pub candidates : (OutboxRow → Bool) → (ℕ → Bool) → ℕ → List OutboxRow → List OutboxRow
unfolding order_rows
candidates eligible locked limit rows =
    take limit (order_rows (keep (λ row. eligible row && not (locked row.comms_request_id)) rows))

abbrev pub lease : ℕ → OutboxRow → OutboxRow
lease leased_until row = record row {
  leased_until = some leased_until;
  attempts = row.attempts + 1;
}

-- `UPDATE outbox SET leased_until = $3, attempts = attempts + 1 WHERE comms_request_id IN (…)`
unfoldable pub lease_rows : List ℕ → ℕ → List OutboxRow → List OutboxRow
lease_rows chosen leased_until [] = []
lease_rows chosen leased_until (row ∷ rest) =
    (if contains row.comms_request_id chosen then lease leased_until row else row)
    ∷ lease_rows chosen leased_until rest

-- The rows that `RETURNING` gives.
unfoldable pub returned : List ℕ → List OutboxRow → List OutboxRow
returned chosen rows = keep (λ row. contains row.comms_request_id chosen) rows

unfoldable pub lease_matching :
    (OutboxRow → Bool) → (ℕ → Bool) → ℕ → ℕ → List OutboxRow → List OutboxRow × List OutboxRow
unfolding candidates lease_rows returned
lease_matching eligible locked limit leased_until rows =
    let chosen = ids_of (candidates eligible locked limit rows) in
    let updated = lease_rows chosen leased_until rows in (returned chosen updated, updated)

abbrev pub lease_in : (OutboxRow → Bool) → (ℕ → Bool) → ℕ → ℕ → Db → List OutboxRow × Db
lease_in eligible locked limit leased_until db =
    let (rows, outbox) = lease_matching eligible locked limit leased_until db.outbox in
    (rows, record db { outbox = outbox })

-- The `UPDATE`, with `now()` read once for the statement.
unfoldable pub lease_now :
    (ℕ → OutboxRow → Bool) → (ℕ → Bool) → ℕ → ℕ → Exec DispatchError (List OutboxRow)
unfolding lease_matching
lease_now eligible locked limit leased_until = do
  now ← utc_now
  sql database (lease_in (eligible now) locked limit leased_until)

-- The `WHERE` clause of `claim`.
unfoldable pub claimable : String → ChannelExclusion → ℕ → OutboxRow → Bool
claimable channel exclusion now row =
    (row.channel == channel) && is_ready now row && not_excluded exclusion row

unfoldable pub claim :
    String → ℕ → ℕ → ChannelExclusion → (ℕ → Bool) → Exec DispatchError (List OutboxRow)
claim channel limit leased_until exclusion locked =
    if exclusion.blocked_entirely
    then pure []
    else lease_now (claimable channel exclusion) locked limit leased_until

-- What `claim_for_scope` adds to its `WHERE` clause for a switch, or `none` where it returns
-- before it runs a query: the key does not parse, or the switch is for another channel than the
-- pinned one.
pub record ScopeFilter : Type 0 where
  pub channel_is : Option String
  pub producer_is : Option ℕ
  pub campaign_is : Option String

abbrev pub any_row : ScopeFilter
any_row = record { channel_is = none; producer_is = none; campaign_is = none }

-- The arm for a switch's channel, against the channel that the caller pins.
abbrev pub pin : Option String → String → ScopeFilter → Option ScopeFilter
pin none switch_channel f = some (record f { channel_is = some switch_channel })
pin (some pinned) switch_channel f = if switch_channel == pinned then some f else none

abbrev pub for_producer : Option ℕ → Option ScopeFilter
for_producer none = none
for_producer (some id) = some (record any_row { producer_is = some id })

abbrev pub for_producer_channel : Option (ℕ × String) → Option String → Option ScopeFilter
for_producer_channel none channel = none
for_producer_channel (some (id, switch_channel)) channel =
    pin channel switch_channel (record any_row { producer_is = some id })

abbrev pub for_channel : Option String → Option String → Option ScopeFilter
for_channel none channel = none
for_channel (some switch_channel) channel = pin channel switch_channel any_row

abbrev pub for_campaign : Option String → Option ScopeFilter
for_campaign none = none
for_campaign (some id) = some (record any_row { campaign_is = some id })

unfoldable pub scope_filter : (String → Option ℕ) → KillSwitch → Option String → Option ScopeFilter
scope_filter parse_uuid s channel =
    if s.scope == Scope.global
    then some any_row
    else if s.scope == Scope.channel
    then for_channel s.scope_key channel
    else if s.scope == Scope.producer
    then for_producer (producer_id parse_uuid s)
    else if s.scope == Scope.producer_channel
    then for_producer_channel (producer_channel_parts parse_uuid s) channel
    else if s.scope == Scope.campaign
    then for_campaign s.scope_key
    else none

abbrev pub holds {ℓ} : {A : Type ℓ} ⦃e : PartialEq A⦄ → Option A → A → Bool
holds none a = true
holds (some b) a = b == a

-- `campaign_id = $n` is not true of a NULL.
abbrev pub holds_nullable {ℓ} : {A : Type ℓ} ⦃e : PartialEq A⦄ → Option A → Option A → Bool
holds_nullable none a = true
holds_nullable (some b) a = some b == a

unfoldable pub in_scope : ScopeFilter → OutboxRow → Bool
in_scope f row =
    holds f.channel_is row.channel
    && holds f.producer_is row.producer_id
    && holds_nullable f.campaign_is row.campaign_id

unfoldable pub claimable_for_scope :
    ScopeFilter → Option String → ChannelExclusion → ℕ → OutboxRow → Bool
claimable_for_scope f channel exclusion now row =
    is_ready now row && holds channel row.channel && in_scope f row && not_excluded exclusion row

unfoldable pub claim_for_scope :
    (String → Option ℕ)
    → Option String
    → KillSwitch
    → ℕ
    → ℕ
    → ChannelExclusion
    → (ℕ → Bool)
    → Exec DispatchError (List OutboxRow)
claim_for_scope parse_uuid channel s limit leased_until exclusion locked =
    if exclusion.blocked_entirely then pure [] else elim (scope_filter parse_uuid s channel) [
      | none ↦ pure []
      | some f ↦ lease_now (claimable_for_scope f channel exclusion) locked limit leased_until
    ]
