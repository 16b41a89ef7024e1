-- ===== src/KillSwitch/Exclusion.antt =====
-- The exclusion of src/kill_switch/cache.rs, as the claim queries of src/dispatcher/repo.rs
-- apply it, against `KillSwitch::matches`, which the ingest service applies.
use messgr.Base.{
  ℕ, String, ◌≡◌, refl, Bool, true, false, ◌&&◌, ◌||◌, not, Option, none, some, List, [], ◌∷◌, ◌++◌,
  arith, PartialEq, ◌==◌, is_none, is_some, any, find, contains, nat_eq, string_eq, option_eq,
}
use messgr.KillSwitch.Model.{
  KillSwitch, Target, matches, producer_id, producer_channel_parts, is_pair,
}
use messgr.KillSwitch.Cache.{
  ActiveSet, active_snapshot, blocking_scope, no_exclusion, exclusion_for_channel, exclude_all,
  ChannelExclusion, exclude, push_producer, push_producer_on, push_campaign, block_all,
}

-- The exclusion's part of the claim queries: the early return on `blocked_entirely`, and
-- `producer_id <> ALL($4) AND (campaign_id IS NULL OR campaign_id <> ALL($5))`.
abbrev pub lets_campaign : Option String → List String → Bool
lets_campaign none blocked = true
lets_campaign (some campaign_id) blocked = not (contains campaign_id blocked)

unfoldable pub admits : ChannelExclusion → Target → Bool
admits e t =
    not e.blocked_entirely
    && not (contains t.producer_id e.blocked_producer_ids)
    && lets_campaign t.campaign_id e.blocked_campaign_ids

contains-append_one {ℓ} :
    {A : Type ℓ} ⦃e : PartialEq A⦄ (a b : A) (xs : List A)
    → contains a (xs ++ b ∷ []) ≡ (contains a xs || b == a)
contains-append_one a b [] = ground arith
contains-append_one a b (x ∷ xs) = ground (arith, contains-append_one a b xs)

module _ (t : Target) where
  admits-block_all : (r : ChannelExclusion) → admits (block_all r) t ≡ false
  unfolding admits
  admits-block_all r = ground arith

  admits-push_producer :
      (o : Option ℕ) (r : ChannelExclusion)
      → admits (push_producer o r) t ≡ (admits r t && not (o == some t.producer_id))
  unfolding admits
  admits-push_producer none r = ground arith
  admits-push_producer (some id) r =
      ground (arith, contains-append_one t.producer_id id r.blocked_producer_ids)

  admits-push_producer_on :
      (o : Option (ℕ × String)) (r : ChannelExclusion)
      → admits (push_producer_on o t.channel r) t
        ≡ (admits r t && not (is_pair o t.producer_id t.channel))
  unfolding admits
  admits-push_producer_on none r = ground arith
  admits-push_producer_on (some (id, ch)) r =
      ground (arith, contains-append_one t.producer_id id r.blocked_producer_ids)

  admits-push_campaign :
      (o : Option String) (r : ChannelExclusion)
      → admits (push_campaign o r) t
        ≡ (admits r t && not (is_some t.campaign_id && (o == t.campaign_id)))
  unfolding admits
  admits-push_campaign o r = campaign_cases o t.campaign_id
    where
      campaign_cases :
          (o c : Option String)
          → (not (push_campaign o r).blocked_entirely
              && not (contains t.producer_id (push_campaign o r).blocked_producer_ids)
              && lets_campaign c (push_campaign o r).blocked_campaign_ids)
            ≡ ((not r.blocked_entirely
                  && not (contains t.producer_id r.blocked_producer_ids)
                  && lets_campaign c r.blocked_campaign_ids)
                && not (is_some c && (o == c)))
      campaign_cases none none = ground arith
      campaign_cases none (some c) = ground arith
      campaign_cases (some k) none = ground arith
      campaign_cases (some k) (some c) =
          ground (arith, contains-append_one c k r.blocked_campaign_ids)

module _ (parse_uuid : String → Option ℕ) (t : Target) where
  -- One switch takes away from the exclusion exactly the messages that it matches.
  admits-exclude :
      (r : ChannelExclusion) (s : KillSwitch)
      → admits (exclude parse_uuid t.channel r s) t ≡ (admits r t && not (matches parse_uuid s t))
  unfolding exclude matches
  admits-exclude r s = ground (
    arith,
    admits-block_all t r,
    admits-push_producer t (producer_id parse_uuid s) r,
    admits-push_producer_on t (producer_channel_parts parse_uuid s) r,
    admits-push_campaign t s.scope_key r,
  )

  admits-exclude_all :
      (switches : List KillSwitch) (r : ChannelExclusion)
      → admits (exclude_all parse_uuid t.channel r switches) t
        ≡ (admits r t && not (any (λ s. matches parse_uuid s t) switches))
  unfolding exclude_all
  admits-exclude_all [] r = ground arith
  admits-exclude_all (s ∷ rest) r =
      ground (arith, admits-exclude_all rest (exclude parse_uuid t.channel r s), admits-exclude r s)

  admits-no_exclusion : admits no_exclusion t ≡ true
  unfolding admits
  admits-no_exclusion = elim t.campaign_id as (λ c. lets_campaign c [] ≡ true) [
    | none ↦ refl
    | some c ↦ refl
  ]

  -- For every list of switches, whatever their scopes and keys, the claim query's exclusion for a
  -- message's channel lets the message through exactly when none of the switches matches it.
  pub admits-exclusion_for_channel :
      (switches : List KillSwitch)
      → admits (exclusion_for_channel parse_uuid switches t.channel) t
        ≡ not (any (λ s. matches parse_uuid s t) switches)
  unfolding exclusion_for_channel
  admits-exclusion_for_channel switches =
      ground (arith, admits-exclude_all switches no_exclusion, admits-no_exclusion)

  any-find :
      (switches : List KillSwitch)
      → is_none (find (λ s. matches parse_uuid s t) switches)
        ≡ not (any (λ s. matches parse_uuid s t) switches)
  any-find [] = refl
  any-find (s ∷ rest) = ground (arith, any-find rest)

  -- With no platform switch in the cache, the ingest service's check and the dispatcher's claim
  -- exclusion take the same messages: one is accepted exactly when it would be claimable.
  pub blocking_scope_without_platform :
      (active : ActiveSet)
      → active.platform_ids ≡ []
      → is_none (blocking_scope parse_uuid active t)
        ≡ admits (exclusion_for_channel parse_uuid (active_snapshot active) t.channel) t
  unfolding blocking_scope active_snapshot
  blocking_scope_without_platform active h =
      ground (arith, h, admits-exclusion_for_channel active.switches, any-find active.switches)
