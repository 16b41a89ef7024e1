-- ===== src/Dispatcher/Handover.antt =====
-- A released `hold` switch goes from the engaged set to the draining set in the refresh that
-- sees its release (src/kill_switch/cache.rs, src/bin/dispatcher.rs).
use messgr.Base.{
  ℕ, String, ◌≡◌, refl, inl, inr, Bool, true, false, not, Option, none, some, List, [], ◌∷◌, ◌++◌,
  map, arith, ◌==◌, Bool-cases, any, keep, any-append, contains, nat_eq, string_eq, option_eq,
  list_eq,
}
use messgr.KillSwitch.Model.{KillSwitch, PlatformKillSwitch, Target, matches}
use messgr.KillSwitch.Cache.{
  list_active_for_tenant, list_active, merged, ActiveSet, RefreshDelta, get, swap,
  refresh_with_platform, active_snapshot,
}
use messgr.KillSwitch.Table.{
  has-collect, get-id, has, Distinct, get-collect, get-keep, keep-Distinct,
}
use messgr.KillSwitch.Exclusion.{admits, admits-exclusion_for_channel}
use messgr.Dispatcher.Switches.{claim_exclusion, on_delta, is_hold}

contains-has :
    (id : ℕ) (switches : List KillSwitch) → contains id (map (λ s. s.id) switches) ≡ has id switches
contains-has id [] = refl
contains-has id (s ∷ rest) = ground (arith, contains-has id rest)

module _ (f : KillSwitch → Bool) where
  any_got :
      (id : ℕ) (switches : List KillSwitch) (s : KillSwitch)
      → get id switches ≡ some s
      → f s ≡ true
      → any f switches ≡ true
  any_got id [] s h p = unfold get in cc (h)
  any_got id (x ∷ rest) s h p = elim (Bool-cases (x.id == id)) [
    | inl e ↦
        let same : x ≡ s = unfold get in ground (arith, e, h) in
        let hit : f x ≡ true = rw same p in ground (arith, hit)
    | inr e ↦ ground (arith, any_got id rest s (unfold get in ground (arith, e, h)) p)
  ]

-- A switch of the old set whose id is not among the new rows is released.
released-get :
    (a : ActiveSet) (fresh : List KillSwitch) (rows : Option (List PlatformKillSwitch)) (id : ℕ)
    (s : KillSwitch)
    → get id a.switches ≡ some s
    → has id (swap fresh rows a).0.switches ≡ false
    → get id (swap fresh rows a).1.released ≡ some s
unfolding swap
released-get a fresh rows id s found gone =
    let own : s.id ≡ id = get-id id a.switches s found in
    let left : (not (contains s.id (map (λ (y : KillSwitch). y.id) (merged fresh rows a)))) ≡ true =
      rw own (
        ground (
          arith,
          has-collect id [] (merged fresh rows a),
          contains-has id (merged fresh rows a),
          gone,
        )) in
    get-keep (λ x. not (contains x.id (map (λ y. y.id) (merged fresh rows a)))) id a.switches s
      found left

released-Distinct :
    (a : ActiveSet) (fresh : List KillSwitch) (rows : Option (List PlatformKillSwitch))
    → Distinct a.switches
    → Distinct (swap fresh rows a).1.released
unfolding swap
released-Distinct a fresh rows d = keep-Distinct _ a.switches d

module _ (parse_uuid : String → Option ℕ) (draining : List KillSwitch) where
  -- A released `hold` switch is in the draining set, under its id.
  draining-get :
      (delta : RefreshDelta) (id : ℕ) (s : KillSwitch)
      → Distinct delta.released
      → get id delta.released ≡ some s
      → is_hold s ≡ true
      → get id (on_delta draining delta).0 ≡ some s
  unfolding on_delta
  draining-get delta id s d found hold = rw (
    get-collect id draining (keep is_hold delta.released) (keep-Distinct is_hold delta.released d),
    get-keep is_hold id delta.released s found hold,
  )

  swap_handover :
      (a : ActiveSet) (fresh : List KillSwitch) (rows : Option (List PlatformKillSwitch)) (id : ℕ)
      (s : KillSwitch) (t : Target)
      → Distinct a.switches
      → get id a.switches ≡ some s
      → is_hold s ≡ true
      → matches parse_uuid s t ≡ true
      → let (a', delta) = swap fresh rows a in
        has id a'.switches ≡ false
        → admits (claim_exclusion parse_uuid a' (on_delta draining delta).0 t.channel) t ≡ false
  unfolding claim_exclusion active_snapshot
  swap_handover a fresh rows id s t d found hold covered gone =
      let delta = (swap fresh rows a).1 in
      let drained = (on_delta draining delta).0 in
      let kept : get id drained ≡ some s =
        draining-get delta id s (released-Distinct a fresh rows d)
          (released-get a fresh rows id s found gone) hold in
      ground (
        arith,
        admits-exclusion_for_channel parse_uuid t ((swap fresh rows a).0.switches ++ drained),
        any-append (λ x. matches parse_uuid x t) (swap fresh rows a).0.switches drained,
        any_got (λ x. matches parse_uuid x t) id drained s kept covered,
      )

  swap_handover_at :
      (a : ActiveSet) (fresh : List KillSwitch) (rows : Option (List PlatformKillSwitch))
      (delta : RefreshDelta) (id : ℕ) (s : KillSwitch) (t : Target)
      → Distinct a.switches
      → get id a.switches ≡ some s
      → is_hold s ≡ true
      → matches parse_uuid s t ≡ true
      → (swap fresh rows a).1 ≡ delta
      → has id (swap fresh rows a).0.switches ≡ false
      → admits
          (claim_exclusion parse_uuid (swap fresh rows a).0 (on_delta draining delta).0 t.channel)
          t
        ≡ false
  swap_handover_at a fresh rows delta id s t d found hold covered same out =
      rw (← same) (swap_handover a fresh rows id s t d found hold covered out)

  -- After a refresh that gives a delta and the dispatcher's reaction to it, a `hold` switch that a
  -- cache with no id twice had in force either still has an entry in the cache under its id, or
  -- the messages that it matches are excluded from the claims.
  pub refresh_handover :
      (tenant_rows : Option (List KillSwitch))
      (platform : Option (Option (List PlatformKillSwitch) × ℕ)) (a : ActiveSet)
      (delta : RefreshDelta) (id : ℕ) (s : KillSwitch) (t : Target)
      → Distinct a.switches
      → get id a.switches ≡ some s
      → is_hold s ≡ true
      → matches parse_uuid s t ≡ true
      → (refresh_with_platform tenant_rows platform a).1 ≡ some delta
      → let a' = (refresh_with_platform tenant_rows platform a).0 in
        has id a'.switches ≡ false
        → admits (claim_exclusion parse_uuid a' (on_delta draining delta).0 t.channel) t ≡ false
  unfolding refresh_with_platform
  refresh_handover none platform a delta id s t d found hold covered e gone = cc
  refresh_handover (some rows) none a delta id s t d found hold covered e gone =
      swap_handover_at a (list_active rows) (some []) delta id s t d found hold covered (cc) gone
  refresh_handover (some rows) (some (none, tenant)) a delta id s t d found hold covered e gone =
      swap_handover_at a (list_active rows) none delta id s t d found hold covered (cc) gone
  refresh_handover (some rows) (some (some prows, tenant)) a delta id s t d found hold covered e
        gone =
      swap_handover_at a (list_active rows) (some (list_active_for_tenant tenant prows)) delta id s
        t d found hold covered (cc) gone
