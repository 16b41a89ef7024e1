-- ===== src/KillSwitch/Refresh.antt =====
-- `KillSwitchCache::refresh_with_platform` of src/kill_switch/cache.rs: what the platform tier
-- keeps blocked across refreshes, and what the reported delta holds.
use messgr.Base.{
  ℕ, String, ◌≡◌, refl, sym, subst, inl, inr, Bool, true, false, ◌&&◌, ◌||◌, Option, none, some,
  List, [], ◌∷◌, ◌++◌, map, arith, if◌then◌else◌, ◌==◌, beq_refl, Option-cases, is_none, any, keep,
  All, nat_eq, string_eq, option_eq, list_eq,
}
use messgr.KillSwitch.Scope
use messgr.KillSwitch.Model.{
  applies_to, matches, Target, KillSwitch, PlatformKillSwitch, as_kill_switch,
}
use messgr.KillSwitch.Cache.{
  exclusion_for_channel, blocking_scope, list_active_for_tenant, active_snapshot, list_active,
  refresh_with_platform, swap, ActiveSet, get, insert, collect, carried,
}
use messgr.KillSwitch.Exclusion.{
  admits, admits-exclusion_for_channel, blocking_scope_without_platform,
}
use messgr.KillSwitch.Table.{get-id, has, get-insert}

-- The cache holds an entry of scope `global` under this id.
unfoldable pub holds_global : ℕ → List KillSwitch → Bool
holds_global id switches = elim (get id switches) [
  | none ↦ false
  | some s ↦ s.scope == Scope.global
]

-- Every platform id of the cache stands for an entry that blocks everything.
abbrev pub PlatformHeld : ActiveSet → Type 0
PlatformHeld a = All (λ id. holds_global id a.switches ≡ true) a.platform_ids

abbrev AllGlobal : List KillSwitch → Type 0
AllGlobal = All λ s. (s.scope == Scope.global) ≡ true

holds_global-insert :
    (s : KillSwitch) (id : ℕ) (switches : List KillSwitch)
    → holds_global id (insert s switches)
      ≡ (if s.id == id then s.scope == Scope.global else holds_global id switches)
unfolding holds_global
holds_global-insert s id switches = ground (arith, get-insert s id switches)

collect-append : (m xs ys : List KillSwitch) → collect m (xs ++ ys) ≡ collect (collect m xs) ys
unfolding collect
collect-append m [] ys = refl
collect-append m (x ∷ xs) ys = collect-append (insert x m) xs ys

holds_global-collect :
    (id : ℕ) (m xs : List KillSwitch)
    → AllGlobal xs
    → (holds_global id m || has id xs) ≡ true
    → holds_global id (collect m xs) ≡ true
unfolding collect
holds_global-collect id m [] g h = ground arith
holds_global-collect id m (x ∷ xs) g h =
    holds_global-collect id (insert x m) xs g.1 (ground (arith, holds_global-insert x id m))

platform-AllGlobal : (rows : List PlatformKillSwitch) → AllGlobal (map as_kill_switch rows)
unfolding as_kill_switch
platform-AllGlobal [] = tt
platform-AllGlobal (p ∷ rows) = (refl, platform-AllGlobal rows)

module _ (switches : List KillSwitch) where
  carried-AllGlobal :
      (ids : List ℕ)
      → All (λ id. holds_global id switches ≡ true) ids
      → AllGlobal (carried switches ids)
  unfolding carried holds_global
  carried-AllGlobal [] h = tt
  carried-AllGlobal (id ∷ ids) h = ground (arith, carried-AllGlobal ids h.1)

abbrev Covers : List ℕ → List KillSwitch → Type 0
Covers ids xs = All (λ id. has id xs ≡ true) ids

Covers-cons :
    (x : KillSwitch) (ids : List ℕ) (xs : List KillSwitch) → Covers ids xs → Covers ids (x ∷ xs)
Covers-cons x [] xs h = tt
Covers-cons x (id ∷ ids) xs h = ground (arith, Covers-cons x ids xs h.1)

platform-Covers :
    (rows : List PlatformKillSwitch) → Covers (map (λ p. p.id) rows) (map as_kill_switch rows)
unfolding as_kill_switch
platform-Covers [] = tt
platform-Covers (p ∷ rows) =
    (ground (arith, beq_refl p.id), Covers-cons (as_kill_switch p) _ _ (platform-Covers rows))

carried-cons :
    (switches : List KillSwitch) (id : ℕ) (ids : List ℕ) (s : KillSwitch)
    → get id switches ≡ some s
    → carried switches (id ∷ ids) ≡ s ∷ carried switches ids
unfolding carried
carried-cons switches id ids s e = ground (arith, e)

carried-Covers :
    (switches : List KillSwitch) (ids : List ℕ)
    → All (λ id. holds_global id switches ≡ true) ids
    → Covers ids (carried switches ids)
carried-Covers switches [] h = tt
carried-Covers switches (id ∷ ids) h = elim (Option-cases (get id switches)) [
  | inl e ↦ unfold holds_global in ground (arith, e, h.0)
  | inr (s, e) ↦
      let found : (s.id == id) ≡ true = rw (get-id id switches s e) (beq_refl id) in
      subst (Covers (id ∷ ids)) (sym (carried-cons switches id ids s e))
        (ground (arith, found), Covers-cons s ids _ (carried-Covers switches ids h.1))
]

held_after :
    (m xs : List KillSwitch) (ids : List ℕ)
    → AllGlobal xs
    → Covers ids xs
    → All (λ id. holds_global id (collect m xs) ≡ true) ids
held_after m xs [] g c = tt
held_after m xs (id ∷ ids) g c =
    (holds_global-collect id m xs g (ground (arith, c.0)), held_after m xs ids g c.1)

-- Putting platform entries behind the tenant's keeps every one of them in force.
swap-PlatformHeld :
    (fresh : List KillSwitch) (rows : Option (List PlatformKillSwitch)) (a : ActiveSet)
    → PlatformHeld a
    → PlatformHeld (swap fresh rows a).0
unfolding swap
swap-PlatformHeld fresh (some rows) a h = rw collect-append (
    held_after (collect [] fresh) (map as_kill_switch rows) (map (λ p. p.id) rows)
      (platform-AllGlobal rows) (platform-Covers rows))
swap-PlatformHeld fresh none a h = rw collect-append (
    held_after (collect [] fresh) (carried a.switches a.platform_ids) a.platform_ids
      (carried-AllGlobal a.switches a.platform_ids h) (carried-Covers a.switches a.platform_ids h))

-- The platform ids that a refresh leaves: those that apply to the tenant, where the control database
-- was read; the ones of before, where it could not be; and none where there is no such database.
abbrev pub platform_ids_after : Option (Option (List PlatformKillSwitch) × ℕ) → ActiveSet → List ℕ
platform_ids_after none a = []
platform_ids_after (some (none, tenant_id)) a = a.platform_ids
platform_ids_after (some (some rows, tenant_id)) a =
    map (λ p. p.id) (keep (λ p. is_none p.released_at && applies_to p tenant_id) rows)

-- Whatever the two databases answer, a refresh keeps every platform id of the cache backed by an
-- entry that blocks everything. Where the tenant database could not be read, the cache stays; where
-- the control database could not be read, its platform ids stay; and where both were read, they are
-- those of the platform's engaged switches that apply to the tenant.
pub refresh_with_platform-PlatformHeld :
    (tenant_rows : Option (List KillSwitch))
    (platform : Option (Option (List PlatformKillSwitch) × ℕ)) (a : ActiveSet)
    → PlatformHeld a
    → let after = (refresh_with_platform tenant_rows platform a).0 in
      PlatformHeld after
      × (tenant_rows ≡ none → after ≡ a)
      × ((rows : List KillSwitch)
          → tenant_rows ≡ some rows
          → after.platform_ids ≡ platform_ids_after platform a)
unfolding refresh_with_platform swap list_active_for_tenant
refresh_with_platform-PlatformHeld none platform a h = (h, λ e. refl, λ rows e. cc)
refresh_with_platform-PlatformHeld (some rows) none a h =
    (swap-PlatformHeld (list_active rows) (some []) a h, λ e. cc, λ _ e. refl)
refresh_with_platform-PlatformHeld (some rows) (some (none, tenant)) a h =
    (swap-PlatformHeld (list_active rows) none a h, λ e. cc, λ _ e. refl)
refresh_with_platform-PlatformHeld (some rows) (some (some prows, tenant)) a h = (
  swap-PlatformHeld (list_active rows) (some (list_active_for_tenant tenant prows)) a h,
  λ e. cc,
  λ _ e. refl,
)

module _ (parse_uuid : String → Option ℕ) (t : Target) where
  global-matches :
      (s : KillSwitch) → (s.scope == Scope.global) ≡ true → matches parse_uuid s t ≡ true
  unfolding matches
  global-matches s h = ground (arith, h)

  held_matches :
      (id : ℕ) (switches : List KillSwitch)
      → holds_global id switches ≡ true
      → any (λ s. matches parse_uuid s t) switches ≡ true
  unfolding holds_global get
  held_matches id [] h = ground (arith, h)
  held_matches id (s ∷ rest) h = ground (arith, global-matches s, held_matches id rest)

  -- In a cache whose platform ids are all backed by an entry that blocks everything, for every
  -- message: the ingest service accepts it exactly when the dispatcher's claim exclusion, built
  -- from the same cache, lets it be claimed.
  pub blocking_scope-eq-admits :
      (a : ActiveSet)
      → PlatformHeld a
      → is_none (blocking_scope parse_uuid a t)
        ≡ admits (exclusion_for_channel parse_uuid (active_snapshot a) t.channel) t
  blocking_scope-eq-admits a h = cases a.platform_ids refl h
    where
      cases :
          (ids : List ℕ)
          → a.platform_ids ≡ ids
          → All (λ id. holds_global id a.switches ≡ true) ids
          → is_none (blocking_scope parse_uuid a t)
            ≡ admits (exclusion_for_channel parse_uuid (active_snapshot a) t.channel) t
      cases [] e h' = blocking_scope_without_platform parse_uuid t a e
      cases (id ∷ ids) e h' =
          unfold blocking_scope active_snapshot in
          ground (
            arith,
            e,
            admits-exclusion_for_channel parse_uuid t a.switches,
            held_matches id a.switches h'.0,
          )
