-- ===== src/KillSwitch/Radius.antt =====
-- `blast_radius` of src/kill_switch/repo.rs: how many queued messages of each class a switch would
-- cover. The groups of `GROUP BY` come in the order of their last rows.
use messgr.Base.{
  ℕ, ◌+◌, String, ◌≡◌, refl, sym, ap, ◌∙◌, inl, inr, Bool, true, false, ◌&&◌, Option, none, some,
  List, [], ◌∷◌, arith, if◌then◌else◌, ◌==◌, beq_refl, beq_eq, Bool-cases, is_none, take, keep,
  count, nat_eq, string_eq, option_eq, list_eq,
}
use messgr.KillSwitch.Scope
use messgr.Store.Exec.{World, Result, ok, err, Exec, pure, query, sql}
use messgr.Store.Steps.{Ends}
use messgr.Dispatcher.ScopeClaim.{covers, scope_filter-matches}
use messgr.Store.Tables.{OutboxRow}
use messgr.Dispatcher.Claim.{
  for_producer_channel, for_producer, target, for_channel, in_scope, any_row, scope_filter,
  ScopeFilter, for_campaign,
}
use messgr.KillSwitch.Model.{
  matches, split_producer_channel, KillSwitch, producer_id, producer_channel_parts,
}

pub data RadiusError : Type 0 where
  sqlx_error : RadiusError

abbrev parse_key : (String → Option ℕ) → Option String → Option ℕ
parse_key parse_uuid none = none
parse_key parse_uuid (some key) = parse_uuid key

abbrev parse_pair : (String → Option ℕ) → Option String → Option (ℕ × String)
parse_pair parse_uuid none = none
parse_pair parse_uuid (some key) = split_producer_channel parse_uuid key

-- The `WHERE` clause of the arm for a scope, or `none` where it returns before it runs a query.
unfoldable pub radius_filter : (String → Option ℕ) → String → Option String → Option ScopeFilter
radius_filter parse_uuid scope scope_key =
    if scope == Scope.global
    then some any_row
    else if scope == Scope.channel
    then for_channel scope_key none
    else if scope == Scope.producer
    then for_producer (parse_key parse_uuid scope_key)
    else if scope == Scope.producer_channel
    then for_producer_channel (parse_pair parse_uuid scope_key) none
    else if scope == Scope.campaign
    then for_campaign scope_key
    else none

unfoldable pub add_class : String → List (String × ℕ) → List (String × ℕ)
add_class class [] = (class, 1) ∷ []
add_class class ((c, n) ∷ rest) =
    if c == class then (c, n + 1) ∷ rest else (c, n) ∷ add_class class rest

-- `SELECT class, count(*) … GROUP BY class`
unfoldable pub count_by_class : List OutboxRow → List (String × ℕ)
count_by_class [] = []
count_by_class (row ∷ rest) = add_class row.class (count_by_class rest)

-- `cancelled_at IS NULL AND …`
unfoldable pub in_radius : ScopeFilter → OutboxRow → Bool
in_radius f row = is_none row.cancelled_at && in_scope f row

abbrev radius_of : Option ScopeFilter → Exec RadiusError (List (String × ℕ))
radius_of none = pure []
radius_of (some f) = query sqlx_error λ db. count_by_class (keep (in_radius f) db.outbox)

unfoldable pub blast_radius :
    (String → Option ℕ) → String → Option String → Exec RadiusError (List (String × ℕ))
blast_radius parse_uuid scope scope_key = radius_of (radius_filter parse_uuid scope scope_key)

-- The sum of the counts that stand beside a class.
abbrev pub counted : String → List (String × ℕ) → ℕ
counted class [] = 0
counted class ((c, n) ∷ rest) = (if c == class then n else 0) + counted class rest

counted-add_class :
    (class c : String) (counts : List (String × ℕ))
    → counted class (add_class c counts) ≡ (if c == class then 1 else 0) + counted class counts
unfolding add_class
counted-add_class class c [] = ground arith
counted-add_class class c ((k, n) ∷ rest) = elim (Bool-cases (k == c)) [
  | inl e ↦ let same : k ≡ c = beq_eq k c e in rw same (ground (arith, beq_refl c))
  | inr e ↦ ground (arith, e, counted-add_class class c rest)
]

counted-count_by_class :
    (class : String) (rows : List OutboxRow)
    → counted class (count_by_class rows) ≡ count (λ row. row.class == class) rows
unfolding count_by_class
counted-count_by_class class [] = refl
counted-count_by_class class (row ∷ rest) = ground (
  arith,
  counted-add_class class row.class (count_by_class rest),
  counted-count_by_class class rest,
)

-- The queued messages of a class that a switch matches.
abbrev pub held_of : (String → Option ℕ) → KillSwitch → String → OutboxRow → Bool
held_of parse_uuid s class row =
    is_none row.cancelled_at && matches parse_uuid s (target row) && (row.class == class)

parse_key-producer_id :
    (parse_uuid : String → Option ℕ) (s : KillSwitch)
    → parse_key parse_uuid s.scope_key ≡ producer_id parse_uuid s
unfolding producer_id
parse_key-producer_id parse_uuid s = elim s.scope_key [ none ↦ refl | some key ↦ refl ]

parse_pair-producer_channel_parts :
    (parse_uuid : String → Option ℕ) (s : KillSwitch)
    → parse_pair parse_uuid s.scope_key ≡ producer_channel_parts parse_uuid s
unfolding producer_channel_parts
parse_pair-producer_channel_parts parse_uuid s = elim s.scope_key [ none ↦ refl | some key ↦ refl ]

radius_filter-scope_filter :
    (parse_uuid : String → Option ℕ) (s : KillSwitch)
    → radius_filter parse_uuid s.scope s.scope_key ≡ scope_filter parse_uuid s none
unfolding radius_filter scope_filter
radius_filter-scope_filter parse_uuid s =
    rw (parse_key-producer_id parse_uuid s, parse_pair-producer_channel_parts parse_uuid s)

module _ (parse_uuid : String → Option ℕ) (s : KillSwitch) where
  counted-keep :
      (class : String) (f : ScopeFilter) (rows : List OutboxRow)
      → scope_filter parse_uuid s none ≡ some f
      → count (λ row. row.class == class) (keep (in_radius f) rows)
        ≡ count (held_of parse_uuid s class) rows
  unfolding in_radius
  counted-keep class f [] e = refl
  counted-keep class f (row ∷ rest) e =
      let same : in_scope f row ≡ matches parse_uuid s (target row) =
        ap (λ o. covers o row) (sym e) ∙ scope_filter-matches parse_uuid s none row refl in
      ground (arith, same, counted-keep class f rest e)

  nothing_held :
      (class : String) (rows : List OutboxRow)
      → scope_filter parse_uuid s none ≡ none
      → 0 ≡ count (held_of parse_uuid s class) rows
  nothing_held class [] e = refl
  nothing_held class (row ∷ rest) e =
      let same : false ≡ matches parse_uuid s (target row) =
        ap (λ o. covers o row) (sym e) ∙ scope_filter-matches parse_uuid s none row refl in
      ground (arith, same, nothing_held class rest e)

  -- The counts of the queued messages that the switch matches; an error only where the query fails.
  abbrev pub Radius : World → Result RadiusError (List (String × ℕ)) → World → Type 0
  Radius v (err e) w = (w.db ≡ v.db) × (take 1 v.faults ≡ true ∷ [])
  Radius v (ok counts) w =
      (w.db ≡ v.db)
      × ((class : String) → counted class counts ≡ count (held_of parse_uuid s class) v.db.outbox)

  counts :
      (f : ScopeFilter) (v : World)
      → scope_filter parse_uuid s none ≡ some f
      → (class : String)
      → counted class (count_by_class (keep (in_radius f) v.db.outbox))
        ≡ count (held_of parse_uuid s class) v.db.outbox
  counts f v e class =
      counted-count_by_class class (keep (in_radius f) v.db.outbox)
      ∙ counted-keep class f v.db.outbox e

  after_count :
      (f : ScopeFilter) (v : World) (faults : List Bool)
      → scope_filter parse_uuid s none ≡ some f
      → let w = record v { faults = faults } in Ends (Radius w) (radius_of (some f)) w
  unfolding query sql
  after_count f v [] e = (refl, counts f v e)
  after_count f v (true ∷ rest) e = (refl, refl)
  after_count f v (false ∷ rest) e = (refl, counts f v e)

  run-Radius :
      (o : Option ScopeFilter) (v : World)
      → scope_filter parse_uuid s none ≡ o
      → Ends (Radius v) (radius_of o) v
  run-Radius none v e = (refl, λ class. nothing_held class v.db.outbox e)
  run-Radius (some f) v e = after_count f v v.faults e

  -- The blast radius of a switch's scope and key, malformed keys and unknown scopes included: it
  -- changes no table, fails only where its query fails, and otherwise the counts beside a class add
  -- up to how many queued messages of that class the switch matches.
  pub blast_radius-Radius :
      (v : World) → Ends (Radius v) (blast_radius parse_uuid s.scope s.scope_key) v
  unfolding blast_radius
  blast_radius-Radius v =
      rw (radius_filter-scope_filter parse_uuid s)
        (run-Radius (scope_filter parse_uuid s none) v refl)
