-- ===== src/Quota/Uplift.antt =====
-- What an active override does to a producer's ceilings in the configuration cache of
-- src/producer_quota/tracker.rs.
use messgr.Base.{
  ℕ, ◌≤◌, ◌≡◌, refl, inl, inr, true, false, Option, none, some, List, [], ◌∷◌, arith, if◌then◌else◌,
  ◌==◌, beq_refl, beq_eq, Bool-cases, Option-cases, lookup, lookup-put, nat_eq, string_eq,
  option_eq,
}
use messgr.Zone.{Zone}
use messgr.Quota.Tracker.{
  Key, EffectiveQuota, Counters, admit, defer, reached, hard, check_quota, next_day_window_start,
  key_eq,
}
use messgr.Quota.Config.{
  ProducerQuotaOverride, override_key, uplift, apply_override, apply_overrides,
}

abbrev pub DayRaised : Option ℕ → Option ℕ → Type 0
DayRaised none after = Unit {0}
DayRaised (some base) none = ⊥
DayRaised (some base) (some after) = base ≤ after

-- What may change under a key: an existing day ceiling rises, and nothing else moves.
abbrev pub Raised : Option EffectiveQuota → Option EffectiveQuota → Type 0
Raised none none = Unit {0}
Raised none (some r) = ⊥
Raised (some q) none = ⊥
Raised (some q) (some r) =
    (r.enforcement ≡ q.enforcement) × (r.per_minute ≡ q.per_minute) × DayRaised q.per_day r.per_day

Raised-refl : (o : Option EffectiveQuota) → Raised o o
Raised-refl none = tt
Raised-refl (some q) = (refl, refl, ground arith)

Raised-trans : (a b c : Option EffectiveQuota) → Raised a b → Raised b c → Raised a c
Raised-trans none none none h k = tt
Raised-trans none none (some r) h k = elim k [ ]
Raised-trans none (some q) c h k = elim h [ ]
Raised-trans (some p) none c h k = elim h [ ]
Raised-trans (some p) (some q) none h k = elim k [ ]
Raised-trans (some p) (some q) (some r) h k = ground arith

abbrev uplifted : EffectiveQuota → ProducerQuotaOverride → EffectiveQuota
uplifted q o = record q { per_day = uplift q.per_day o.per_day }

uplifted-Raised :
    (q : EffectiveQuota) (o : ProducerQuotaOverride) → Raised (some q) (some (uplifted q o))
uplifted-Raised q o = (refl, refl, ground arith)

lookup-apply_override :
    (key : Key) (merged : List (Key × EffectiveQuota)) (o : ProducerQuotaOverride)
    (q : EffectiveQuota)
    → lookup (override_key o) merged ≡ some q
    → lookup key (apply_override merged o)
      ≡ (if override_key o == key then some (uplifted q o) else lookup key merged)
unfolding apply_override
lookup-apply_override key merged o q e =
    rw (e, apply_override) (lookup-put (override_key o) key _ merged)

module _ (key : Key) where
  apply_override-Raised :
      (merged : List (Key × EffectiveQuota)) (o : ProducerQuotaOverride)
      → Raised (lookup key merged) (lookup key (apply_override merged o))
  apply_override-Raised merged o = elim (Option-cases (lookup (override_key o) merged)) [
    | inl e ↦ unfold apply_override in rw (e, apply_override) (Raised-refl (lookup key merged))
    | inr (q, e) ↦ elim (Bool-cases (override_key o == key)) [
      | inl same ↦
          let here : lookup key merged ≡ some q = rw (← beq_eq (override_key o) key same) e in
          rw (lookup-apply_override key merged o q e, same, here) (uplifted-Raised q o)
      | inr other ↦
          rw (lookup-apply_override key merged o q e, other) (Raised-refl (lookup key merged))
    ]
  ]

  -- Whatever overrides are active, no key gains or loses a quota, no minute ceiling or
  -- enforcement changes, and a day ceiling that exists is never lowered.
  pub apply_overrides-Raised :
      (merged : List (Key × EffectiveQuota)) (overrides : List ProducerQuotaOverride)
      → Raised (lookup key merged) (lookup key (apply_overrides merged overrides))
  unfolding apply_overrides
  apply_overrides-Raised merged [] = Raised-refl (lookup key merged)
  apply_overrides-Raised merged (o ∷ rest) =
      Raised-trans (lookup key merged) (lookup key (apply_override merged o)) _
        (apply_override-Raised merged o) (apply_overrides-Raised (apply_override merged o) rest)

-- A key whose quota is hard and has no day ceiling at all is admitted at any daily volume while
-- its minute ceiling is not reached; an override for it introduces a ceiling, so from
-- `o.per_day` messages on the same entry is deferred to the next day.
pub override_limits_unlimited :
    (tz : Zone) (q : EffectiveQuota) (entry : Counters) (now : ℕ) (o : ProducerQuotaOverride)
    (merged : List (Key × EffectiveQuota))
    → lookup (override_key o) merged ≡ some q
    → q.enforcement ≡ hard
    → q.per_day ≡ none
    → reached q.per_minute entry.minute.sent ≡ false
    → o.per_day ≤ entry.day.sent
    → ((check_quota tz q entry now).1 ≡ admit)
      × ((r : EffectiveQuota) × (lookup (override_key o) (apply_override merged o) ≡ some r)
          × ((check_quota tz r entry now).1 ≡ defer (next_day_window_start tz now)))
unfolding check_quota
override_limits_unlimited tz q entry now o merged found enforced unlimited calm over =
    let is_hard : (q.enforcement == hard) ≡ true = rw enforced refl in
    (
      ground arith,
      (
        uplifted q o,
        rw (lookup-apply_override (override_key o) merged o q found, beq_refl (override_key o))
            (ground arith),
        ground (arith, is_hard),
      ),
    )
