-- ===== src/Quota/Config.antt =====
-- `QuotaTracker::refresh_config` of src/producer_quota/tracker.rs, with the rows of model.rs and
-- the queries `list` and `load_active_overrides` of repo.rs.
use messgr.Base.{
  ℕ, max, String, ◌&&◌, Option, none, some, List, [], ◌∷◌, ltb, leb, keep, lookup, put,
}
use messgr.Quota.Tracker.{Key, EffectiveQuota, QuotaTracker, key_eq}

pub record ProducerQuota : Type 0 where
  pub producer_id : ℕ
  pub channel : String
  pub class : String
  pub per_minute : Option ℕ
  pub per_day : Option ℕ
  pub enforcement : String

pub record ProducerQuotaOverride : Type 0 where
  pub producer_id : ℕ
  pub channel : String
  pub class : String
  pub per_day : ℕ
  pub valid_from : ℕ
  pub valid_to : ℕ

unfoldable pub load_active_overrides : ℕ → List ProducerQuotaOverride → List ProducerQuotaOverride
load_active_overrides now rows = keep (λ o. leb o.valid_from now && ltb now o.valid_to) rows

abbrev pub key_of : ProducerQuota → Key
key_of q = record { producer_id = q.producer_id; channel = q.channel; class = q.class }

abbrev pub override_key : ProducerQuotaOverride → Key
override_key o = record { producer_id = o.producer_id; channel = o.channel; class = o.class }

abbrev effective_of : ProducerQuota → EffectiveQuota
effective_of q = record {
  per_minute = q.per_minute;
  per_day = q.per_day;
  enforcement = q.enforcement;
}

unfoldable pub collect_quotas :
    List (Key × EffectiveQuota) → List ProducerQuota → List (Key × EffectiveQuota)
collect_quotas merged [] = merged
collect_quotas merged (q ∷ rest) = collect_quotas (put (key_of q) (effective_of q) merged) rest

-- `q.per_day.map_or(o.per_day, |base| base.max(o.per_day))`
abbrev pub uplift : Option ℕ → ℕ → Option ℕ
uplift none per_day = some per_day
uplift (some base) per_day = some (max base per_day)

unfoldable pub apply_override :
    List (Key × EffectiveQuota) → ProducerQuotaOverride → List (Key × EffectiveQuota)
apply_override merged o = elim (lookup (override_key o) merged) [
  | none ↦ merged
  | some q ↦ put (override_key o) (record q { per_day = uplift q.per_day o.per_day }) merged
]

unfoldable pub apply_overrides :
    List (Key × EffectiveQuota) → List ProducerQuotaOverride → List (Key × EffectiveQuota)
unfolding apply_override
apply_overrides merged [] = merged
apply_overrides merged (o ∷ rest) = apply_overrides (apply_override merged o) rest

-- `none` stands for a query that failed: the cache then stays as it was.
unfoldable pub refresh_config :
    QuotaTracker
    → Option (List ProducerQuota)
    → Option (List ProducerQuotaOverride)
    → ℕ
    → QuotaTracker
unfolding collect_quotas apply_overrides load_active_overrides
refresh_config q none overrides now = q
refresh_config q (some quotas) none now = q
refresh_config q (some quotas) (some overrides) now = record q {
  config = apply_overrides (collect_quotas [] quotas) (load_active_overrides now overrides);
}
