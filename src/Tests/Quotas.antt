-- ===== src/Tests/Quotas.antt =====
-- Tests of the producer quotas.
use messgr.Base.{ℕ, ◌-◌, ◌≤◌, ◌≡◌, refl, none, some, List, [], ◌∷◌, arith, lookup}
use messgr.Zone.{utc}
use messgr.Quota.Tracker.{
  key_eq, Key, EffectiveQuota, QuotaTracker, Counters, check_quota, admit, defer, hard,
  next_day_window_start, minute_window_start, day_window_start,
}
use messgr.Quota.Config.{ProducerQuotaOverride, apply_override, apply_overrides, override_key}
use messgr.Quota.Uplift.{Raised, apply_overrides-Raised, override_limits_unlimited}
use messgr.Quota.Bounds.{
  IsHard, admitted, sent_in_minute, sent_in_day, admitted-le-per_minute, admitted-le-per_day,
}

abbrev key : Key
key = record { producer_id = 7; channel = "sms"; class = "marketing" }

abbrev two_a_minute : EffectiveQuota
two_a_minute = record { per_minute = some 2; per_day = some 5; enforcement = hard }

abbrev no_day_limit : EffectiveQuota
no_day_limit = record { per_minute = none; per_day = none; enforcement = hard }

abbrev tracker : QuotaTracker
tracker = record { config = (key, two_a_minute) ∷ []; counters = [] }

abbrev three_checks : List (Key × ℕ)
three_checks = (key, 60001) ∷ (key, 60002) ∷ (key, 60003) ∷ []

abbrev uplift_to_ten : ProducerQuotaOverride
uplift_to_ten = record {
  producer_id = 7;
  channel = "sms";
  class = "marketing";
  per_day = 10;
  valid_from = 0;
  valid_to = 1000;
}

abbrev busy : Counters
busy = record {
  minute = record { window_start = none; sent = 0; blocked = 0 };
  day = record { window_start = none; sent = 12; blocked = 0 };
}

tracker-IsHard : IsHard utc key two_a_minute tracker
unfolding lookup
tracker-IsHard = (refl, refl, refl)

admitted-le-per_minute_example :
    admitted utc key tracker three_checks ≤ 2 - sent_in_minute tracker key 60000
unfolding minute_window_start
admitted-le-per_minute_example =
    admitted-le-per_minute utc key two_a_minute tracker three_checks 2 60000 tracker-IsHard refl
      (refl, (refl, (refl, tt)))

admitted-le-per_day_example : admitted utc key tracker three_checks ≤ 5 - sent_in_day tracker key 0
unfolding day_window_start
admitted-le-per_day_example =
    admitted-le-per_day utc key two_a_minute tracker three_checks 5 0 tracker-IsHard refl
      (refl, (refl, (refl, tt)))

apply_overrides-Raised_example :
    Raised
      (lookup key ((key, two_a_minute) ∷ []))
      (lookup key (apply_overrides ((key, two_a_minute) ∷ []) (uplift_to_ten ∷ [])))
apply_overrides-Raised_example =
    apply_overrides-Raised key ((key, two_a_minute) ∷ []) (uplift_to_ten ∷ [])

override_limits_unlimited_example :
    ((check_quota utc no_day_limit busy 5).1 ≡ admit)
    × ((r : EffectiveQuota) × (lookup
            (override_key uplift_to_ten)
            (apply_override ((key, no_day_limit) ∷ []) uplift_to_ten)
          ≡ some r)
        × ((check_quota utc r busy 5).1 ≡ defer (next_day_window_start utc 5)))
unfolding lookup
override_limits_unlimited_example =
    override_limits_unlimited utc no_day_limit busy 5 uplift_to_ten ((key, no_day_limit) ∷ []) refl
      refl refl refl (omega arith)
