-- ===== src/Quota/Bounds.antt =====
-- The ceilings that `check_and_record` of src/producer_quota/tracker.rs enforces, over any
-- sequence of checks.
use messgr.Base.{
  ℕ, ◌+◌, ◌-◌, ◌≤◌, max, ◌≡◌, inl, inr, true, false, none, some, List, [], ◌∷◌, arith,
  if◌then◌else◌, ◌==◌, beq_refl, beq_eq, Bool-cases, Option-cases, All, get_or, lookup, put,
  lookup-put, nat_eq, string_eq, option_eq,
}
use messgr.Zone.{Zone}
use messgr.Quota.Tracker.{
  reached, sent_once, no_counters, Key, EffectiveQuota, Window, Counters, QuotaDecision,
  QuotaTracker, admit, soft_breach, defer, hard, auth, check_quota, check_and_record, record_admit,
  rolled, minute_window_start, day_window_start, key_eq,
}

abbrev is_admit : QuotaDecision → ℕ
is_admit admit = 1
is_admit soft_breach = 0
is_admit (defer t) = 0

-- What a window has counted since `start`, if that is the window it is in.
abbrev pub counted : Window → ℕ → ℕ
counted w start = if w.window_start == some start then w.sent else 0

abbrev entry_of : QuotaTracker → Key → Counters
entry_of q key = get_or (lookup key q.counters) no_counters

-- How many messages the tracker has counted for a key in the minute, or the day, that starts
-- at `start`.
unfoldable pub sent_in_minute : QuotaTracker → Key → ℕ → ℕ
sent_in_minute q key start = counted (entry_of q key).minute start

unfoldable pub sent_in_day : QuotaTracker → Key → ℕ → ℕ
sent_in_day q key start = counted (entry_of q key).day start

module _ (tz : Zone) where
  config-check :
      (q : QuotaTracker) (k : Key) (now : ℕ) → (check_and_record tz q k now).0.config ≡ q.config
  unfolding check_and_record
  config-check q k now = ground arith

  -- How many of a sequence of checks are admitted for a key.
  pub admitted : Key → QuotaTracker → List (Key × ℕ) → ℕ
  admitted key q [] = 0
  admitted key q ((k, now) ∷ rest) =
      let (q', decision) = check_and_record tz q k now in
      (if k == key then is_admit decision else 0) + admitted key q' rest

  -- The entry that a check leaves under its key.
  pub checked : QuotaTracker → Key → ℕ → Counters
  checked q k now =
      if k.class == auth then sent_once tz (rolled tz q k now) else elim (lookup k q.config) [
        | none ↦ sent_once tz (rolled tz q k now)
        | some effective ↦ (check_quota tz effective (rolled tz q k now) now).0
      ]

  counters-check :
      (q : QuotaTracker) (k : Key) (now : ℕ)
      → (check_and_record tz q k now).0.counters ≡ put k (checked q k now) q.counters
  unfolding check_and_record checked record_admit
  counters-check q k now = elim (Bool-cases (k.class == auth)) [
    | inl e ↦ ground (arith, e)
    | inr e ↦ elim (Option-cases (lookup k q.config)) [
      | inl c ↦ ground (arith, e, c)
      | inr (eff, c) ↦ ground (arith, e, c)
    ]
  ]

  -- A check changes the counters of its own key only.
  pub lookup-check :
      (q : QuotaTracker) (k key : Key) (now : ℕ)
      → lookup key (check_and_record tz q k now).0.counters
        ≡ (if k == key then some (checked q k now) else lookup key q.counters)
  lookup-check q k key now =
      rw (counters-check q k now) (lookup-put k key (checked q k now) q.counters)

  rolled_minute :
      (q : QuotaTracker) (k : Key) (now : ℕ)
      → ((rolled tz q k now).minute.window_start ≡ some (minute_window_start now))
        × ((rolled tz q k now).minute.sent ≡ sent_in_minute q k (minute_window_start now))
  unfolding rolled sent_in_minute
  rolled_minute q k now = ground arith

  rolled_day :
      (q : QuotaTracker) (k : Key) (now : ℕ)
      → ((rolled tz q k now).day.window_start ≡ some (day_window_start tz now))
        × ((rolled tz q k now).day.sent ≡ sent_in_day q k (day_window_start tz now))
  unfolding rolled sent_in_day
  rolled_day q k now = ground arith

  -- A hard quota's check on one entry: exactly the admitted messages are counted, and none that
  -- would pass a ceiling.
  check_quota-hard :
      (eff : EffectiveQuota) (c : Counters) (now : ℕ)
      → (eff.enforcement == hard) ≡ true
      → let (c', d) = check_quota tz eff c now in
        (c'.minute.window_start ≡ c.minute.window_start)
        × (c'.day.window_start ≡ c.day.window_start)
        × (c'.minute.sent ≡ c.minute.sent + is_admit d)
        × (c'.day.sent ≡ c.day.sent + is_admit d)
        × (is_admit d ≤ 1)
        × (reached eff.per_minute c.minute.sent ≡ true → is_admit d ≡ 0)
        × (reached eff.per_day c.day.sent ≡ true → is_admit d ≡ 0)
  unfolding check_quota
  check_quota-hard eff c now h = ground arith

  module _ (key : Key) (eff : EffectiveQuota) where
    -- The key is under a hard quota and is not the authentication class.
    abbrev pub IsHard : QuotaTracker → Type 0
    IsHard q =
        (lookup key q.config ≡ some eff)
        × ((eff.enforcement == hard) ≡ true)
        × ((key.class == auth) ≡ false)

    check-IsHard :
        (q : QuotaTracker) (k : Key) (now : ℕ) → IsHard q → IsHard (check_and_record tz q k now).0
    check-IsHard q k now h = rw (config-check q k now) h

    checked_hard :
        (q : QuotaTracker) (now : ℕ)
        → IsHard q
        → let (c', d) = check_quota tz eff (rolled tz q key now) now in
          (checked q key now ≡ c') × ((check_and_record tz q key now).1 ≡ d)
    unfolding checked check_and_record
    checked_hard q now h = ground (arith, h)

    own_minute :
        (q : QuotaTracker) (now limit : ℕ)
        → IsHard q
        → eff.per_minute ≡ some limit
        → (sent_in_minute (check_and_record tz q key now).0 key (minute_window_start now)
            ≡ sent_in_minute q key (minute_window_start now)
              + is_admit (check_and_record tz q key now).1)
          × (sent_in_minute (check_and_record tz q key now).0 key (minute_window_start now)
              ≤ max limit (sent_in_minute q key (minute_window_start now)))
    unfolding sent_in_minute
    own_minute q now limit h e = ground (
      arith,
      lookup-check q key key now,
      beq_refl key,
      checked_hard q now h,
      rolled_minute q key now,
      check_quota-hard eff (rolled tz q key now) now h.1,
      beq_refl (minute_window_start now),
    )

    own_minute_at :
        (q : QuotaTracker) (k : Key) (now limit m : ℕ)
        → IsHard q
        → eff.per_minute ≡ some limit
        → minute_window_start now ≡ m
        → (k == key) ≡ true
        → (sent_in_minute (check_and_record tz q k now).0 key m
            ≡ sent_in_minute q key m + is_admit (check_and_record tz q k now).1)
          × (sent_in_minute (check_and_record tz q k now).0 key m
              ≤ max limit (sent_in_minute q key m))
    own_minute_at q k now limit m h e t same =
        rw (beq_eq k key same, ← t) (own_minute q now limit h e)

    other_minute :
        (q : QuotaTracker) (k : Key) (now m : ℕ)
        → (k == key) ≡ false
        → sent_in_minute (check_and_record tz q k now).0 key m ≡ sent_in_minute q key m
    unfolding sent_in_minute
    other_minute q k now m e = rw (lookup-check q k key now, e)

    -- For a key under a hard quota with a minute ceiling: checks inside one minute, in any order and
    -- mixed with other keys' checks, admit at most what is left of the ceiling.
    pub admitted-le-per_minute :
        (q : QuotaTracker) (calls : List (Key × ℕ)) (limit m : ℕ)
        → IsHard q
        → eff.per_minute ≡ some limit
        → All (λ call. minute_window_start call.1 ≡ m) calls
        → admitted key q calls ≤ limit - sent_in_minute q key m
    unfolding admitted
    admitted-le-per_minute q [] limit m h e t = omega arith
    admitted-le-per_minute q ((k, now) ∷ rest) limit m h e t =
        let q' : QuotaTracker = (check_and_record tz q k now).0 in
        let ih : admitted key q' rest ≤ limit - sent_in_minute q' key m =
          admitted-le-per_minute q' rest limit m (check-IsHard q k now h) e t.1 in
        elim (Bool-cases (k == key)) [
          | inl same ↦ ground (arith, same, own_minute_at q k now limit m h e t.0 same, ih)
          | inr other ↦ ground (arith, other, other_minute q k now m other, ih)
        ]

    own_day :
        (q : QuotaTracker) (now limit : ℕ)
        → IsHard q
        → eff.per_day ≡ some limit
        → (sent_in_day (check_and_record tz q key now).0 key (day_window_start tz now)
            ≡ sent_in_day q key (day_window_start tz now)
              + is_admit (check_and_record tz q key now).1)
          × (sent_in_day (check_and_record tz q key now).0 key (day_window_start tz now)
              ≤ max limit (sent_in_day q key (day_window_start tz now)))
    unfolding sent_in_day
    own_day q now limit h e = ground (
      arith,
      lookup-check q key key now,
      beq_refl key,
      checked_hard q now h,
      rolled_day q key now,
      check_quota-hard eff (rolled tz q key now) now h.1,
      beq_refl (day_window_start tz now),
    )

    own_day_at :
        (q : QuotaTracker) (k : Key) (now limit m : ℕ)
        → IsHard q
        → eff.per_day ≡ some limit
        → day_window_start tz now ≡ m
        → (k == key) ≡ true
        → (sent_in_day (check_and_record tz q k now).0 key m
            ≡ sent_in_day q key m + is_admit (check_and_record tz q k now).1)
          × (sent_in_day (check_and_record tz q k now).0 key m ≤ max limit (sent_in_day q key m))
    own_day_at q k now limit m h e t same = rw (beq_eq k key same, ← t) (own_day q now limit h e)

    other_day :
        (q : QuotaTracker) (k : Key) (now m : ℕ)
        → (k == key) ≡ false
        → sent_in_day (check_and_record tz q k now).0 key m ≡ sent_in_day q key m
    unfolding sent_in_day
    other_day q k now m e = rw (lookup-check q k key now, e)

    -- For a key under a hard quota with a day ceiling: checks inside one local day, in any order and
    -- mixed with other keys' checks, admit at most what is left of the ceiling.
    pub admitted-le-per_day :
        (q : QuotaTracker) (calls : List (Key × ℕ)) (limit m : ℕ)
        → IsHard q
        → eff.per_day ≡ some limit
        → All (λ call. day_window_start tz call.1 ≡ m) calls
        → admitted key q calls ≤ limit - sent_in_day q key m
    unfolding admitted
    admitted-le-per_day q [] limit m h e t = omega arith
    admitted-le-per_day q ((k, now) ∷ rest) limit m h e t =
        let q' : QuotaTracker = (check_and_record tz q k now).0 in
        let ih : admitted key q' rest ≤ limit - sent_in_day q' key m =
          admitted-le-per_day q' rest limit m (check-IsHard q k now h) e t.1 in
        elim (Bool-cases (k == key)) [
          | inl same ↦ ground (arith, same, own_day_at q k now limit m h e t.0 same, ih)
          | inr other ↦ ground (arith, other, other_day q k now m other, ih)
        ]
