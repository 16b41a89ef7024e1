-- ===== src/Quota/Tracker.antt =====
-- src/producer_quota/tracker.rs, model.rs and the queries of repo.rs that the tracker uses.
-- Counters are numbers: `i64` cannot overflow within one window. A limit is a number too: a
-- negative `i32` limit behaves as 0 in every comparison and maximum below.
use messgr.Base.{
  ℕ, ◌+◌, ◌*◌, ◌/◌, String, ◌≡◌, ◌↔◌, Bool, true, false, ◌&&◌, ◌||◌, Option, none, some, List,
  arith, leb, if◌then◌else◌, PartialEq, ◌==◌, beq_refl, beq_eq, get_or, lookup, put, nat_eq,
  string_eq, option_eq,
}
use messgr.Zone.{Zone, earliest, minute_ms, day_ms}

pub record Key : Type 0 where
  pub producer_id : ℕ
  pub channel : String
  pub class : String

abbrev pub key_beq : Key → Key → Bool
key_beq a b = (a.producer_id == b.producer_id) && (a.channel == b.channel) && (a.class == b.class)

pub key_beq_iff : (a b : Key) → (key_beq a b ≡ true) ↔ (a ≡ b)
key_beq_iff a b = (
  λ h. ground (arith, beq_eq a.channel b.channel, beq_eq a.class b.class),
  λ h. rw h (ground (arith, beq_refl b.channel, beq_refl b.class)),
)

instance abbrev pub key_eq : PartialEq Key
key_eq = record { equals = key_beq; same_iff = key_beq_iff }

abbrev pub auth : String
auth = "auth"

abbrev pub hard : String
hard = "hard"

abbrev pub soft : String
soft = "soft"

abbrev pub minute : String
minute = "minute"

abbrev pub day : String
day = "day"

pub record EffectiveQuota : Type 0 where
  pub per_minute : Option ℕ
  pub per_day : Option ℕ
  pub enforcement : String

-- The three fields that `Counters` has for each of its two windows.
pub record Window : Type 0 where
  pub window_start : Option ℕ
  pub sent : ℕ
  pub blocked : ℕ

pub record Counters : Type 0 where
  pub minute : Window
  pub day : Window

abbrev no_window : Window
no_window = record { window_start = none; sent = 0; blocked = 0 }

-- `Counters::default()`
abbrev pub no_counters : Counters
no_counters = record { minute = no_window; day = no_window }

pub data QuotaDecision : Type 0 where
  admit soft_breach : QuotaDecision
  defer : ℕ → QuotaDecision

pub record QuotaTracker : Type 0 where
  pub config : List (Key × EffectiveQuota)
  pub counters : List (Key × Counters)

abbrev pub set_counters : QuotaTracker → Key → Counters → QuotaTracker
set_counters q key c = record q { counters = put key c q.counters }

-- `now.duration_trunc(TimeDelta::minutes(1))`
unfoldable pub minute_window_start : ℕ → ℕ
minute_window_start now = now / minute_ms * minute_ms

unfoldable pub roll_window : Window → ℕ → Window
roll_window w fresh =
    if w.window_start == some fresh
    then w
    else record { window_start = some fresh; sent = 0; blocked = 0 }

abbrev pub add_sent : Window → Window
add_sent w = record w { sent = w.sent + 1 }

abbrev pub add_blocked : Window → Window
add_blocked w = record w { blocked = w.blocked + 1 }

abbrev pub reached : Option ℕ → ℕ → Bool
reached none sent = false
reached (some limit) sent = leb limit sent

module _ (tz : Zone) where
  unfoldable pub resolve_local_midnight : ℕ → ℕ
  resolve_local_midnight naive_midnight =
      get_or (earliest (tz.from_local naive_midnight)) naive_midnight

  unfoldable pub day_window_start : ℕ → ℕ
  unfolding resolve_local_midnight
  day_window_start now = resolve_local_midnight (tz.to_local now / day_ms * day_ms)

  unfoldable pub next_day_window_start : ℕ → ℕ
  unfolding resolve_local_midnight
  next_day_window_start now = resolve_local_midnight ((tz.to_local now / day_ms + 1) * day_ms)

  -- The entry of a key, both windows rolled to the present.
  unfoldable pub rolled : QuotaTracker → Key → ℕ → Counters
  unfolding roll_window
  rolled q key now =
      let entry : Counters = get_or (lookup key q.counters) no_counters in
      record {
        minute = roll_window entry.minute (minute_window_start now);
        day = roll_window entry.day (day_window_start now);
      }

  abbrev pub sent_once : Counters → Counters
  sent_once c = record { minute = add_sent c.minute; day = add_sent c.day }

  unfoldable pub record_admit : QuotaTracker → Key → ℕ → QuotaTracker
  unfolding rolled
  record_admit q key now = set_counters q key (sent_once (rolled q key now))

  -- The part of `check_and_record` for a key that has a quota, from the rolled entry on.
  unfoldable pub check_quota : EffectiveQuota → Counters → ℕ → Counters × QuotaDecision
  check_quota effective entry now =
      let day_breach = reached effective.per_day entry.day.sent in
      let minute_breach = reached effective.per_minute entry.minute.sent in
      if day_breach || minute_breach
      then (if effective.enforcement == hard
          then (if day_breach
              then (record entry { day = add_blocked entry.day }, defer (next_day_window_start now))
              else (
                record entry { minute = add_blocked entry.minute },
                defer (minute_window_start now + minute_ms),
              ))
          else (sent_once entry, soft_breach))
      else (sent_once entry, admit)

  unfoldable pub check_and_record : QuotaTracker → Key → ℕ → QuotaTracker × QuotaDecision
  unfolding record_admit check_quota
  check_and_record q key now =
      if key.class == auth then (record_admit q key now, admit) else elim (lookup key q.config) [
        | none ↦ (record_admit q key now, admit)
        | some effective ↦
            let (entry, decision) = check_quota effective (rolled q key now) now in
            (set_counters q key entry, decision)
      ]
