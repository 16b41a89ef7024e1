-- ===== src/QuietHours/Window.antt =====
-- src/quiet_hours/window.rs and the policy of model.rs. A time of day is a number of
-- milliseconds below `day_ms`. `Tz::from_str` is the parameter `parse_zone`, and
-- `rand::rng().random_range(0..=n)` is the parameter `random_range`, at `n`.
use messgr.Base.{
  ℕ, zero, suc, ◌+◌, ◌*◌, ◌/◌, ◌%◌, String, Bool, ◌&&◌, ◌||◌, Option, none, some, ltb, leb,
  if◌then◌else◌,
}
use messgr.Zone.{Zone, nonexistent, single, ambiguous, minute_ms, day_ms}

abbrev pub jitter_max_ms : ℕ
jitter_max_ms = 1800000

-- `MAX_GAP_SEARCH`, four hours.
abbrev pub max_gap_search : ℕ
max_gap_search = 14400000

-- One more than the rounds that the search makes before it passes its deadline.
abbrev pub search_fuel : ℕ
search_fuel = 242

pub record QuietHoursPolicy : Type 0 where
  pub scope : String
  pub scope_key : String
  pub start_local : ℕ
  pub end_local : ℕ

-- The loop of `resolve_local`. It returns within `search_fuel` rounds.
unfoldable pub search_local : Zone → ℕ → ℕ → ℕ → Option ℕ
search_local tz zero candidate deadline = none
search_local tz (suc fuel) candidate deadline =
    let rest = search_local tz fuel (candidate + minute_ms) deadline in
    elim (tz.from_local candidate) [
      | single t ↦ some t
      | ambiguous earliest latest ↦ some earliest
      | nonexistent ↦ if ltb deadline (candidate + minute_ms) then none else rest
    ]

unfoldable pub resolve_local : Zone → ℕ → ℕ → Option ℕ
unfolding search_local
resolve_local tz date time =
    search_local tz search_fuel (date * day_ms + time) (date * day_ms + time + max_gap_search)

unfoldable pub wraps : QuietHoursPolicy → Bool
wraps policy = ltb policy.end_local policy.start_local

unfoldable pub in_window : QuietHoursPolicy → ℕ → Bool
unfolding wraps
in_window policy time =
    if wraps policy
    then leb policy.start_local time || ltb time policy.end_local
    else leb policy.start_local time && ltb time policy.end_local

unfoldable pub end_date : QuietHoursPolicy → ℕ → ℕ
unfolding wraps
end_date policy local_now =
    if wraps policy && leb policy.start_local (local_now % day_ms)
    then local_now / day_ms + 1
    else local_now / day_ms

abbrev add_jitter : ℕ → Option ℕ → Option ℕ
add_jitter jitter none = none
add_jitter jitter (some window_end) = some (window_end + jitter)

abbrev pub or_parse : Option Zone → Option Zone → Option Zone
or_parse (some tz) other = some tz
or_parse none other = other

module _ (parse_zone : String → Option Zone) (random_range : ℕ → ℕ) where
  unfoldable pub reschedule_in : Zone → ℕ → QuietHoursPolicy → Option ℕ
  reschedule_in tz now policy =
      let local_now = tz.to_local now in
      if in_window policy (local_now % day_ms)
      then add_jitter (random_range jitter_max_ms)
          (resolve_local tz (end_date policy local_now) policy.end_local)
      else none

  unfoldable pub resolve_reschedule : ℕ → String → String → QuietHoursPolicy → Option ℕ
  unfolding reschedule_in
  resolve_reschedule now customer_tz tenant_default_tz policy =
      elim (or_parse (parse_zone customer_tz) (parse_zone tenant_default_tz)) [
        | none ↦ none
        | some tz ↦ reschedule_in tz now policy
      ]
