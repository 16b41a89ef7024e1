-- ===== src/Tests/Hours.antt =====
-- Tests of the quiet hours.
use messgr.Base.{
  ◌+◌, ◌*◌, ◌<◌, String, ◌≡◌, refl, Option, none, some, arith, if◌then◌else◌, ◌==◌, nat_eq,
  string_eq, option_eq, list_eq,
}
use messgr.Zone.{Zone, utc, day_ms}
use messgr.QuietHours.Window.{
  end_date, search_local, reschedule_in, QuietHoursPolicy, resolve_local, resolve_reschedule,
  or_parse, in_window,
}
use messgr.QuietHours.Search.{Answers, resolve_local-Answers}
use messgr.QuietHours.Reschedule.{
  IsPolicy, Rescheduled, resolve_reschedule-Rescheduled, resolve_reschedule_later,
}

abbrev parse_utc : String → Option Zone
parse_utc s = if s == "UTC" then some utc else none

-- From 22:00 to 07:00.
abbrev night : QuietHoursPolicy
night = record { scope = "default"; scope_key = "*"; start_local = 79200000; end_local = 25200000 }

night-IsPolicy : IsPolicy night
night-IsPolicy = record { start_in_day = omega arith; end_in_day = omega arith }

utc_of : (tz : Zone) → some utc ≡ some tz → utc ≡ tz
utc_of tz e = cc

at_eleven : resolve_reschedule parse_utc (λ n. 0) 82800000 "UTC" "UTC" night ≡ some 111600000
unfolding resolve_reschedule reschedule_in resolve_local search_local in_window end_date
at_eleven = refl

resolve_local-Answers_example :
    Answers utc (1 * day_ms + 25200000) 240 (resolve_local utc 1 25200000)
resolve_local-Answers_example = resolve_local-Answers utc 1 25200000

resolve_reschedule-Rescheduled_example :
    (tz : Zone) × (or_parse (parse_utc "UTC") (parse_utc "UTC") ≡ some tz)
    × Rescheduled parse_utc (λ n. 0) (λ n. omega arith) 82800000 tz night 111600000
resolve_reschedule-Rescheduled_example =
    resolve_reschedule-Rescheduled parse_utc (λ n. 0) (λ n. omega arith) 82800000 111600000 "UTC"
      "UTC" night night-IsPolicy at_eleven

resolve_reschedule_later_example : 82800000 < 111600000
resolve_reschedule_later_example =
    resolve_reschedule_later parse_utc (λ n. 0) (λ n. omega arith) 82800000 111600000 utc "UTC"
      "UTC" night night-IsPolicy refl (λ n t h e. ground arith) at_eleven
