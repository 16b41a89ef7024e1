-- ===== src/QuietHours/Reschedule.antt =====
-- The window test and the reschedule instant of `resolve_reschedule` in
-- src/quiet_hours/window.rs.
use messgr.Base.{
  ℕ, ◌+◌, ◌-◌, ◌*◌, ◌%◌, ◌≤◌, ◌<◌, String, ◌≡◌, subst, inl, inr, true, false, Option, none, some,
  arith, ltb, Option-cases,
}
use messgr.Zone.{earliest, Zone, day_ms}
use messgr.QuietHours.Search.{IsFirst, Answers, resolve_local-Answers}
use messgr.QuietHours.Window.{
  jitter_max_ms, or_parse, resolve_local, reschedule_in, resolve_reschedule, QuietHoursPolicy,
  in_window, end_date,
}

-- Both ends are times of day.
pub record IsPolicy (p : QuietHoursPolicy) : Type 0 where
  pub start_in_day : p.start_local < day_ms
  pub end_in_day : p.end_local < day_ms

-- Milliseconds from one time of day forward to another, around midnight.
abbrev pub forward : ℕ → ℕ → ℕ
forward from to = (to + day_ms - from) % day_ms

-- For windows inside a day and across midnight alike: a time of day is in the window exactly when
-- it comes, going forward around the clock from the window's start, before the window's end.
pub in_window-forward :
    (p : QuietHoursPolicy) (time : ℕ)
    → IsPolicy p
    → time < day_ms
    → in_window p time ≡ ltb (forward p.start_local time) (forward p.start_local p.end_local)
unfolding in_window
in_window-forward p time v h = ground arith

-- For a local time in the window, the instant to resolve is the next time that the local clock
-- reads the window's end: later than now, and no more than a day later.
pub end_date_next :
    (p : QuietHoursPolicy) (local_now : ℕ)
    → IsPolicy p
    → in_window p (local_now % day_ms) ≡ true
    → (end_date p local_now * day_ms + p.end_local
        ≡ local_now + forward (local_now % day_ms) p.end_local)
      × (local_now < end_date p local_now * day_ms + p.end_local)
unfolding in_window end_date
end_date_next p local_now v h = ground arith

module _ (parse_zone : String → Option Zone) (random_range : ℕ → ℕ)
    (in_range : (n : ℕ) → random_range n ≤ n) where
  -- Where a rescheduled send comes from.
  pub record Rescheduled (now : ℕ) (tz : Zone) (p : QuietHoursPolicy) (r : ℕ) : Type 0 where
    pub inside : in_window p (tz.to_local now % day_ms) ≡ true
    pub window_end : ℕ
    pub first :
        IsFirst tz (tz.to_local now + forward (tz.to_local now % day_ms) p.end_local) 240 window_end
    pub after_end : window_end ≤ r
    pub before_jitter : r ≤ window_end + jitter_max_ms

  reschedule_in-cases :
      (tz : Zone) (now : ℕ) (p : QuietHoursPolicy) (r : ℕ)
      → reschedule_in parse_zone random_range tz now p ≡ some r
      → (in_window p (tz.to_local now % day_ms) ≡ true)
        × ((e : ℕ) × (resolve_local tz (end_date p (tz.to_local now)) p.end_local ≡ some e)
            × (r ≡ e + random_range jitter_max_ms))
  unfolding reschedule_in
  reschedule_in-cases tz now p r h = ground arith

  IsFirst-of_Answers :
      (tz : Zone) (start last e : ℕ) (answer : Option ℕ)
      → Answers tz start last answer
      → answer ≡ some e
      → IsFirst tz start last e
  IsFirst-of_Answers tz start last e answer (inl (t, found, f)) h =
      let same : t ≡ e = ground arith in subst (IsFirst tz start last) same f
  IsFirst-of_Answers tz start last e answer (inr (gone, f)) h = cc

  reschedule_in-Rescheduled :
      (tz : Zone) (now : ℕ) (p : QuietHoursPolicy) (r : ℕ)
      → IsPolicy p
      → reschedule_in parse_zone random_range tz now p ≡ some r
      → Rescheduled now tz p r
  reschedule_in-Rescheduled tz now p r v h =
      let (inside, (e, found, sum)) = reschedule_in-cases tz now p r h in
      let (next, later) = end_date_next p (tz.to_local now) v inside in
      let first : IsFirst tz (end_date p (tz.to_local now) * day_ms + p.end_local) 240 e =
        IsFirst-of_Answers tz _ 240 e _
          (resolve_local-Answers tz (end_date p (tz.to_local now)) p.end_local) found in
      record {
        inside = inside;
        window_end = e;
        first = subst (λ n. IsFirst tz n 240 e) next first;
        after_end = omega arith;
        before_jitter = omega (arith, in_range jitter_max_ms);
      }

  -- For a policy whose ends are times of day, a send is only rescheduled when one of the two time
  -- zones parses and the local time of day is in the window; then to at most thirty minutes after
  -- the next end of the window on that zone's clock, or after the first later minute that the
  -- clock shows.
  pub resolve_reschedule-Rescheduled :
      (now r : ℕ) (customer_tz tenant_default_tz : String) (p : QuietHoursPolicy)
      → IsPolicy p
      → resolve_reschedule parse_zone random_range now customer_tz tenant_default_tz p ≡ some r
      → (tz : Zone) × (or_parse (parse_zone customer_tz) (parse_zone tenant_default_tz) ≡ some tz)
        × Rescheduled now tz p r
  unfolding resolve_reschedule
  resolve_reschedule-Rescheduled now r c t p v h =
      elim (Option-cases (or_parse (parse_zone c) (parse_zone t))) [
        | inl e ↦ ground (arith, e)
        | inr (tz, e) ↦ (tz, e, reschedule_in-Rescheduled tz now p r v (ground (arith, e, h)))
      ]

  -- Outside the window, or where neither zone parses, the send proceeds now.
  pub resolve_reschedule-outside :
      (now : ℕ) (customer_tz tenant_default_tz : String) (p : QuietHoursPolicy)
      → ((tz : Zone)
          → or_parse (parse_zone customer_tz) (parse_zone tenant_default_tz) ≡ some tz
          → in_window p (tz.to_local now % day_ms) ≡ false)
      → resolve_reschedule parse_zone random_range now customer_tz tenant_default_tz p ≡ none
  unfolding resolve_reschedule reschedule_in
  resolve_reschedule-outside now c t p h =
      elim (Option-cases (or_parse (parse_zone c) (parse_zone t))) [
        | inl e ↦ ground (arith, e)
        | inr (tz, e) ↦ ground (arith, e, h tz e)
      ]

  -- In a zone whose clock shows what is ahead of it only after now, a rescheduled send is in the
  -- future.
  pub resolve_reschedule_later :
      (now r : ℕ) (tz : Zone) (customer_tz tenant_default_tz : String) (p : QuietHoursPolicy)
      → IsPolicy p
      → parse_zone customer_tz ≡ some tz
      → ((n t : ℕ) → tz.to_local now < n → earliest (tz.from_local n) ≡ some t → now < t)
      → resolve_reschedule parse_zone random_range now customer_tz tenant_default_tz p ≡ some r
      → now < r
  resolve_reschedule_later now r tz c t p v known ahead h =
      let found : reschedule_in parse_zone random_range tz now p ≡ some r =
        unfold resolve_reschedule in ground (arith, known, h) in
      let s = reschedule_in-Rescheduled tz now p r v found in
      let (next, later) = end_date_next p (tz.to_local now) v s.inside in
      let t = ahead _ s.window_end (omega arith) s.first.there in omega arith
