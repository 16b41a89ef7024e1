-- ===== src/QuietHours/Search.antt =====
-- The bounded search of `resolve_local` in src/quiet_hours/window.rs.
use messgr.Base.{
  ℕ, zero, suc, ◌+◌, ◌*◌, ◌≤◌, ◌<◌, ◌≡◌, sym, ap, ◌∙◌, ◌⊎◌, inl, inr, false, Option, none, some,
  arith, ltb, if◌then◌else◌, Option-cases,
}
use messgr.Zone.{Zone, earliest, minute_ms, day_ms}
use messgr.QuietHours.Window.{search_local, resolve_local, max_gap_search, search_fuel}

-- What the search looks for: the first minute from `start` on, at most `last` minutes later, at
-- which the clock stands once or twice, and the earlier of its instants.
pub record IsFirst (tz : Zone) (start last t : ℕ) : Type 0 where
  pub minutes : ℕ
  pub near : minutes ≤ last
  pub there : earliest (tz.from_local (start + minutes * minute_ms)) ≡ some t
  pub before : (j : ℕ) → j < minutes → earliest (tz.from_local (start + j * minute_ms)) ≡ none

module _ (tz : Zone) where
  abbrev valid : ℕ → ℕ → Option ℕ
  valid start j = earliest (tz.from_local (start + j * minute_ms))

  valid_zero : (start : ℕ) → valid start 0 ≡ earliest (tz.from_local start)
  valid_zero start =
      let e : start + 0 * minute_ms ≡ start = omega arith in ap (λ n. earliest (tz.from_local n)) e

  valid-suc : (start j : ℕ) → valid (start + minute_ms) j ≡ valid start (suc j)
  valid-suc start j =
      let e : start + minute_ms + j * minute_ms ≡ start + suc j * minute_ms = omega arith in
      ap (λ n. earliest (tz.from_local n)) e

  gone_before :
      (start last : ℕ)
      → earliest (tz.from_local start) ≡ none
      → ((j : ℕ) → j ≤ last → valid (start + minute_ms) j ≡ none)
      → (j : ℕ) → j ≤ suc last
      → valid start j ≡ none
  gone_before start last gone rest zero h = valid_zero start ∙ gone
  gone_before start last gone rest (suc j) h = sym (valid-suc start j) ∙ rest j (omega arith)

  IsFirst-after :
      (start last t : ℕ)
      → earliest (tz.from_local start) ≡ none
      → IsFirst tz (start + minute_ms) last t
      → IsFirst tz start (suc last) t
  IsFirst-after start last t gone f = record {
    minutes = suc f.minutes;
    near = omega arith;
    there = sym (valid-suc start f.minutes) ∙ f.there;
    before = λ j lt. before_at j lt;
  }
    where
      before_at : (j : ℕ) → j < suc f.minutes → valid start j ≡ none
      before_at zero lt = valid_zero start ∙ gone
      before_at (suc j) lt = sym (valid-suc start j) ∙ f.before j (omega arith)

  IsFirst-here :
      (start last t : ℕ) → earliest (tz.from_local start) ≡ some t → IsFirst tz start last t
  IsFirst-here start last t found = record {
    minutes = 0;
    near = omega arith;
    there = valid_zero start ∙ found;
    before = λ j lt. absurd (omega arith);
  }

  -- What a search has found, or that there was nothing to find.
  abbrev pub Answers : ℕ → ℕ → Option ℕ → Type 0
  Answers start last answer =
      ((t : ℕ) × (answer ≡ some t) × IsFirst tz start last t)
      ⊎ ((answer ≡ none) × ((j : ℕ) → j ≤ last → valid start j ≡ none))

  -- The search's one step past a moment that the clock skips.
  search_step :
      (fuel start deadline : ℕ)
      → earliest (tz.from_local start) ≡ none
      → search_local tz (suc fuel) start deadline ≡ (
          if ltb deadline (start + minute_ms)
          then none
          else search_local tz fuel (start + minute_ms) deadline)
  unfolding search_local
  search_step fuel start deadline gone = ground (arith, gone)

  search_hit :
      (fuel start deadline t : ℕ)
      → earliest (tz.from_local start) ≡ some t
      → search_local tz (suc fuel) start deadline ≡ some t
  unfolding search_local
  search_hit fuel start deadline t found = ground (arith, found)

  Answers-after :
      (start last : ℕ) (answer : Option ℕ)
      → earliest (tz.from_local start) ≡ none
      → Answers (start + minute_ms) last answer
      → Answers start (suc last) answer
  Answers-after start last answer gone (inl (t, e, f)) =
      inl (t, e, IsFirst-after start last t gone f)
  Answers-after start last answer gone (inr (e, f)) = inr (e, gone_before start last gone f)

  Answers-skipped :
      (fuel start last deadline : ℕ)
      → deadline ≡ start + last * minute_ms
      → last < suc fuel
      → earliest (tz.from_local start) ≡ none
      → ((n : ℕ)
          → deadline ≡ start + minute_ms + n * minute_ms
          → n < fuel
          → Answers (start + minute_ms) n (search_local tz fuel (start + minute_ms) deadline))
      → Answers start last (search_local tz (suc fuel) start deadline)
  Answers-skipped fuel start zero deadline e h gone ih = inr (
    ground (arith, search_step fuel start deadline gone),
    λ j le. let z : j ≡ 0 = omega arith in rw z (valid_zero start ∙ gone),
  )
  Answers-skipped fuel start (suc last) deadline e h gone ih =
      let within : ltb deadline (start + minute_ms) ≡ false = ground arith in
      rw (search_step fuel start deadline gone, within)
        (Answers-after start last _ gone (ih last (omega arith) (omega arith)))

  -- With enough fuel the search answers for all minutes up to its deadline.
  search_local-Answers :
      (fuel start last deadline : ℕ)
      → deadline ≡ start + last * minute_ms
      → last < fuel
      → Answers start last (search_local tz fuel start deadline)
  search_local-Answers zero start last deadline e h = absurd (omega arith)
  search_local-Answers (suc fuel) start last deadline e h =
      elim (Option-cases (earliest (tz.from_local start))) [
        | inl gone ↦
            Answers-skipped fuel start last deadline e h gone
              (λ n. search_local-Answers fuel (start + minute_ms) n deadline)
        | inr (t, found) ↦
            inl (t, search_hit fuel start deadline t found, IsFirst-here start last t found)
      ]

  -- For every zone, date and time of day, `resolve_local` returns the earlier instant of the first
  -- minute from there on that the local clock shows, if one of the next 240 does, and `none` if
  -- the clock skips all of them. The fuel never runs out.
  pub resolve_local-Answers :
      (date time : ℕ) → Answers (date * day_ms + time) 240 (resolve_local tz date time)
  unfolding resolve_local
  resolve_local-Answers date time =
      search_local-Answers search_fuel (date * day_ms + time) 240
        (date * day_ms + time + max_gap_search) (omega arith) (omega arith)
