-- ===== src/Zone.antt =====
-- Time zones. The program takes them from the crate `chrono-tz`, which is the parameter `Zone`
-- of the models that use it. An instant and a local date-and-time are numbers of milliseconds;
-- a local date is a number of days.
use messgr.Base.{ℕ, Option, none, some}

-- `chrono::LocalResult`, what a local date-and-time stands for.
pub data LocalResult : Type 0 where
  nonexistent : LocalResult
  single : ℕ → LocalResult
  ambiguous : ℕ → ℕ → LocalResult

pub record Zone : Type 0 where
  -- `with_timezone(&tz).naive_local()`
  pub to_local : ℕ → ℕ
  -- `TimeZone::from_local_datetime`
  pub from_local : ℕ → LocalResult

abbrev pub minute_ms : ℕ
minute_ms = 60000

abbrev pub day_ms : ℕ
day_ms = 86400000

-- `LocalResult::earliest`
abbrev pub earliest : LocalResult → Option ℕ
earliest nonexistent = none
earliest (single t) = some t
earliest (ambiguous t u) = some t

-- The zone UTC.
abbrev pub utc : Zone
utc = record { to_local = λ t. t; from_local = single }
