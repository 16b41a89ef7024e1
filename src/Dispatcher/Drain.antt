-- ===== src/Dispatcher/Drain.antt =====
-- src/dispatcher/drain.rs, and the rounds of `run_channel_loop` in src/dispatcher/worker.rs: the
-- tasks that claim rows and process them. A loop that runs forever is given a number of rounds.
-- What other tasks change between two rounds is a function of the rounds that are left.
use messgr.Base.{
  ℕ, zero, suc, ◌+◌, ◌*◌, String, Bool, true, false, Option, none, some, List, [], ◌∷◌,
  if◌then◌else◌, get_or,
}
use messgr.Store.Tables.{OutboxRow}
use messgr.Store.Exec.{utc_now, World, Result, ok, err}
use messgr.Dispatcher.Queries.{DispatchError, Terminal, write_terminal}
use messgr.Dispatcher.Switches.{claim_exclusion}
use messgr.Dispatcher.Worker.{Context, terminal, is_expired, process_one}
use messgr.KillSwitch.Model.{KillSwitch}
use messgr.KillSwitch.Cache.{
  ActiveSet, ChannelExclusion, no_exclusion, active_snapshot, exclusion_for_channel,
}
use messgr.Dispatcher.Claim.{claim, claim_for_scope}

abbrev pub max_write_terminal_attempts : ℕ
max_write_terminal_attempts = 5

abbrev pub lease_duration : ℕ
lease_duration = 2 * 60 * 1000

abbrev pub claim_batch_size : ℕ
claim_batch_size = 20

abbrev pub is_ok : {E A : Type 0} → Result E A → Bool
is_ok (ok a) = true
is_ok (err e) = false

-- The terminal write, tried again after an error while attempts are left.
unfoldable pub write_attempts : ℕ → Terminal → World → World
write_attempts zero t w = w
write_attempts (suc attempts) t w = elim (is_ok (write_terminal t w).0) [
  | true ↦ (write_terminal t w).1
  | false ↦ write_attempts attempts t (write_terminal t w).1
]

unfoldable pub write_expired : OutboxRow → World → World
unfolding write_attempts
write_expired row = write_attempts max_write_terminal_attempts (terminal row "expired" none none)

unfoldable pub write_discarded : OutboxRow → World → World
unfolding write_attempts
write_discarded row =
    write_attempts max_write_terminal_attempts (terminal row "discarded" none none)

-- One batch of a drain, with the time at which the batch began.
unfoldable pub drain_batch : Context → ℕ → List OutboxRow → World → World
drain_batch ctx now [] w = w
drain_batch ctx now (row ∷ rows) w =
    drain_batch ctx now rows
      (if is_expired row now then write_expired row w else process_one ctx row w)

unfoldable pub discard_batch : List OutboxRow → World → World
discard_batch [] w = w
discard_batch (row ∷ rows) w = discard_batch rows (write_discarded row w)

unfoldable pub process_batch : Context → List OutboxRow → World → World
process_batch ctx [] w = w
process_batch ctx (row ∷ rows) w = process_batch ctx rows (process_one ctx row w)

-- What the tasks of one process share, at the round with so many rounds left.
pub record Tasks : Type 0 where
  pub parse_uuid : String → Option ℕ
  pub engaged : ℕ → ActiveSet
  pub draining : ℕ → List KillSwitch
  pub locked : ℕ → ℕ → Bool

abbrev lease_end : World → ℕ
lease_end w = (utc_now {E = DispatchError} w).1.clock + lease_duration

abbrev after_now : World → World
after_now w = (utc_now {E = DispatchError} w).1

-- `none` where the rounds ran out. An error of the claim is tried again.
unfoldable pub drain_released_scope :
    Tasks → Context → String → KillSwitch → ℕ → ℕ → World → Option World
unfolding drain_batch
drain_released_scope tasks ctx channel s release_rate zero w = none
drain_released_scope tasks ctx channel s release_rate (suc rounds) w =
    let exclusion =
      exclusion_for_channel tasks.parse_uuid (active_snapshot (tasks.engaged rounds)) channel in
    let (batch, w') =
      claim_for_scope tasks.parse_uuid (some channel) s release_rate (lease_end w) exclusion
        (tasks.locked rounds) (after_now w) in
    elim batch [
      | err e ↦ drain_released_scope tasks ctx channel s release_rate rounds w'
      | ok [] ↦ some w'
      | ok (row ∷ rows) ↦
          drain_released_scope tasks ctx channel s release_rate rounds
            (drain_batch ctx (after_now w').clock (row ∷ rows) (after_now w'))
    ]

unfoldable pub discard_engaged_scope : Tasks → KillSwitch → ℕ → ℕ → World → Option World
unfolding discard_batch
discard_engaged_scope tasks s batch_size zero w = none
discard_engaged_scope tasks s batch_size (suc rounds) w =
    let (batch, w') =
      claim_for_scope tasks.parse_uuid none s batch_size (lease_end w) no_exclusion
        (tasks.locked rounds) (after_now w) in
    elim batch [
      | err e ↦ discard_engaged_scope tasks s batch_size rounds w'
      | ok [] ↦ some w'
      | ok (row ∷ rows) ↦
          discard_engaged_scope tasks s batch_size rounds (discard_batch (row ∷ rows) w')
    ]

-- `run_channel_loop`, stopped after a number of claims. A failed claim is tried again with the
-- lease and the exclusion that it had.
unfoldable pub run_channel :
    Tasks → Context → String → Option (ℕ × ChannelExclusion) → ℕ → World → World
unfolding process_batch claim_exclusion
run_channel tasks ctx channel retry zero w = w
run_channel tasks ctx channel retry (suc rounds) w =
    let (leased_until, exclusion) = get_or retry (
      lease_end w,
      claim_exclusion tasks.parse_uuid (tasks.engaged rounds) (tasks.draining rounds) channel,
    ) in
    let (batch, w') =
      claim channel claim_batch_size leased_until exclusion (tasks.locked rounds) (after_now w) in
    elim batch [
      | err e ↦ run_channel tasks ctx channel (some (leased_until, exclusion)) rounds w'
      | ok rows ↦ run_channel tasks ctx channel none rounds (process_batch ctx rows w')
    ]
