-- ===== src/Ingest/Front.antt =====
-- `create_comms` of src/ingest/handler.rs before it accepts a request: retries and kill switches.
use messgr.Base.{
  ℕ, String, ◌≡◌, refl, sym, ap, ◌∙◌, inl, inr, Bool, true, false, ◌||◌, Option, none, some, ◌==◌,
  Bool-cases, is_some, nat_eq, string_eq, option_eq, list_eq,
}
use messgr.Store.Tables.{Db}
use messgr.Store.Exec.{raise, pure, World, Result, ok, err, Exec, ◌>>=◌, ◌>>◌, continue}
use messgr.Store.Steps.{Ends, Steady, Ends-if, Ends-now, Ends-query}
use messgr.KillSwitch.Cache.{blocking_scope}
use messgr.Customers.Deks.{Keystore}
use messgr.Ingest.Request.{
  IngestError, database, ResolutionInput, build_resolution_input, validate_channel, validate_class,
  validate_schedule, schedule_horizon_exceeded,
}
use messgr.Ingest.Repo.{reply, find_idempotent_reply}
use messgr.Ingest.Create.{
  Crates, Tenant, CreateCommsRequest, target_of, or_raise, of_result, unless_blocked,
  replay_or_accept, create_comms,
}

-- Nothing was created, and an answered id is the one that the key got before.
pub data Unchanged (producer_id : ℕ) (key : String) (v : World)
    : Result IngestError (Bool × ℕ) → World → Type 0 where
  refused : {e : IngestError} {w : World} → w.db ≡ v.db → Unchanged producer_id key v (err e) w
  replayed :
      (existing : ℕ) {w : World}
      → reply producer_id key v.db ≡ some existing
      → w.db ≡ v.db
      → Unchanged producer_id key v (ok (false, existing)) w

module _ {A B : Type 0} (P : Result IngestError B → World → Type 0) where
  Ends-or_raise :
      (o : Option A) (e : IngestError) (k : A → Exec IngestError B) (w : World)
      → P (err e) w
      → ((a : A) → Ends P (k a) w)
      → Ends P (or_raise o e >>= k) w
  Ends-or_raise none e k w stop next = stop
  Ends-or_raise (some a) e k w stop next = next a

  Ends-of_result :
      (r : Result IngestError A) (k : A → Exec IngestError B) (w : World)
      → ((e : IngestError) → P (err e) w)
      → ((a : A) → Ends P (k a) w)
      → Ends P (of_result r >>= k) w
  Ends-of_result (ok a) k w stop next = next a
  Ends-of_result (err e) k w stop next = stop e

module _ {B : Type 0} (P : Result IngestError B → World → Type 0) where
  Ends-validate_schedule :
      (scheduled_for : Option ℕ) (days : ℕ) (k : Exec IngestError B) (w : World)
      → ((u : World) → Steady w u → P (err (schedule_horizon_exceeded days)) u)
      → ((u : World) → Steady w u → Ends P k u)
      → Ends P (validate_schedule scheduled_for days >> k) w
  unfolding validate_schedule
  Ends-validate_schedule scheduled_for days k w stop next =
      Ends-now (λ r u. Ends P (continue r (λ (x : Unit {0}). k)) u) _ w
        (λ u s.
          Ends-if (λ r x. Ends P (continue r (λ (y : Unit {0}). k)) x) _
            (raise (schedule_horizon_exceeded days)) (pure tt) u (λ late. stop u s)
            (λ fits. next u s))

module _ (crates : Crates) (keystore : Keystore) (tenant : Tenant) (producer_id : ℕ)
    (body : CreateCommsRequest) where
  abbrev scope : Option String
  scope =
      blocking_scope crates.parse_uuid tenant.kill_switches
        (target_of crates keystore tenant producer_id body)

  front :
      (key : String) (input : ResolutionInput) (existing : Option ℕ) (v w : World)
      → reply producer_id key v.db ≡ existing
      → w.db ≡ v.db
      → (is_some existing || is_some scope) ≡ true
      → Ends
          (Unchanged producer_id key v)
          (replay_or_accept crates keystore tenant producer_id body key input existing)
          w
  front key input (some existing) v w e same h = replayed existing e same
  front key input none v w e same h = blocked scope h
    where
      blocked :
          (o : Option String)
          → is_some o ≡ true
          → Ends
              (Unchanged producer_id key v)
              (unless_blocked crates keystore tenant producer_id body key input o)
              w
      blocked none k = absurd (cc k)
      blocked (some s) k = refused same

  abbrev looked_up : String → ResolutionInput → Exec IngestError (Bool × ℕ)
  looked_up key input =
      find_idempotent_reply producer_id key
      >>= replay_or_accept crates keystore tenant producer_id body key input

  look_up :
      (key : String) (input : ResolutionInput) (v w : World)
      → Steady v w
      → (is_some (reply producer_id key v.db) || is_some scope) ≡ true
      → Ends (Unchanged producer_id key v) (looked_up key input) w
  unfolding find_idempotent_reply
  look_up key input v w s h =
      Ends-query (Unchanged producer_id key v) database
        (replay_or_accept crates keystore tenant producer_id body key input) (reply producer_id key)
        w (λ u k. refused (k.db ∙ s.db))
        (λ u k.
          front key input (reply producer_id key w.db) v u (ap (reply producer_id key) (sym s.db))
            (k.db ∙ s.db)
            (ap (λ (db : Db). is_some (reply producer_id key db) || is_some scope) s.db ∙ h))

  abbrev checks : String → Exec IngestError (Bool × ℕ)
  checks key =
      of_result (validate_channel body.channel)
      >> (of_result (validate_class body.class body.campaign_id)
          >> (of_result
                (build_resolution_input body.customer_id body.external_id body.external_id_system)
              >>= λ input.
                  validate_schedule body.scheduled_for tenant.schedule_horizon_days
                  >> looked_up key input))

  checked :
      (key : String) (v : World)
      → (is_some (reply producer_id key v.db) || is_some scope) ≡ true
      → Ends (Unchanged producer_id key v) (checks key) v
  checked key v h =
      let P = Unchanged producer_id key v in
      Ends-of_result P (validate_channel body.channel) _ v (λ e. refused refl)
        (λ a.
          Ends-of_result P (validate_class body.class body.campaign_id) _ v (λ e. refused refl)
            (λ b.
              Ends-of_result P
                (build_resolution_input body.customer_id body.external_id body.external_id_system) _
                v (λ e. refused refl)
                (λ input.
                  Ends-validate_schedule P body.scheduled_for tenant.schedule_horizon_days
                    (looked_up key input) v (λ u s. refused s.db)
                    (λ u s. look_up key input v u s h))))

  -- A request whose idempotency key was answered before, or that a kill switch of the tenant's cache
  -- blocks, leaves the database as it is: it fails, or it is answered with the earlier id, the latter
  -- also while a switch blocks it.
  pub create_comms-Unchanged :
      (key : String) (v : World)
      → (is_some (reply producer_id key v.db) || is_some scope) ≡ true
      → Ends
          (Unchanged producer_id key v)
          (create_comms crates keystore tenant producer_id body (some key))
          v
  unfolding create_comms find_idempotent_reply
  create_comms-Unchanged key v h = elim (Bool-cases (key == "")) [
    | inl e ↦ rw e (refused refl)
    | inr e ↦ rw e (checked key v h)
  ]
