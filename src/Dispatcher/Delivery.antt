-- ===== src/Dispatcher/Delivery.antt =====
-- The rest of src/dispatcher/worker.rs try_process: the quota and quiet-hours gates, the message
-- that is read and decrypted, its send, and what follows the provider's answer.
use messgr.Base.{ℕ, ◌≤◌, ◌≡◌, refl, sym, ap, subst, ◌∙◌, Option, none, some, List, arith, get_or}
use messgr.Store.Tables.{OutboxRow}
use messgr.Store.Exec.{
  ok, next_call, pure, World, Message, Result, err, Exec, continue, utc_now, ◌>>=◌,
}
use messgr.Store.Steps.{Steady, Ends, Ends-if, Ends-now, Ends-query, Steady-trans}
use messgr.Customers.Deks.{ResolveError, Keystore, get_or_create_dek}
use messgr.Customers.DekFrame.{Keyed, Keyed-trans, Steady-Keyed, get_or_create_dek-Keeps}
use messgr.Dispatcher.Queries.{
  missing_payload, DispatchError, database, encryption, dek, ciphertexts, customer_timezone,
  load_customer_timezone, load_ciphertexts,
}
use messgr.Quota.Tracker.{check_and_record, QuotaDecision, admit, soft_breach, defer}
use messgr.QuietHours.Window.{resolve_reschedule, QuietHoursPolicy}
use messgr.Dispatcher.Worker.{
  or_dek, quiet_hours, quota_key, Context, Step, quota_gate, check_quota_now, quiet_gate,
  load_message, decrypt_text, or_raise, after_quota, after_quiet,
}
use messgr.Dispatcher.Outcome.{
  Deferral, over_quota, in_quiet_hours, Reached, Outcome, WithinQuota, OutsideQuiet, IsOwn,
}
use messgr.Dispatcher.Gates.{Reached-Steady, Reached-same, reschedule-Outcome, err-Outcome}

module _ {E B : Type 0} (P : Result E B → World → Type 0) where
  pub Ends-call :
      (k : ℕ → Exec E B) (w : World)
      → ((call : ℕ) (u : World) → Steady w u → Ends P (k call) u)
      → Ends P (next_call >>= k) w
  unfolding next_call
  Ends-call k w next =
      next w.calls _ (record { db = refl; sent = refl; quota = refl; later = omega arith })

module _ {B A : Type 0} (P : Result DispatchError B → World → Type 0) where
  Ends-raise :
      (o : Option A) (e : DispatchError) (k : A → Exec DispatchError B) (w : World)
      → P (err e) w
      → ((a : A) → o ≡ some a → Ends P (k a) w)
      → Ends P (or_raise o e >>= k) w
  Ends-raise none e k w bad good = bad
  Ends-raise (some a) e k w bad good = good a refl

module _ {B : Type 0} (P : Result DispatchError B → World → Type 0) (ctx : Context)
    (row : OutboxRow) where
  Ends-decrypt :
      (key blob : List ℕ) (k : List ℕ → Exec DispatchError B) (w : World)
      → ((e : DispatchError) → P (err e) w)
      → ((text : List ℕ)
          → ctx.decrypt key (ctx.aad row.comms_request_id) blob ≡ some text
          → Ends P (k text) w)
      → Ends P (decrypt_text ctx row key blob >>= k) w
  unfolding decrypt_text
  Ends-decrypt key blob k w bad good =
      Ends-raise (λ r u. Ends P (continue r k) u) _ encryption _ w (bad _)
        (λ text found.
          Ends-if (λ r u. Ends P (continue r k) u) (ctx.is_utf8 text) _ _ w (λ _. good text found)
            (λ _. bad _))

module _ {B : Type 0} (P : Result DispatchError B → World → Type 0) where
  after_dek :
      (k : List ℕ → Exec DispatchError B) (r : Result ResolveError (List ℕ)) (u w : World)
      → Keyed w u
      → ((e : DispatchError) (u : World) → Keyed w u → P (err e) u)
      → ((key : List ℕ) (u : World) → Keyed w u → Ends P (k key) u)
      → Ends P (λ (x : World). continue (elim r [ ok a ↦ ok a | err e ↦ err dek ]) k x) u
  after_dek k (ok key) u w h bad good = good key u h
  after_dek k (err e) u w h bad good = bad dek u h

  Ends-dek :
      (keystore : Keystore) (customer_id : ℕ) (k : List ℕ → Exec DispatchError B) (w : World)
      → ((e : DispatchError) (u : World) → Keyed w u → P (err e) u)
      → ((key : List ℕ) (u : World) → Keyed w u → Ends P (k key) u)
      → Ends P (or_dek (get_or_create_dek keystore customer_id) >>= k) w
  Ends-dek keystore customer_id k w bad good =
      after_dek k (get_or_create_dek keystore customer_id w).0 _ w
        (get_or_create_dek-Keeps keystore customer_id w) bad good

module _ {B : Type 0} (P : Result DispatchError B → World → Type 0) (ctx : Context)
    (row : OutboxRow) where
  -- Reading the message fails or gives the row's own; nothing but a customer's key is written.
  pub Ends-load :
      (k : Message → Exec DispatchError B) (w : World)
      → ((e : DispatchError) (u : World) → Keyed w u → P (err e) u)
      → ((m : Message) (u : World) → Keyed w u → IsOwn ctx row w m → Ends P (k m) u)
      → Ends P (load_message ctx row >>= k) w
  unfolding load_message load_ciphertexts
  Ends-load k w bad good =
      Ends-query M database _ (ciphertexts row.created_at row.comms_request_id) w
        (λ u h. bad _ u (Steady-Keyed h))
        (λ u h. Ends-raise M _ _ _ u (bad _ u (Steady-Keyed h)) (λ texts found.
          Ends-dek M ctx.keystore row.customer_id _ u
            (λ e x hx. bad e x (Keyed-trans (Steady-Keyed h) hx))
            (λ key x hx.
              Ends-decrypt M ctx row key texts.destination_ciphertext _ x
                (λ e. bad e x (Keyed-trans (Steady-Keyed h) hx))
                (λ destination d.
                  Ends-raise M texts.payload_ciphertext (missing_payload row.comms_request_id) _ x
                    (bad _ x (Keyed-trans (Steady-Keyed h) hx))
                    (λ payload p.
                      Ends-decrypt M ctx row key payload
                        (λ body. pure (record { destination = destination; body = body })) x
                        (λ e. bad e x (Keyed-trans (Steady-Keyed h) hx))
                        (λ body b. good _ x (Keyed-trans (Steady-Keyed h) hx) (record {
                          key = key;
                          texts = texts;
                          payload = payload;
                          found = found;
                          has_payload = p;
                          destination = d;
                          body = b;
                        })))))))
    where
      M : Result DispatchError Message → World → Type 0
      M r u = Ends P (continue r k) u

module _ (ctx : Context) (row : OutboxRow) (v : World) where
  after_quota-Outcome :
      (rest : Step) (d : QuotaDecision) (w : World)
      → Reached v w
      → ((t : ℕ) → d ≡ defer t → Deferral ctx row v w.clock t)
      → (((t : ℕ) → ¬ (d ≡ defer t)) → Ends (Outcome ctx row v) rest w)
      → Ends (Outcome ctx row v) (after_quota row rest d) w
  after_quota-Outcome rest admit w h why next = next (λ t e. cc)
  after_quota-Outcome rest soft_breach w h why next = next (λ t e. cc)
  after_quota-Outcome rest (defer t) w h why next = reschedule-Outcome ctx row v t (why t refl) h

  pub quota_gate-Outcome :
      (rest : Step) (w : World)
      → Reached v w
      → w.quota ≡ v.quota
      → ((u : World)
          → Reached v u
          → WithinQuota ctx row v u.clock
          → w.clock ≤ u.clock
          → Ends (Outcome ctx row v) rest u)
      → Ends (Outcome ctx row v) (quota_gate ctx row rest) w
  unfolding quota_gate check_quota_now utc_now
  quota_gate-Outcome rest w h q next =
      let now = (utc_now {E = DispatchError} w).1.clock in
      let late : v.clock ≤ now = let before = h.later in omega arith in
      let read : (t : ℕ)
          → (check_and_record ctx.quota_zone w.quota (quota_key row) now).1 ≡ defer t
          → (check_and_record ctx.quota_zone v.quota (quota_key row) now).1 ≡ defer t =
        λ t e.
          ap (λ tracker. (check_and_record ctx.quota_zone tracker (quota_key row) now).1) (sym q)
          ∙ e in
      after_quota-Outcome rest _ (check_quota_now ctx row w).1
        (record { noted = h.noted; sent = h.sent; later = late })
        (λ t e. over_quota now late (omega arith) (read t e))
        (λ admitted.
          next _ (record { noted = h.noted; sent = h.sent; later = late })
            (record {
              now = now;
              not_before = late;
              not_after = omega arith;
              admitted = λ t e. admitted t (
                  ap (λ tracker. (check_and_record ctx.quota_zone tracker (quota_key row) now).1) q
                  ∙ e);
            })
            (omega arith))

  after_quiet-Outcome :
      (rest : Step) (t : Option ℕ) (w : World)
      → Reached v w
      → ((n : ℕ) → t ≡ some n → Deferral ctx row v w.clock n)
      → (t ≡ none → Ends (Outcome ctx row v) rest w)
      → Ends (Outcome ctx row v) (after_quiet row rest t) w
  after_quiet-Outcome rest none w h why next = next refl
  after_quiet-Outcome rest (some t) w h why next = reschedule-Outcome ctx row v t (why t refl) h

  quiet_hours-Outcome :
      (rest : Step) (o : Option QuietHoursPolicy) (w : World)
      → ctx.quiet_hours_policy ≡ o
      → Reached v w
      → ((u : World)
          → Reached v u
          → ((policy : QuietHoursPolicy) → o ≡ some policy → OutsideQuiet ctx row v u.clock policy)
          → w.clock ≤ u.clock
          → Ends (Outcome ctx row v) rest u)
      → Ends (Outcome ctx row v) (quiet_hours ctx row rest o) w
  unfolding load_customer_timezone customer_timezone
  quiet_hours-Outcome rest none w is h next = next w h (λ policy e. cc) (omega arith)
  quiet_hours-Outcome rest (some policy) w is h next =
      Ends-query (Outcome ctx row v) database _ (customer_timezone row.customer_id) w
        (λ u k. err-Outcome ctx row v h k)
        (λ u k. Ends-now (Outcome ctx row v) _ u (λ x kx.
          Ends-call (Outcome ctx row v) _ x (λ call y ky.
            after_quiet-Outcome rest _ y (Reached-Steady h (Steady-trans k (Steady-trans kx ky)))
              (λ n e.
                in_quiet_hours policy x.clock call is (Reached-Steady h (Steady-trans k kx)).later
                  ky.later
                  (ap
                      (λ zone.
                        resolve_reschedule ctx.parse_zone (ctx.random_range call) x.clock
                          (get_or zone ctx.default_timezone) ctx.default_timezone policy)
                      (sym (Reached-same (customer_timezone row.customer_id) (λ es ks d. refl) h))
                    ∙ e))
              (λ awake.
                next y (Reached-Steady h (Steady-trans k (Steady-trans kx ky)))
                  (λ p e. subst (OutsideQuiet ctx row v y.clock) (cc) (record {
                    now = x.clock;
                    not_before = (Reached-Steady h (Steady-trans k kx)).later;
                    not_after = ky.later;
                    call = call;
                    awake =
                        ap
                          (λ zone.
                            resolve_reschedule ctx.parse_zone (ctx.random_range call) x.clock
                              (get_or zone ctx.default_timezone) ctx.default_timezone policy)
                          (sym
                            (Reached-same (customer_timezone row.customer_id) (λ es ks d. refl) h))
                        ∙ awake;
                  }))
                  (Steady-trans k (Steady-trans kx ky)).later))))

  pub quiet_gate-Outcome :
      (rest : Step) (w : World)
      → Reached v w
      → ((u : World)
          → Reached v u
          → ((policy : QuietHoursPolicy)
              → ctx.quiet_hours_policy ≡ some policy
              → OutsideQuiet ctx row v u.clock policy)
          → w.clock ≤ u.clock
          → Ends (Outcome ctx row v) rest u)
      → Ends (Outcome ctx row v) (quiet_gate ctx row rest) w
  unfolding quiet_gate
  quiet_gate-Outcome rest w h next = quiet_hours-Outcome rest ctx.quiet_hours_policy w refl h next
