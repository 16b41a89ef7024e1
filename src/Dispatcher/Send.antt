-- ===== src/Dispatcher/Send.antt =====
-- The end of src/dispatcher/worker.rs try_process, from the last cancellation check over the send
-- to what follows the provider's answer, and the whole of it.
use messgr.Base.{
  ℕ, ◌+◌, ◌≤◌, ◌≡◌, refl, sym, ap, ◌∙◌, ◌⊎◌, inl, inr, Bool, true, false, ◌&&◌, Option, none, some,
  ◌∷◌, arith, ltb, if◌then◌else◌, and_true, ltb→lt,
}
use messgr.Store.Tables.{Db, OutboxRow}
use messgr.Store.Exec.{next_call, World, Message, Result, ok, err, continue, ◌>>=◌}
use messgr.Store.Steps.{
  Steady, Ends, Ends-if, Ends-now, Ends-query, Ends-last, Steady-refl, Steady-trans,
}
use messgr.Dispatcher.Queries.{
  reschedule, ciphertexts, DispatchError, database, reschedule_retry, is_cancelled, cancelled,
  row_or_fail,
}
use messgr.Dispatcher.Atomic.{Recorded, write_terminal-Recorded, rolled_back, written}
use messgr.Dispatcher.Worker.{
  process_one, Context, SenderError, SendOutcome, stop, terminal, send_message, after_send,
  send_stage, try_process, is_retryable, backoff_delay, max_send_attempts, provider_status_of,
}
use messgr.Dispatcher.Outcome.{
  waits, deferred, given_up, Noted, Reached, Outcome, cancelled_late, accepted, retried, rejected,
  unrecorded, WithinQuota, Permitted, IsOwn, Delivered,
}
use messgr.Customers.DekFrame.{Keyed}
use messgr.Dispatcher.Gates.{
  Reached-Keyed, Reached-Steady, Reached-same, stop-Outcome, err-Outcome, expiry_gate-Outcome,
  suppression_gate-Outcome, verification_gate-Outcome, consent_gate-Outcome,
}
use messgr.Dispatcher.Delivery.{Ends-call, Ends-load, quota_gate-Outcome, quiet_gate-Outcome}

module _ (ctx : Context) (row : OutboxRow) (v : World) where
  record Gone (m : Message) (w : World) : Type 0 where
    pub noted : Noted v.db w.db
    pub later : v.clock ≤ w.clock
    pub delivered : Delivered ctx row v m w

  unmoved :
      {m : Message} {w u : World}
      → Delivered ctx row v m w
      → w.clock ≤ u.clock
      → u.sent ≡ w.sent
      → Delivered ctx row v m u
  unmoved d k e = record {
    last = d.last;
    not_after = let before = d.not_after in omega arith;
    permitted = d.permitted;
    own = d.own;
    sent = e ∙ d.sent;
  }

  gone_error :
      {e : DispatchError} {m : Message} {w u : World}
      → Gone m w
      → Steady w u
      → Outcome ctx row v (err e) u
  gone_error g k =
      unrecorded _ (g.noted.0, g.noted.1, k.db ∙ g.noted.2) (unmoved g.delivered k.later k.sent)

  not_before : {m : Message} {w : World} {now : ℕ} → Gone m w → w.clock ≤ now → v.clock ≤ now
  not_before g k = let before = g.later in omega arith

  recorded_accepted :
      {m : Message} {w u : World} {r : Result DispatchError (Unit {0})} (call : ℕ) (o : SendOutcome)
      → Gone m w
      → ctx.send call m ≡ ok o
      → Recorded (terminal row "sent" (some o.provider_ref) (some o.provider_status)) w r u
      → Outcome ctx row v r u
  recorded_accepted call o g e (rolled_back k) = gone_error g k
  recorded_accepted {m = m} {w = w} call o g e (written now later by db sent quota) =
      accepted m call o (unmoved g.delivered (omega arith) sent) e
        (w.db, g.noted, (now, not_before g later, by, db))

  recorded_rejected :
      {m : Message} {w u : World} {r : Result DispatchError (Unit {0})} (call : ℕ) (e : SenderError)
      → Gone m w
      → ctx.send call m ≡ err e
      → (is_retryable e && ltb row.attempts max_send_attempts) ≡ false
      → Recorded (terminal row "failed" none (provider_status_of ctx e)) w r u
      → Outcome ctx row v r u
  recorded_rejected call e g answer final (rolled_back k) = gone_error g k
  recorded_rejected {m = m} {w = w} call e g answer final (written now later by db sent quota) =
      rejected m call e (unmoved g.delivered (omega arith) sent) answer final
        (w.db, g.noted, (now, not_before g later, by, db))

  after_send-Outcome :
      {m : Message} (w : World) (call : ℕ) (answer : Result SenderError SendOutcome)
      → Gone m w
      → ctx.send call m ≡ answer
      → Ends (Outcome ctx row v) (after_send ctx row answer) w
  unfolding after_send reschedule_retry backoff_delay
  after_send-Outcome w call (ok o) g e = recorded_accepted call o g e (write_terminal-Recorded _ _)
  after_send-Outcome {m = m} w call (err e) g answer =
      Ends-if (Outcome ctx row v) _ _ _ w
        (λ again. Ends-now (Outcome ctx row v) _ w (λ u k.
          Ends-call (Outcome ctx row v) _ u (λ n x kx.
            Ends-last (Outcome ctx row v) database _ x
              (λ y ky. gone_error g (Steady-trans k (Steady-trans kx ky)))
              (λ y cy.
                retried m call e (u.clock + backoff_delay (ctx.random_range n) row.attempts)
                  (unmoved g.delivered
                    (let a = k.later in let b = kx.later in let c = cy.later in omega arith)
                    (cy.sent ∙ kx.sent ∙ k.sent))
                  answer (and_true (is_retryable e) (ltb row.attempts max_send_attempts) again).0
                  (ltb→lt _ _
                    (and_true (is_retryable e) (ltb row.attempts max_send_attempts) again).1)
                  (let before = g.later in let after = k.later in omega arith)
                  (
                    w.db,
                    g.noted,
                    cy.db
                        ∙ ap
                            (λ (d : Db). record d {
                              outbox =
                                  reschedule row.comms_request_id
                                    (u.clock + backoff_delay (ctx.random_range n) row.attempts)
                                    d.outbox;
                            })
                            (kx.db ∙ k.db),
                  )))))
        (λ final. recorded_rejected call e g answer final (write_terminal-Recorded _ _))

  IsOwn-before : {m : Message} {w : World} → Reached v w → IsOwn ctx row w m → IsOwn ctx row v m
  unfolding ciphertexts
  IsOwn-before h own = record {
    key = own.key;
    texts = own.texts;
    payload = own.payload;
    found =
        sym (Reached-same (ciphertexts row.created_at row.comms_request_id) (λ es ks d. refl) h)
        ∙ own.found;
    has_payload = own.has_payload;
    destination = own.destination;
    body = own.body;
  }

  deliver-Outcome :
      (last : ℕ) (m : Message) (dead : Option Bool) (w : World)
      → last ≤ w.clock
      → Reached v w
      → IsOwn ctx row v m
      → cancelled row.comms_request_id v.db ≡ dead
      → (cancelled row.comms_request_id v.db ≡ some false → Permitted ctx row v last)
      → Ends
          (Outcome ctx row v)
          (row_or_fail dead >>= λ dead.
            if dead then stop row "cancelled" else (send_message ctx m >>= after_send ctx row))
          w
  unfolding send_message next_call
  deliver-Outcome last m none w soon h own is permitted = err-Outcome ctx row v h (Steady-refl w)
  deliver-Outcome last m (some true) w soon h own is permitted =
      stop-Outcome ctx row v h (cancelled_late is)
  deliver-Outcome last m (some false) w soon h own is permitted =
      after_send-Outcome _ w.calls (ctx.send w.calls m)
        (record {
          noted = h.noted;
          later = h.later;
          delivered = record {
            last = last;
            not_after = soon;
            permitted = permitted is;
            own = own;
            sent = ap (λ s. m ∷ s) h.sent;
          };
        })
        refl

  keyed_error :
      {e : DispatchError} {w u : World} → Reached v w → Keyed w u → Outcome ctx row v (err e) u
  keyed_error h k = waits (Reached-Keyed h k).noted (k.sent ∙ h.sent)

  send_stage-Outcome :
      (last : ℕ) (w : World)
      → last ≤ w.clock
      → Reached v w
      → (cancelled row.comms_request_id v.db ≡ some false → Permitted ctx row v last)
      → Ends (Outcome ctx row v) (send_stage ctx row) w
  unfolding send_stage is_cancelled cancelled
  send_stage-Outcome last w soon h permitted =
      Ends-load (Outcome ctx row v) ctx row _ w (λ e u k. keyed_error h k)
        (λ m u k own.
          Ends-query
            (λ r x.
              Ends (Outcome ctx row v)
                (continue r (λ dead.
                  if dead
                  then stop row "cancelled"
                  else (send_message ctx m >>= after_send ctx row)))
                x)
            database row_or_fail (cancelled row.comms_request_id) u
            (λ x kx. err-Outcome ctx row v (Reached-Keyed h k) kx)
            (λ x kx.
              deliver-Outcome last m (cancelled row.comms_request_id u.db) x
                (let a = k.later in let b = kx.later in omega arith)
                (Reached-Steady (Reached-Keyed h k) kx) (IsOwn-before h own)
                (sym (
                  Reached-same (cancelled row.comms_request_id) (λ es ks d. refl)
                    (Reached-Keyed h k)))
                permitted))

WithinQuota-later :
    {ctx : Context} {row : OutboxRow} {v : World} {s t : ℕ}
    → s ≤ t
    → WithinQuota ctx row v s
    → WithinQuota ctx row v t
WithinQuota-later k h = record {
  now = h.now;
  not_before = h.not_before;
  not_after = let a = h.not_after in omega arith;
  admitted = h.admitted;
}

pub try_process-Outcome :
    (ctx : Context) (row : OutboxRow) (v : World) → Ends (Outcome ctx row v) (try_process ctx row) v
unfolding try_process
try_process-Outcome ctx row v = expiry_gate-Outcome ctx row v _ v start refl (λ a ha qa in_time ta.
    suppression_gate-Outcome ctx row v _ a ha qa (λ b t hb qb later not_suppressed tb by.
      verification_gate-Outcome ctx row v _ b hb qb (λ c hc qc verified tc.
        consent_gate-Outcome ctx row v _ c hc qc (λ d hd qd opted_in td.
          quota_gate-Outcome ctx row v _ d hd qd (λ e he within_quota te.
            quiet_gate-Outcome ctx row v _ e he (λ f hf outside_quiet tf.
              send_stage-Outcome ctx row v f.clock f (omega arith) hf (λ not_cancelled. record {
                in_time = in_time;
                screened_at = t;
                not_before = later;
                not_after = omega arith;
                not_suppressed = not_suppressed;
                verified = verified;
                opted_in = opted_in;
                within_quota = WithinQuota-later tf within_quota;
                outside_quiet = outside_quiet;
                not_cancelled = not_cancelled;
              })))))))
  where
    start : Reached v v
    start = record { noted = (v.db.events, v.db.deks, refl); sent = refl; later = omega arith }

delivery_of :
    (ctx : Context) (row : OutboxRow) (v : World) {r : Result DispatchError (Unit {0})} {w : World}
    → Outcome ctx row v r w
    → (w.sent ≡ v.sent) ⊎ ((m : Message) × Delivered ctx row v m w)
delivery_of ctx row v (waits noted same) = inl same
delivery_of ctx row v (deferred last t why soon d same) = inl same
delivery_of ctx row v (given_up why d same) = inl same
delivery_of ctx row v (accepted m call o d e c) = inr (m, d)
delivery_of ctx row v (retried m call e t d a b lt le c) = inr (m, d)
delivery_of ctx row v (rejected m call e d a b c) = inr (m, d)
delivery_of ctx row v (unrecorded m noted d) = inr (m, d)

-- `process_one` hands the provider no message, or one: the row's own, with the row in time and not
-- cancelled, its address verified where that is enforced, consented where the class is marketing, and,
-- each at a time between the start and the send, its destination not suppressed, within its quota and
-- outside the quiet hours.
pub process_one-sends :
    (ctx : Context) (row : OutboxRow) (v : World)
    → ((process_one ctx row v).sent ≡ v.sent)
      ⊎ ((m : Message) × Delivered ctx row v m (process_one ctx row v))
unfolding process_one
process_one-sends ctx row v = delivery_of ctx row v (try_process-Outcome ctx row v)
