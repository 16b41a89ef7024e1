-- ===== src/Ingest/Accept.antt =====
-- `create_comms` of src/ingest/handler.rs from the resolution of the customer to the insert.
use messgr.Base.{
  ℕ, ◌+◌, String, ◌≡◌, Bool, true, false, ◌&&◌, Option, some, List, ◌==◌, find, get_or, nat_eq,
  string_eq, option_eq, list_eq,
}
use messgr.Store.Tables.{Db, Template}
use messgr.Store.Exec.{World, Result, ok, err, Exec, pure, ◌>>=◌, next_call}
use messgr.Store.Steps.{Steady}
use messgr.Template.Render.{Text, render}
use messgr.Customers.Deks.{Keystore, get_or_create_dek}
use messgr.Customers.Resolve.{Resolved, resolve}
use messgr.Customers.Safe.{Safe}
use messgr.Customers.Holding.{Held}
use messgr.Ingest.Request.{IngestError, ResolutionInput}
use messgr.Ingest.Repo.{Insert, InsertOutcome, insert_transactional}
use messgr.Ingest.Insert.{Inserted}
use messgr.Ingest.Create.{
  Crates, Tenant, CreateCommsRequest, kind_for_channel, lift, or_raise, of_render, reply_to_insert,
  insert_of, destination_of,
}

abbrev pub panics : IngestError → Bool
panics e = elim e [ IngestError.panic ↦ true | _ ↦ false ]

module _ (crates : Crates) (keystore : Keystore) (tenant : Tenant) (producer_id : ℕ)
    (body : CreateCommsRequest) (key : String) where
  -- The template of the request, in its language or the customer's or the tenant's.
  abbrev pub wanted : Resolved → Db → Option Template
  wanted resolved db =
      find
        (λ (t : Template).
          (t.template_id == body.template_id)
          && (t.version == body.template_version)
          && (t.locale == get_or body.locale (get_or resolved.locale tenant.default_locale)))
        db.templates

  -- The key of the resolved customer was got from `s` on, whose database a query may have read, and the
  -- request's id is the next fresh one.
  pub record Keyed (resolved : Resolved) (dek : List ℕ) (id : ℕ) (s u : World) : Type 0 where
    pub read : World
    pub steady : Steady s read
    pub got : get_or_create_dek keystore resolved.customer_id read ≡ (ok dek, u)
    pub fresh : id ≡ keystore.new_uuid u.calls

  -- An accepted request: the resolution of its destination ended in `s`, where its customer holds the
  -- destination, its payload is the encrypted rendering of its template under the customer's key, and
  -- it was inserted from there on or found to be a replay.
  pub data Accepted (input : ResolutionInput) (v : World)
      : Result IngestError (Bool × ℕ) → World → Type 0 where
    failed : {e : IngestError} {w : World} → panics e ≡ false → Accepted input v (err e) w
    answered :
        (kind : String) (resolved : Resolved) (template : Template) (text : Text) (dek : List ℕ)
        (id : ℕ) (ciphertext payload : List ℕ) (outcome : InsertOutcome) (s u : World) {w : World}
        → kind_for_channel body.channel ≡ some kind
        → resolve keystore (destination_of crates keystore tenant producer_id body kind) input v
          ≡ (ok resolved, s)
        → Held (destination_of crates keystore tenant producer_id body kind) resolved s
        → wanted resolved s.db ≡ some template
        → render template.body body.variables ≡ some (ok text)
        → keystore.encrypt dek (keystore.aad id) body.destination ≡ some ciphertext
        → keystore.encrypt dek (keystore.aad id) (crates.as_bytes text) ≡ some payload
        → Keyed resolved dek id s u
        → Inserted
            (insert_of crates keystore tenant producer_id body key id resolved ciphertext payload)
            (record u { calls = u.calls + 1 })
            (ok outcome)
            w
        → Accepted input v (ok (reply_to_insert id outcome)) w

  abbrev seal_and_insert : Resolved → Text → Exec IngestError (Bool × ℕ)
  seal_and_insert resolved text = lift (get_or_create_dek keystore resolved.customer_id) >>= λ dek.
      next_call >>= λ call.
      or_raise (keystore.encrypt dek (keystore.aad (keystore.new_uuid call)) body.destination)
        IngestError.encryption
      >>= λ destination_ciphertext.
          or_raise
            (keystore.encrypt dek (keystore.aad (keystore.new_uuid call)) (crates.as_bytes text))
            IngestError.encryption
          >>= λ payload_ciphertext.
              insert_transactional (
                insert_of crates keystore tenant producer_id body key (keystore.new_uuid call)
                  resolved destination_ciphertext payload_ciphertext)
              >>= λ outcome. pure (reply_to_insert (keystore.new_uuid call) outcome)

  abbrev render_and_insert : Resolved → Template → Exec IngestError (Bool × ℕ)
  render_and_insert resolved template =
      of_render (render template.body body.variables) >>= seal_and_insert resolved
