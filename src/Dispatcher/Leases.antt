-- ===== src/Dispatcher/Leases.antt =====
-- What the claims of src/dispatcher/repo.rs lease and return.
use messgr.Base.{
  ℕ, suc, ◌+◌, ◌≤◌, String, ◌≡◌, refl, sym, ap, subst, ◌∙◌, ◌⊎◌, inl, inr, Bool, true, false, ◌&&◌,
  not, Option, none, some, List, [], ◌∷◌, map, arith, and_true, beq_eq, leb→le, Bool-cases, is_none,
  length, any, All, contains, nat_eq, string_eq, option_eq, list_eq,
}
use messgr.Store.Tables.{Db, OutboxRow}
use messgr.Store.Exec.{World, Result, ok, utc_now}
use messgr.KillSwitch.Model.{KillSwitch, matches}
use messgr.KillSwitch.Cache.{ChannelExclusion, exclusion_for_channel}
use messgr.KillSwitch.Exclusion.{lets_campaign, admits, admits-exclusion_for_channel}
use messgr.Dispatcher.Queries.{DispatchError, database}
use messgr.Dispatcher.Claim.{
  lease_now, target, claimable, claim, lease, lease_rows, lease_matching, returned, candidates,
  ids_of, lease_in,
}
use messgr.Dispatcher.Rows.{Unique, picked, picked-pass, picked-le}
use messgr.Store.Laws.{sql-ok, sql-Quiet}

returned-lease_rows :
    (chosen : List ℕ) (leased_until : ℕ) (rows : List OutboxRow)
    → returned chosen (lease_rows chosen leased_until rows)
      ≡ map (lease leased_until) (picked chosen rows)
unfolding returned lease_rows
returned-lease_rows chosen t [] = refl
returned-lease_rows chosen t (row ∷ rest) = ground (arith, returned-lease_rows chosen t rest)

-- Every row stays as it is, or passes `P`, is leased until `t` with one attempt more, and returned.
pub data Leased (P : OutboxRow → Type 0) (t : ℕ)
    : List OutboxRow → List OutboxRow → List OutboxRow → Type 0 where
  no_rows : Leased P t [] [] []
  stays :
      {row : OutboxRow} {before after got : List OutboxRow}
      → Leased P t before after got
      → Leased P t (row ∷ before) (row ∷ after) got
  taken :
      {row : OutboxRow} {before after got : List OutboxRow}
      → P row
      → Leased P t before after got
      → Leased P t
          (row ∷ before)
          (record row { leased_until = some t; attempts = row.attempts + 1 } ∷ after)
          (record row { leased_until = some t; attempts = row.attempts + 1 } ∷ got)

module _ {P : OutboxRow → Type 0} (t : ℕ) where
  none-Leased : (rows : List OutboxRow) → Leased P t rows rows []
  none-Leased [] = no_rows
  none-Leased (row ∷ rest) = stays (none-Leased rest)

  implied :
      {Q : OutboxRow → Type 0} {before after got : List OutboxRow}
      → ((row : OutboxRow) → P row → Q row)
      → Leased P t before after got
      → Leased Q t before after got
  implied f no_rows = no_rows
  implied f (stays h) = stays (implied f h)
  implied f (taken {row = row} p h) = taken (f row p) (implied f h)

  lease_rows-Leased :
      (chosen : List ℕ) (rows : List OutboxRow)
      → All P (picked chosen rows)
      → Leased P t rows (lease_rows chosen t rows) (map (lease t) (picked chosen rows))
  unfolding lease_rows
  lease_rows-Leased chosen [] h = no_rows
  lease_rows-Leased chosen (row ∷ rest) h =
      elim (Bool-cases (contains row.comms_request_id chosen)) [
        | inl e ↦
            let all : All P (row ∷ picked chosen rest) = rw e at h in
            rw e (taken all.0 (lease_rows-Leased chosen rest all.1))
        | inr e ↦
            let all : All P (picked chosen rest) = rw e at h in
            rw e (stays (lease_rows-Leased chosen rest all))
      ]

-- What a claim that succeeds has done: it leases and returns only eligible rows that were not locked,
-- at most `limit` of them, and leaves the others.
pub record Leases (eligible : OutboxRow → Bool) (locked : ℕ → Bool) (limit leased_until : ℕ)
    (before : List OutboxRow) (got after : List OutboxRow) : Type 0 where
  pub leased :
      Leased
        (λ row. (eligible row && not (locked row.comms_request_id)) ≡ true)
        leased_until
        before
        after
        got
  pub at_most : length got ≤ limit

length-map : (f : OutboxRow → OutboxRow) (rows : List OutboxRow) → length (map f rows) ≡ length rows
length-map f [] = refl
length-map f (row ∷ rest) = ap suc (length-map f rest)

lease_matching-Leases :
    (eligible : OutboxRow → Bool) (locked : ℕ → Bool) (limit leased_until : ℕ)
    (rows : List OutboxRow)
    → Unique rows
    → let (got, after) = lease_matching eligible locked limit leased_until rows in
      Leases eligible locked limit leased_until rows got after
unfolding lease_matching candidates
lease_matching-Leases eligible locked limit t rows u =
    let chosen = ids_of (candidates eligible locked limit rows) in
    let got_picked = returned-lease_rows chosen t rows in
    record {
      leased =
          subst
            (Leased (λ row. (eligible row && not (locked row.comms_request_id)) ≡ true) t rows
              (lease_rows chosen t rows))
            (sym got_picked)
            (lease_rows-Leased t chosen rows (
              picked-pass (λ row. eligible row && not (locked row.comms_request_id)) limit rows u));
      at_most =
          let few : length (picked chosen rows) ≤ limit = picked-le limit _ rows u in
          let same = ap length got_picked ∙ length-map (lease t) (picked chosen rows) in
          omega arith;
    }

lease_now-Leases :
    (eligible : ℕ → OutboxRow → Bool) (locked : ℕ → Bool) (limit leased_until : ℕ) (w : World)
    (got : List OutboxRow)
    → Unique w.db.outbox
    → (lease_now eligible locked limit leased_until w).0 ≡ ok got
    → let after = (lease_now eligible locked limit leased_until w).1 in
      (now : ℕ) × (w.clock ≤ now)
      × (now ≤ after.clock)
      × Leases (eligible now) locked limit leased_until w.db.outbox got after.db.outbox
unfolding lease_now utc_now
lease_now-Leases eligible locked limit t w got u h =
    let w1 : World = (utc_now {E = DispatchError} w).1 in
    let (same, db) = sql-ok database (lease_in (eligible w1.clock) locked limit t) w1 h in
    let r = lease_matching-Leases (eligible w1.clock) locked limit t w.db.outbox u in
    (
      w1.clock,
      omega arith,
      (sql-Quiet database (lease_in (eligible w1.clock) locked limit t) w1).later,
      record {
        leased =
            subst
              (λ (p : List OutboxRow × List OutboxRow).
                Leased (λ row. (eligible w1.clock row && not (locked row.comms_request_id)) ≡ true)
                  t w.db.outbox p.0 p.1)
              (λ i. (ap (λ (d : Db). d.outbox) (sym db) i, sym same i)) r.leased;
        at_most = let few = r.at_most in let e = ap length same in omega arith;
      },
    )

claim_now-Leases :
    (channel : String) (limit leased_until : ℕ) (exclusion : ChannelExclusion) (locked : ℕ → Bool)
    (w : World) (got : List OutboxRow)
    → Unique w.db.outbox
    → (claim channel limit leased_until exclusion locked w).0 ≡ ok got
    → let after = (claim channel limit leased_until exclusion locked w).1 in
      ((exclusion.blocked_entirely ≡ true) × (got ≡ []) × (after.db.outbox ≡ w.db.outbox))
      ⊎ ((exclusion.blocked_entirely ≡ false)
          × (now : ℕ) × (w.clock ≤ now)
          × (now ≤ after.clock)
          × Leases
              (claimable channel exclusion now)
              locked
              limit
              leased_until
              w.db.outbox
              got
              after.db.outbox)
unfolding claim
claim_now-Leases channel limit t exclusion locked w got u h =
    elim (Bool-cases exclusion.blocked_entirely) [
      | inl e ↦ inl (e, ground (arith, e, h), ground (arith, e))
      | inr e ↦
          let run : claim channel limit t exclusion locked w
              ≡ lease_now (claimable channel exclusion) locked limit t w =
            rw e in
          let found : (lease_now (claimable channel exclusion) locked limit t w).0 ≡ ok got =
            ap (λ (p : Result DispatchError (List OutboxRow) × World). p.0) (sym run) ∙ h in
          let l = lease_now-Leases (claimable channel exclusion) locked limit t w got u found in
          let (now, first, last, leases) =
            subst
              (λ (p : Result DispatchError (List OutboxRow) × World).
                (now : ℕ) × (w.clock ≤ now)
                × (now ≤ p.1.clock)
                × Leases (claimable channel exclusion now) locked limit t w.db.outbox got
                    p.1.db.outbox)
              (sym run) l in
          inr (e, now, first, last, leases)
    ]

-- A row that a claim may take at a time.
pub record Eligible (channel : String) (exclusion : ChannelExclusion) (locked : ℕ → Bool) (now : ℕ)
    (row : OutboxRow) : Type 0 where
  pub on_channel : row.channel ≡ channel
  pub due : row.next_attempt_at ≤ now
  pub unleased : row.leased_until ≡ none
  pub unlocked : locked row.comms_request_id ≡ false
  pub producer_let : contains row.producer_id exclusion.blocked_producer_ids ≡ false
  pub campaign_let :
      (id : String) → row.campaign_id ≡ some id → contains id exclusion.blocked_campaign_ids ≡ false

let_in :
    (campaign : Option String) (ids : List String) (id : String)
    → lets_campaign campaign ids ≡ true
    → campaign ≡ some id
    → contains id ids ≡ false
let_in campaign ids id h e =
    let same : lets_campaign (some id) ids ≡ true = rw e at h in ground (arith, same)

is_free : (o : Option ℕ) → is_none o ≡ true → o ≡ none
is_free none h = refl
is_free (some t) h = cc h

claimable-Eligible :
    (channel : String) (exclusion : ChannelExclusion) (locked : ℕ → Bool) (now : ℕ)
    (row : OutboxRow)
    → (claimable channel exclusion now row && not (locked row.comms_request_id)) ≡ true
    → Eligible channel exclusion locked now row
unfolding claimable
claimable-Eligible channel exclusion locked now row h = record {
  on_channel = beq_eq row.channel channel (ground (arith, h));
  due = leb→le row.next_attempt_at now (ground (arith, h));
  unleased = is_free row.leased_until (ground (arith, h));
  unlocked = ground (arith, h);
  producer_let = ground (arith, h);
  campaign_let =
      λ id e. let_in row.campaign_id exclusion.blocked_campaign_ids id (ground (arith, h)) e;
}

-- A claim that succeeds, on an outbox with no id twice, was either refused by the exclusion before
-- its query, or has leased and returned only rows of the channel that were due at one reading of the
-- clock, not leased, not locked and not excluded by producer or campaign, at most its limit of them,
-- each with one attempt more; it leaves every other row as it was.
pub claim-Leases :
    (channel : String) (limit leased_until : ℕ) (exclusion : ChannelExclusion) (locked : ℕ → Bool)
    (w : World) (got : List OutboxRow)
    → Unique w.db.outbox
    → (claim channel limit leased_until exclusion locked w).0 ≡ ok got
    → let after = (claim channel limit leased_until exclusion locked w).1 in
      ((exclusion.blocked_entirely ≡ true) × (got ≡ []) × (after.db.outbox ≡ w.db.outbox))
      ⊎ ((exclusion.blocked_entirely ≡ false)
          × (now : ℕ) × (w.clock ≤ now)
          × (now ≤ after.clock)
          × Leased
              (Eligible channel exclusion locked now)
              leased_until
              w.db.outbox
              after.db.outbox
              got
          × (length got ≤ limit))
claim-Leases channel limit t exclusion locked w got u h =
    elim (claim_now-Leases channel limit t exclusion locked w got u h) [
      | inl refused ↦ inl refused
      | inr (e, now, first, last, l) ↦ inr (
        e,
        now,
        first,
        last,
        implied t (claimable-Eligible channel exclusion locked now) l.leased,
        l.at_most,
      )
    ]

module _ (parse_uuid : String → Option ℕ) (switches : List KillSwitch) where
  abbrev pub is_held : OutboxRow → Bool
  is_held row = any (λ s. matches parse_uuid s (target row)) switches

  claimable_not_held :
      (channel : String) (now : ℕ) (row : OutboxRow)
      → let exclusion = exclusion_for_channel parse_uuid switches channel in
        exclusion.blocked_entirely ≡ false
        → claimable channel exclusion now row ≡ true
        → is_held row ≡ false
  unfolding claimable
  claimable_not_held channel now row open_ h =
      let on : row.channel ≡ channel = beq_eq row.channel channel (ground (arith, h)) in
      let passes : admits (exclusion_for_channel parse_uuid switches row.channel) (target row)
          ≡ true =
        unfold admits in rw on (ground (arith, h, open_)) in
      ground (arith, admits-exclusion_for_channel parse_uuid (target row) switches, passes)

  got_not_held :
      {t : ℕ} {before after got : List OutboxRow}
      → Leased (λ row. is_held row ≡ false) t before after got
      → All (λ row. is_held row ≡ false) got
  got_not_held no_rows = tt
  got_not_held (stays h) = got_not_held h
  got_not_held (taken p h) = (p, got_not_held h)

  -- A claim for a channel under the exclusion of some switches, on an outbox with no id twice, neither
  -- leases nor returns a row that one of the switches matches: it leaves every such row as it was.
  pub claim-not-held :
      (channel : String) (limit leased_until : ℕ) (locked : ℕ → Bool) (w : World)
      (got : List OutboxRow)
      → Unique w.db.outbox
      → let out =
          claim channel limit leased_until
            (exclusion_for_channel parse_uuid switches channel)
            locked
            w in
        out.0 ≡ ok got
        → Leased (λ row. is_held row ≡ false) leased_until w.db.outbox out.1.db.outbox got
          × All (λ row. is_held row ≡ false) got
  claim-not-held channel limit t locked w got u h =
      let l = only_not_held (claim_now-Leases channel limit t exclusion locked w got u h) in
      (l, got_not_held l)
    where
      exclusion : ChannelExclusion
      exclusion = exclusion_for_channel parse_uuid switches channel

      after : World
      after = (claim channel limit t exclusion locked w).1

      only_not_held :
          ((exclusion.blocked_entirely ≡ true) × (got ≡ []) × (after.db.outbox ≡ w.db.outbox))
            ⊎ ((exclusion.blocked_entirely ≡ false)
                × (now : ℕ) × (w.clock ≤ now)
                × (now ≤ after.clock)
                × Leases
                    (claimable channel exclusion now)
                    locked
                    limit
                    t
                    w.db.outbox
                    got
                    after.db.outbox)
          → Leased (λ row. is_held row ≡ false) t w.db.outbox after.db.outbox got
      only_not_held (inl (e, none_got, same)) =
          subst
            (λ (p : List OutboxRow × List OutboxRow).
              Leased (λ row. is_held row ≡ false) t w.db.outbox p.0 p.1)
            (λ i. (sym same i, sym none_got i)) (none-Leased t w.db.outbox)
      only_not_held (inr (e, now, first, last, l)) =
          implied t
            (λ row p. claimable_not_held channel now row e (
              (and_true (claimable channel exclusion now row) (not (locked row.comms_request_id))
                p).0))
            l.leased
