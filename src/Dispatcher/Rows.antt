-- ===== src/Dispatcher/Rows.antt =====
-- Rows of the outbox by their primary key: lists with no id twice, and which of their rows a
-- list of ids picks.
use messgr.Base.{
  ℕ, zero, suc, ◌+◌, ◌≤◌, ◌≡◌, refl, sym, ap, subst, inl, inr, Bool, true, false, ◌||◌, List, [],
  ◌∷◌, arith, ◌==◌, beq_eq, Bool-cases, length, take, keep, count, All, length-take, keep-true,
  keep-false, length-keep, All-map, All-keep, contains, nat_eq, string_eq, option_eq, list_eq,
}
use messgr.Store.Tables.{OutboxRow}
use messgr.Dispatcher.Claim.{ids_of, insert_row, order_rows}

-- The primary key of the outbox.
abbrev pub Unique : List OutboxRow → Type 0
Unique [] = Unit {0}
Unique (row ∷ rest) = (contains row.comms_request_id (ids_of rest) ≡ false) × Unique rest

abbrev pub picked : List ℕ → List OutboxRow → List OutboxRow
picked chosen rows = keep (λ row. contains row.comms_request_id chosen) rows

module _ (id : ℕ) where
  contains-keep :
      (p : OutboxRow → Bool) (rows : List OutboxRow)
      → contains id (ids_of rows) ≡ false
      → contains id (ids_of (keep p rows)) ≡ false
  contains-keep p [] h = refl
  contains-keep p (row ∷ rest) h = ground (arith, contains-keep p rest)

  pub contains-insert :
      (row : OutboxRow) (rows : List OutboxRow)
      → contains id (ids_of (insert_row row rows))
        ≡ (row.comms_request_id == id || contains id (ids_of rows))
  unfolding insert_row
  contains-insert row [] = refl
  contains-insert row (x ∷ xs) = ground (arith, contains-insert row xs)

  pub contains-order :
      (rows : List OutboxRow) → contains id (ids_of (order_rows rows)) ≡ contains id (ids_of rows)
  unfolding order_rows
  contains-order [] = refl
  contains-order (row ∷ rest) =
      ground (arith, contains-insert row (order_rows rest), contains-order rest)

  pub contains-take :
      (n : ℕ) (rows : List OutboxRow)
      → contains id (ids_of rows) ≡ false
      → contains id (ids_of (take n rows)) ≡ false
  contains-take zero rows h = refl
  contains-take (suc n) [] h = refl
  contains-take (suc n) (row ∷ rest) h = ground (arith, contains-take n rest)

module _ (p : OutboxRow → Bool) where
  -- Every row whose id stands among those of the passing rows passes itself.
  abbrev PickedPass : List OutboxRow → List OutboxRow → Type 0
  PickedPass passing rows =
      All (λ row. contains row.comms_request_id (ids_of passing) ≡ true → p row ≡ true) rows

  PickedPass-cons :
      (x : OutboxRow) (passing rows : List OutboxRow)
      → contains x.comms_request_id (ids_of rows) ≡ false
      → PickedPass passing rows
      → PickedPass (x ∷ passing) rows
  PickedPass-cons x passing [] h k = tt
  PickedPass-cons x passing (row ∷ rest) h k = (
    λ e. k.0 (ground (arith, beq_eq row.comms_request_id x.comms_request_id)),
    PickedPass-cons x passing rest (ground arith) k.1,
  )

  keep-PickedPass : (rows : List OutboxRow) → Unique rows → PickedPass (keep p rows) rows
  keep-PickedPass [] u = tt
  keep-PickedPass (row ∷ rest) u = elim (Bool-cases (p row)) [
    | inl e ↦
        subst (λ k. PickedPass k (row ∷ rest)) (sym (keep-true p row rest e))
          ((λ _. e), PickedPass-cons row (keep p rest) rest u.0 (keep-PickedPass rest u.1))
    | inr e ↦
        subst (λ k. PickedPass k (row ∷ rest)) (sym (keep-false p row rest e))
          ((λ h. cc (contains-keep row.comms_request_id p rest u.0, h)), keep-PickedPass rest u.1)
  ]

contains_mono :
    (id : ℕ) (xs ys : List OutboxRow)
    → (contains id (ids_of ys) ≡ false → contains id (ids_of xs) ≡ false)
    → contains id (ids_of xs) ≡ true
    → contains id (ids_of ys) ≡ true
contains_mono id xs ys f h = elim (Bool-cases (contains id (ids_of ys))) [
  | inl e ↦ e
  | inr e ↦ cc (f e, h)
]

-- The rows that a claim picks all pass its test.
pub picked-pass :
    (p : OutboxRow → Bool) (limit : ℕ) (rows : List OutboxRow)
    → Unique rows
    → All (λ row. p row ≡ true) (picked (ids_of (take limit (order_rows (keep p rows)))) rows)
picked-pass p limit rows u =
    All-keep (λ row. p row ≡ true) (λ row. contains row.comms_request_id chosen) rows
      (All-map
        (λ row f. λ h. f (
          rw (← contains-order row.comms_request_id (keep p rows)) (
            contains_mono row.comms_request_id (take limit ordered) ordered
              (contains-take row.comms_request_id limit ordered) h)))
        rows (keep-PickedPass p rows u))
  where
    ordered : List OutboxRow
    ordered = order_rows (keep p rows)

    chosen : List ℕ
    chosen = ids_of (take limit ordered)

count_absent :
    (id : ℕ) (rows : List OutboxRow)
    → contains id (ids_of rows) ≡ false
    → count (λ row. id == row.comms_request_id) rows ≡ 0
count_absent id [] h = refl
count_absent id (row ∷ rest) h = ground (arith, count_absent id rest)

-- With no id twice, no more rows are picked than ids are given.
count_id-le :
    (id : ℕ) (rows : List OutboxRow)
    → Unique rows
    → count (λ row. id == row.comms_request_id) rows ≤ 1
count_id-le id [] u = omega arith
count_id-le id (row ∷ rest) u = elim (Bool-cases (id == row.comms_request_id)) [
  | inl e ↦
      let same : id ≡ row.comms_request_id = beq_eq id row.comms_request_id e in
      ground (arith, e, count_absent id rest (rw same u.0))
  | inr e ↦ ground (arith, e, count_id-le id rest u.1)
]

count_or :
    (p q : OutboxRow → Bool) (rows : List OutboxRow)
    → count (λ row. p row || q row) rows ≤ count p rows + count q rows
count_or p q [] = omega arith
count_or p q (row ∷ rest) = ground (arith, count_or p q rest)

count_none : (rows : List OutboxRow) → count (λ row. false) rows ≡ 0
count_none [] = refl
count_none (row ∷ rest) = omega (arith, count_none rest)

count_picked-le :
    (chosen : List ℕ) (rows : List OutboxRow)
    → Unique rows
    → count (λ row. contains row.comms_request_id chosen) rows ≤ length chosen
count_picked-le [] rows u = omega (arith, count_none rows)
count_picked-le (id ∷ chosen) rows u = omega (
  arith,
  count_or (λ row. id == row.comms_request_id) (λ row. contains row.comms_request_id chosen) rows,
  count_id-le id rows u,
  count_picked-le chosen rows u,
)

length-ids : (rows : List OutboxRow) → length (ids_of rows) ≡ length rows
length-ids [] = refl
length-ids (row ∷ rest) = ap suc (length-ids rest)

-- A claim picks at most its limit.
pub picked-le :
    (limit : ℕ) (xs rows : List OutboxRow)
    → Unique rows
    → length (picked (ids_of (take limit xs)) rows) ≤ limit
picked-le limit xs rows u = omega (
  arith,
  length-keep (λ row. contains row.comms_request_id (ids_of (take limit xs))) rows,
  count_picked-le (ids_of (take limit xs)) rows u,
  length-ids (take limit xs),
  length-take limit xs,
)
