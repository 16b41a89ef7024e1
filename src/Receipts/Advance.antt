-- ===== src/Receipts/Advance.antt =====
-- `should_advance` of src/orphan_reconcile/reconcile.rs: how far a final status is after receipts
-- that come in any order.
use messgr.Base.{
  ℕ, suc, ◌+◌, ◌≤◌, ◌<◌, max, String, ◌≡◌, refl, ap, subst, ◌∙◌, inl, inr, true, false, Option,
  none, some, List, [], ◌∷◌, arith, ltb, if◌then◌else◌, ◌==◌, beq_eq, Bool-cases, length, All,
  contains, nat_eq, string_eq, option_eq, list_eq,
}
use mathlib.Core.Logic.{∥∥₁_elim}
use mathlib.Core.List.{Perm, Permᴰ}
use native.Mathlib.Nat.{ℕ_set}
use messgr.Receipts.Status.{
  status_order, absorbing_statuses, position, is_later, is_recognized_event_type, should_advance,
}

contains-All {κ} :
    (P : String → Type κ) (x : String) (xs : List String) → contains x xs ≡ true → All P xs → P x
contains-All P x [] h all = absurd (cc h)
contains-All P x (y ∷ ys) h all = elim (Bool-cases (y == x)) [
  | inl e ↦ subst P (beq_eq y x e) all.0
  | inr e ↦ contains-All P x ys (ground (arith, e, h)) all.1
]

-- No status is on both lists.
absorbing_unordered :
    (s : String) → contains s absorbing_statuses ≡ true → position s status_order ≡ none
absorbing_unordered s h =
    contains-All (λ x. position x status_order ≡ none) s absorbing_statuses h
      (refl, (refl, (refl, (refl, (refl, (refl, (refl, (refl, tt))))))))

position-some :
    (s : String) (xs : List String)
    → contains s xs ≡ true
    → (n : ℕ) × (position s xs ≡ some n) × (n < length xs)
position-some s [] h = absurd (cc h)
position-some s (x ∷ xs) h = elim (Bool-cases (x == s)) [
  | inl e ↦ (0, rw e refl, omega arith)
  | inr e ↦
      let (n, at, bound) = position-some s xs (rw e at h) in (suc n, rw (e, at) refl, omega arith)
]

-- How final a status is: nothing yet, the ordered ones, the absorbing ones.
unfoldable pub rank : Option String → ℕ
rank none = 0
rank (some s) =
    if contains s absorbing_statuses
    then 5
    else elim (position s status_order) [ none ↦ 0 | some n ↦ n + 1 ]

-- The final status after a receipt.
unfoldable pub advanced : Option String → String → Option String
advanced cur event_type = if should_advance cur event_type then some event_type else cur

abbrev pub IsStatus : Option String → Type 0
IsStatus none = Unit
IsStatus (some s) = is_recognized_event_type s ≡ true

rank_absorbing : (s : String) → contains s absorbing_statuses ≡ true → rank (some s) ≡ 5
unfolding rank
rank_absorbing s h = rw h refl

rank_ordered :
    (s : String)
    → IsStatus (some s)
    → contains s absorbing_statuses ≡ false
    → (n : ℕ) × (position s status_order ≡ some n) × (rank (some s) ≡ n + 1) × (n < 4)
unfolding rank is_recognized_event_type
rank_ordered s h e =
    let (n, at, bound) = position-some s status_order (ground (arith, h, e)) in
    (n, at, rw (e, at) refl, bound)

rank-le : (s : String) → IsStatus (some s) → rank (some s) ≤ 5
rank-le s h = elim (Bool-cases (contains s absorbing_statuses)) [
  | inl e ↦ let r = rank_absorbing s e in omega arith
  | inr e ↦ let (n, at, r, bound) = rank_ordered s h e in omega arith
]

module _ (c e : String) (hc : IsStatus (some c)) (he : IsStatus (some e)) where
  advanced_to :
      should_advance (some c) e ≡ true
      → rank (some c) ≤ rank (some e)
      → (rank (advanced (some c) e) ≡ max (rank (some c)) (rank (some e)))
        × IsStatus (advanced (some c) e)
  unfolding advanced
  advanced_to h le = rw h (omega arith, he)

  advanced_not :
      should_advance (some c) e ≡ false
      → rank (some e) ≤ rank (some c)
      → (rank (advanced (some c) e) ≡ max (rank (some c)) (rank (some e)))
        × IsStatus (advanced (some c) e)
  unfolding advanced
  advanced_not h le = rw h (omega arith, hc)

  advance_absorbing : contains e absorbing_statuses ≡ true → should_advance (some c) e ≡ true
  unfolding should_advance
  advance_absorbing h = rw h refl

  advance_ordered :
      contains e absorbing_statuses ≡ false
      → should_advance (some c) e ≡ is_later (position c status_order) (position e status_order)
  unfolding should_advance
  advance_ordered h = rw h refl

  advanced-some :
      (rank (advanced (some c) e) ≡ max (rank (some c)) (rank (some e)))
      × IsStatus (advanced (some c) e)
  advanced-some = elim (Bool-cases (contains e absorbing_statuses)) [
    | inl ae ↦
        let five = rank_absorbing e ae in
        let most = rank-le c hc in advanced_to (advance_absorbing ae) (omega arith)
    | inr oe ↦
        let (n, at_n, rank_n, below) = rank_ordered e he oe in
        elim (Bool-cases (contains c absorbing_statuses)) [
          | inl ac ↦
              let five = rank_absorbing c ac in
              advanced_not
                (advance_ordered oe
                  ∙ ap (λ p. is_later p (position e status_order)) (absorbing_unordered c ac))
                (omega arith)
          | inr oc ↦
              let (m, at_m, rank_m, under) = rank_ordered c hc oc in
              let test : should_advance (some c) e ≡ ltb m n =
                advance_ordered oe ∙ (rw (at_m, at_n) refl) in
              elim (Bool-cases (ltb m n)) [
                | inl lt ↦ advanced_to (test ∙ lt) (ground arith)
                | inr ge ↦ advanced_not (test ∙ ge) (ground arith)
              ]
        ]
  ]

advanced-rank :
    (cur : Option String) (event_type : String)
    → IsStatus cur
    → IsStatus (some event_type)
    → (rank (advanced cur event_type) ≡ max (rank cur) (rank (some event_type)))
      × IsStatus (advanced cur event_type)
unfolding advanced should_advance
advanced-rank none e h k = let zero_rank : rank none ≡ 0 = unfold rank in refl in (omega arith, k)
advanced-rank (some c) e h k = advanced-some c e h k

-- The final status after receipts, in the order in which they are promoted.
unfoldable pub advanced_by : Option String → List String → Option String
unfolding advanced
advanced_by cur [] = cur
advanced_by cur (e ∷ rest) = advanced_by (advanced cur e) rest

unfoldable pub highest : ℕ → List String → ℕ
unfolding rank
highest n [] = n
highest n (e ∷ rest) = max (rank (some e)) (highest n rest)

highest-max : (m n : ℕ) (es : List String) → highest (max m n) es ≡ max m (highest n es)
unfolding highest
highest-max m n [] = refl
highest-max m n (e ∷ rest) = let ih = highest-max m n rest in omega arith

highest-le : (n : ℕ) (es : List String) → n ≤ highest n es
unfolding highest
highest-le n [] = omega arith
highest-le n (e ∷ rest) = let ih = highest-le n rest in omega arith

advanced_by-rank :
    (cur : Option String) (es : List String)
    → IsStatus cur
    → All (λ e. IsStatus (some e)) es
    → rank (advanced_by cur es) ≡ highest (rank cur) es
unfolding advanced_by highest
advanced_by-rank cur [] h k = refl
advanced_by-rank cur (e ∷ rest) h k =
    let (step, ok_) = advanced-rank cur e h k.0 in
    let ih = advanced_by-rank (advanced cur e) rest ok_ k.1 in
    let flip : rank (advanced cur e) ≡ max (rank (some e)) (rank cur) = omega arith in
    ih ∙ ap (λ n. highest n rest) flip ∙ highest-max (rank (some e)) (rank cur) rest

highest-Permᴰ : (n : ℕ) {es fs : List String} → Permᴰ es fs → highest n es ≡ highest n fs
unfolding highest
highest-Permᴰ n Permᴰ.nil = refl
highest-Permᴰ n (Permᴰ.cons e p) =
    let head = ap (λ x. rank (some x)) e in let tail = highest-Permᴰ n p in omega arith
highest-Permᴰ n (Permᴰ.swap {l = l} e f) =
    let first = ap (λ x. rank (some x)) e in let second = ap (λ x. rank (some x)) f in omega arith
highest-Permᴰ n (Permᴰ.trans p q) = highest-Permᴰ n p ∙ highest-Permᴰ n q

-- For a final status and receipts of recognized types: whatever order the same receipts are promoted
-- in, the final status becomes as final as the most final of them and of what it was, and no less
-- final than it was.
pub advanced_by-Perm :
    (cur : Option String) (es fs : List String)
    → IsStatus cur
    → All (λ e. IsStatus (some e)) es
    → All (λ e. IsStatus (some e)) fs
    → Perm es fs
    → (rank (advanced_by cur es) ≡ rank (advanced_by cur fs))
      × (rank (advanced_by cur es) ≡ highest (rank cur) es)
      × (rank cur ≤ rank (advanced_by cur es))
advanced_by-Perm cur es fs h he hf p =
    let by_es = advanced_by-rank cur es h he in
    let by_fs = advanced_by-rank cur fs h hf in
    let same_highest : highest (rank cur) es ≡ highest (rank cur) fs =
      ∥∥₁_elim p (ℕ_set _ _) (highest-Permᴰ (rank cur)) in
    let grown = highest-le (rank cur) es in (omega arith, by_es, omega arith)
