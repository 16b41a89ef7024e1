-- ===== src/Receipts/Status.antt =====
-- The event types of src/orphan_reconcile/reconcile.rs, and which of them moves a final status.
use messgr.Base.{
  ℕ, suc, String, Bool, true, false, ◌||◌, Option, none, some, List, [], ◌∷◌, ltb, if◌then◌else◌,
  ◌==◌, contains, nat_eq, string_eq, option_eq, list_eq,
}

abbrev pub status_order : List String
status_order = "queued" ∷ "sent" ∷ "delivered" ∷ "read" ∷ []

abbrev pub absorbing_statuses : List String
absorbing_statuses =
    "failed" ∷ "bounced" ∷ "complaint" ∷ "expired" ∷ "cancelled" ∷ "suppressed_consent"
    ∷ "suppressed_list" ∷ "unverified_address" ∷ []

unfoldable pub is_recognized_event_type : String → Bool
is_recognized_event_type event_type =
    contains event_type status_order || contains event_type absorbing_statuses

abbrev pub next : Option ℕ → Option ℕ
next none = none
next (some n) = some (suc n)

-- `iter().position(|s| *s == x)`
abbrev pub position : String → List String → Option ℕ
position x [] = none
position x (s ∷ rest) = if s == x then some 0 else next (position x rest)

abbrev pub is_later : Option ℕ → Option ℕ → Bool
is_later (some c) (some n) = ltb c n
is_later (some c) none = false
is_later none n = false

unfoldable pub should_advance : Option String → String → Bool
should_advance none new_event_type = true
should_advance (some cur) new_event_type =
    if contains new_event_type absorbing_statuses
    then true
    else is_later (position cur status_order) (position new_event_type status_order)

-- `auto_suppress_reason` of src/orphan_reconcile/repo.rs.
unfoldable pub auto_suppress_reason : String → Option String
auto_suppress_reason event_type =
    if event_type == "bounced"
    then some "hard_bounce"
    else if event_type == "complaint"
    then some "complaint"
    else none
