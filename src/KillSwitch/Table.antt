-- ===== src/KillSwitch/Table.antt =====
-- Laws of the id-keyed table of switches in the cache of src/kill_switch/cache.rs.
use messgr.Base.{
  ℕ, ◌≡◌, refl, inl, inr, Bool, true, false, ◌||◌, Option, none, some, List, [], ◌∷◌, arith,
  if◌then◌else◌, ◌==◌, beq_eq, Bool-cases, any, keep, find-any, find-some, nat_eq, string_eq,
  option_eq, list_eq,
}
use messgr.KillSwitch.Model.{KillSwitch}
use messgr.KillSwitch.Cache.{get, insert, collect}

abbrev pub has : ℕ → List KillSwitch → Bool
has id switches = any (λ s. s.id == id) switches

-- No id stands twice, as in a map.
abbrev pub Distinct : List KillSwitch → Type 0
Distinct [] = Unit {0}
Distinct (s ∷ rest) = (has s.id rest ≡ false) × Distinct rest

pub get-insert :
    (s : KillSwitch) (id : ℕ) (switches : List KillSwitch)
    → get id (insert s switches) ≡ (if s.id == id then some s else get id switches)
unfolding get insert
get-insert s id [] = refl
get-insert s id (x ∷ xs) = ground (arith, get-insert s id xs)

has-insert :
    (s : KillSwitch) (id : ℕ) (switches : List KillSwitch)
    → has id (insert s switches) ≡ (s.id == id || has id switches)
unfolding insert
has-insert s id [] = refl
has-insert s id (x ∷ xs) = ground (arith, has-insert s id xs)

insert-Distinct :
    (s : KillSwitch) (switches : List KillSwitch) → Distinct switches → Distinct (insert s switches)
unfolding insert
insert-Distinct s [] d = (refl, tt)
insert-Distinct s (x ∷ xs) d = ground (arith, insert-Distinct s xs d.1, has-insert s x.id xs)

pub collect-Distinct :
    (switches rest : List KillSwitch) → Distinct switches → Distinct (collect switches rest)
unfolding collect
collect-Distinct switches [] d = d
collect-Distinct switches (s ∷ rest) d =
    collect-Distinct (insert s switches) rest (insert-Distinct s switches d)

pub has-collect :
    (id : ℕ) (switches rest : List KillSwitch)
    → has id (collect switches rest) ≡ (has id switches || has id rest)
unfolding collect
has-collect id switches [] = ground arith
has-collect id switches (s ∷ rest) =
    ground (arith, has-collect id (insert s switches) rest, has-insert s id switches)

pub get-has :
    (id : ℕ) (switches : List KillSwitch) → has id switches ≡ false → get id switches ≡ none
unfolding get
get-has id switches h = find-any (λ s. s.id == id) switches h

pub get-cons :
    (s : KillSwitch) (id : ℕ) (rest : List KillSwitch)
    → get id (s ∷ rest) ≡ (if s.id == id then some s else get id rest)
unfolding get
get-cons s id rest = refl

get_tail_none :
    (s : KillSwitch) (id : ℕ) (rest : List KillSwitch)
    → (s.id == id) ≡ true
    → has s.id rest ≡ false
    → get id rest ≡ none
get_tail_none s id rest e h = get-has id rest (rw (beq_eq s.id id e) at h)

abbrev pub or_else : Option KillSwitch → Option KillSwitch → Option KillSwitch
or_else none o = o
or_else (some s) o = some s

-- Where the inserted list has no id twice, each of its entries is found, and the others stay.
pub get-collect :
    (id : ℕ) (switches rest : List KillSwitch)
    → Distinct rest
    → get id (collect switches rest) ≡ or_else (get id rest) (get id switches)
unfolding collect
get-collect id switches [] d = unfold get in refl
get-collect id switches (s ∷ rest) d = ground (
  arith,
  get-collect id (insert s switches) rest d.1,
  get-insert s id switches,
  get_tail_none s id rest,
  get-cons s id rest,
)

module _ (q : KillSwitch → Bool) where
  has-keep :
      (id : ℕ) (switches : List KillSwitch)
      → has id switches ≡ false
      → has id (keep q switches) ≡ false
  has-keep id [] h = refl
  has-keep id (s ∷ rest) h = ground (arith, has-keep id rest)

  pub keep-Distinct : (switches : List KillSwitch) → Distinct switches → Distinct (keep q switches)
  keep-Distinct [] d = tt
  keep-Distinct (s ∷ rest) d = ground (arith, keep-Distinct rest d.1, has-keep s.id rest d.0)

  -- An entry that passes the test is still found.
  pub get-keep :
      (id : ℕ) (switches : List KillSwitch) (s : KillSwitch)
      → get id switches ≡ some s
      → q s ≡ true
      → get id (keep q switches) ≡ some s
  unfolding get
  get-keep id [] s h p = cc
  get-keep id (x ∷ rest) s h p = elim (Bool-cases (x.id == id)) [
    | inl e ↦
        let same : x ≡ s = ground (arith, e, h) in
        let passes : q x ≡ true = rw same p in rw (passes, e, same)
    | inr e ↦ ground (arith, e, get-keep id rest s (ground (arith, e, h)) p)
  ]

pub get-id :
    (id : ℕ) (switches : List KillSwitch) (s : KillSwitch) → get id switches ≡ some s → s.id ≡ id
unfolding get
get-id id switches s h = beq_eq s.id id (find-some (λ x. x.id == id) switches s h)
