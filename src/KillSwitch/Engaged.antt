-- ===== src/KillSwitch/Engaged.antt =====
-- What the commands of src/kill_switch/configure.rs keep of the table of kill switches.
use messgr.Base.{
  ℕ, String, ◌≡◌, refl, inl, inr, Bool, true, false, ◌&&◌, List, [], ◌∷◌, arith, Bool-cases, any,
}
use messgr.Store.Exec.{Result}
use messgr.KillSwitch.Model.{is_active, KillSwitch}
use messgr.KillSwitch.Configure.{
  new_switch, is_releasable, conflicts, ConfigureError, release, is_valid_on_queued, Faults, engage,
  AuditRow, is_valid_scope, release_rows, Engage, Panel, audited,
}

-- A command of an operator, with its arguments, the id, the time and the faults it meets.
pub data Command : Type 0 where
  engaging : Engage → ℕ → ℕ → Faults → Command
  releasing : ℕ → String → ℕ → Faults → Command

abbrev pub configure : ℕ → Command → Panel → Panel
configure tenant_id (engaging e id now faults) p = (engage tenant_id e id now faults p).1
configure tenant_id (releasing id actor now faults) p = (release tenant_id id actor now faults p).1

abbrev pub configure_all : ℕ → List Command → Panel → Panel
configure_all tenant_id [] p = p
configure_all tenant_id (c ∷ rest) p = configure_all tenant_id rest (configure tenant_id c p)

-- Every switch has a known scope and a known treatment of the queue, and no two active ones stand
-- for one scope and key.
abbrev pub Configured : List KillSwitch → Type 0
Configured [] = Unit {0}
Configured (s ∷ rest) =
    ((is_valid_scope s.scope && is_valid_on_queued s.on_queued) ≡ true)
    × ((is_active s && any (conflicts s) rest) ≡ false)
    × Configured rest

module _ (actor : String) (id now : ℕ) where
  conflicts-release_rows :
      (s : KillSwitch) (rows : List KillSwitch)
      → any (conflicts s) rows ≡ false
      → any (conflicts s) (release_rows actor id now rows) ≡ false
  unfolding release_rows is_active
  conflicts-release_rows s [] h = refl
  conflicts-release_rows s (t ∷ rest) h = ground (arith, conflicts-release_rows s rest)

  still_free :
      (s : KillSwitch) (rows : List KillSwitch)
      → (is_active s && any (conflicts s) rows) ≡ false
      → (is_active s && any (conflicts s) (release_rows actor id now rows)) ≡ false
  still_free s rows h = ground (arith, h, conflicts-release_rows s rows)

  release_rows-Configured :
      (rows : List KillSwitch) → Configured rows → Configured (release_rows actor id now rows)
  unfolding release_rows is_active
  release_rows-Configured [] h = tt
  release_rows-Configured (s ∷ rest) h =
      let kept = release_rows-Configured rest h.2 in
      elim (Bool-cases (is_releasable id s)) [
        | inl e ↦ rw e (h.0, refl, kept)
        | inr e ↦ rw e (h.0, still_free s rest h.1, kept)
      ]

audited-Configured :
    {A : Type 0} (fault : Bool) (row : AuditRow) (r : Result ConfigureError A) (p : Panel)
    → Configured p.kill_switches
    → Configured (audited fault row r p).1.kill_switches
unfolding audited
audited-Configured true row r p h = h
audited-Configured false row r p h = h

engage-Configured :
    (tenant_id : ℕ) (e : Engage) (id now : ℕ) (faults : Faults) (p : Panel)
    → Configured p.kill_switches
    → Configured (engage tenant_id e id now faults p).1.kill_switches
unfolding engage is_active
engage-Configured tenant_id e id now faults p h =
    elim (Bool-cases (is_valid_scope e.scope_value && is_valid_on_queued e.on_queued_value)) [
      | inl valid ↦ rw valid (elim (Bool-cases faults.statement) [
        | inl fails ↦ rw fails h
        | inr runs ↦
            rw runs (elim (Bool-cases (any (conflicts (new_switch e id now)) p.kill_switches)) [
              | inl taken ↦ rw taken (audited-Configured faults.audit _ _ p h)
              | inr free ↦ rw free (audited-Configured faults.audit _ _ _ (valid, free, h))
            ])
      ])
      | inr wrong ↦ rw wrong (audited-Configured faults.audit _ _ p h)
    ]

release-Configured :
    (tenant_id id : ℕ) (actor : String) (now : ℕ) (faults : Faults) (p : Panel)
    → Configured p.kill_switches
    → Configured (release tenant_id id actor now faults p).1.kill_switches
unfolding release
release-Configured tenant_id id actor now faults p h = elim (Bool-cases faults.statement) [
  | inl fails ↦ rw fails h
  | inr runs ↦ rw runs (
      audited-Configured faults.audit _ _ _
        (release_rows-Configured actor id now p.kill_switches h))
]

-- Any run of engage and release commands, whichever of their statements fail, keeps a table whose
-- switches have known scopes and treatments of the queue, with at most one active switch for each
-- scope and key.
pub configure_all-Configured :
    (tenant_id : ℕ) (commands : List Command) (p : Panel)
    → Configured p.kill_switches
    → Configured (configure_all tenant_id commands p).kill_switches
configure_all-Configured tenant_id [] p h = h
configure_all-Configured tenant_id (engaging e id now faults ∷ rest) p h =
    configure_all-Configured tenant_id rest _ (engage-Configured tenant_id e id now faults p h)
configure_all-Configured tenant_id (releasing id actor now faults ∷ rest) p h =
    configure_all-Configured tenant_id rest _ (release-Configured tenant_id id actor now faults p h)
