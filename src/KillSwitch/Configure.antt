-- ===== src/KillSwitch/Configure.antt =====
-- `engage` and `release` of src/kill_switch/configure.rs: an operator's commands on the table of a
-- tenant's kill switches, with their rows in `platform_audit`. The tables have their newest rows
-- first. The unique index on scope and key is that of migrations/tenant/0009_kill_switch.sql.
use messgr.Base.{
  ℕ, String, Bool, true, false, ◌&&◌, ◌||◌, not, Option, none, some, List, [], ◌∷◌, if◌then◌else◌,
  ◌==◌, any, get_or, nat_eq, string_eq, option_eq, list_eq,
}
use messgr.KillSwitch.Scope
use messgr.Store.Exec.{Result, ok, err}
use messgr.KillSwitch.Model.{is_active, KillSwitch}

-- A database error, or the `Configuration` error of a command that was rejected.
pub data ConfigureError : Type 0 where
  database configuration already_engaged : ConfigureError

pub record Engage : Type 0 where
  pub scope_value : String
  pub scope_key : Option String
  pub on_queued_value : String
  pub reason : String
  pub actor : String

-- The JSON texts of the audit rows.
pub data Detail : Type 0 where
  engage_detail : String → Option String → String → String → String → Detail
  release_detail : ℕ → String → Detail

-- A row of `platform_audit`, without its id and its time.
pub record AuditRow : Type 0 where
  pub actor : String
  pub action : String
  pub tenant_id : Option ℕ
  pub detail : Detail

pub record Panel : Type 0 where
  pub kill_switches : List KillSwitch
  pub platform_audit : List AuditRow

-- Whether the statement on the tenant's database fails, and whether the audit's does.
pub record Faults : Type 0 where
  pub statement : Bool
  pub audit : Bool

abbrev pub is_valid_scope : String → Bool
is_valid_scope scope =
    (scope == Scope.global)
    || (scope == Scope.channel)
    || (scope == Scope.producer)
    || (scope == Scope.producer_channel)
    || (scope == Scope.campaign)

abbrev pub is_valid_on_queued : String → Bool
is_valid_on_queued on_queued = (on_queued == Scope.hold) || (on_queued == Scope.discard)

-- The unique index `(scope, COALESCE(scope_key, '')) WHERE released_at IS NULL`.
abbrev pub conflicts : KillSwitch → KillSwitch → Bool
conflicts s t =
    is_active t && (s.scope == t.scope) && (get_or s.scope_key "" == get_or t.scope_key "")

abbrev pub new_switch : Engage → ℕ → ℕ → KillSwitch
new_switch e id now = record {
  id = id;
  scope = e.scope_value;
  scope_key = e.scope_key;
  on_queued = e.on_queued_value;
  engaged_by = e.actor;
  engaged_at = now;
  reason = e.reason;
  released_by = none;
  released_at = none;
}

abbrev pub audit_engage : ℕ → Engage → String → AuditRow
audit_engage tenant_id e outcome = record {
  actor = e.actor;
  action = "kill_switch.engage";
  tenant_id = some tenant_id;
  detail = engage_detail e.scope_value e.scope_key e.on_queued_value e.reason outcome;
}

-- `platform_audit::record(…).await?`, and what is returned behind it.
unfoldable pub audited :
    {A : Type 0}
    → Bool
    → AuditRow
    → Result ConfigureError A
    → Panel
    → Result ConfigureError A × Panel
audited true row r p = (err database, p)
audited false row r p = (r, record p { platform_audit = row ∷ p.platform_audit })

unfoldable pub engage : ℕ → Engage → ℕ → ℕ → Faults → Panel → Result ConfigureError ℕ × Panel
engage tenant_id e id now faults p =
    if not (is_valid_scope e.scope_value && is_valid_on_queued e.on_queued_value)
    then audited faults.audit (audit_engage tenant_id e "rejected") (err configuration) p
    else if faults.statement
    then (err database, p)
    else if any (conflicts (new_switch e id now)) p.kill_switches
    then audited faults.audit (audit_engage tenant_id e "already_engaged") (err already_engaged) p
    else audited faults.audit (audit_engage tenant_id e "engaged") (ok id)
        (record p { kill_switches = new_switch e id now ∷ p.kill_switches })

abbrev pub is_releasable : ℕ → KillSwitch → Bool
is_releasable id s = (s.id == id) && is_active s

abbrev pub release_row : String → ℕ → KillSwitch → KillSwitch
release_row actor now s = record s { released_by = some actor; released_at = some now }

-- `UPDATE kill_switch SET … WHERE id = $2 AND released_at IS NULL`
unfoldable pub release_rows : String → ℕ → ℕ → List KillSwitch → List KillSwitch
release_rows actor id now [] = []
release_rows actor id now (s ∷ rest) =
    (if is_releasable id s then release_row actor now s else s) ∷ release_rows actor id now rest

abbrev pub audit_release : ℕ → String → ℕ → String → AuditRow
audit_release tenant_id actor id outcome = record {
  actor = actor;
  action = "kill_switch.release";
  tenant_id = some tenant_id;
  detail = release_detail id outcome;
}

unfoldable pub release : ℕ → ℕ → String → ℕ → Faults → Panel → Result ConfigureError String × Panel
release tenant_id id actor now faults p =
    if faults.statement
    then (err database, p)
    else (let outcome =
          if any (is_releasable id) p.kill_switches then "released" else "idempotent" in
        audited faults.audit (audit_release tenant_id actor id outcome) (ok outcome)
          (record p { kill_switches = release_rows actor id now p.kill_switches }))
