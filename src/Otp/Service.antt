-- ===== src/Otp/Service.antt =====
-- The state of the one-time-password service: the databases of its tenants, its caches and its two
-- files (src/otp/auth_flag.rs, src/otp/provider.rs, src/otp/buffer.rs, src/otp/pending.rs).
use messgr.Base.{
  ℕ, zero, suc, ◌+◌, String, Bool, true, false, ◌||◌, Option, none, some, List, [], ◌∷◌, ◌++◌,
  if◌then◌else◌, ◌==◌, take, get_or, lookup, nat_eq, string_eq, option_eq, list_eq,
}
use messgr.Store.Tables.{Db}
use messgr.Store.Exec.{World, Result, Exec, Message}
use messgr.Dispatcher.Worker.{SendOutcome, SenderError}
use messgr.Customers.Deks.{Keystore}
use messgr.Otp.Model.{AuditRecord, PendingAuditRecord, ProviderConfig, ResolvedProviderConfig}

-- A file with one record on a line. It is `torn` where it ends in a fragment of a line, which is no
-- record, and which the next line that is appended runs on from.
pub record File (A : Type 0) : Type 0 where
  pub lines : List A
  pub torn : Bool

-- How a file operation fails: it does not open the file, or it wrote a number of whole lines, and
-- then a fragment or not.
pub data DiskFault : Type 0 where
  unopened : DiskFault
  cut : ℕ → Bool → DiskFault

-- `world.db` is the database of the tenant that a statement is for. `disk_faults` tells of each
-- coming file operation whether it fails.
pub record Service : Type 0 where
  pub world : World
  pub databases : ℕ → Db
  pub flags : List (ℕ × Bool)
  pub providers : List (ℕ × List ResolvedProviderConfig)
  pub buffer : File AuditRecord
  pub pending : File PendingAuditRecord
  pub disk_faults : List (Option DiskFault)

-- The customer keys, the cryptography, the tenants' pools and the provider. Their first argument,
-- where it is named so, counts the calls.
pub record Env : Type 0 where
  pub new_uuid : (call : ℕ) → ℕ
  pub get_or_open : (call tenant_id : ℕ) → Bool
  pub list_configs : (call tenant_id : ℕ) → Option (List ProviderConfig)
  pub read_provider_credential : (call : ℕ) → String × String → Option String
  pub keystore : (tenant_id : ℕ) → Keystore
  pub pepper : (tenant_id : ℕ) → List ℕ
  pub derive_key : (pepper : List ℕ) → List ℕ
  pub compute_hmac : (pepper destination : List ℕ) → List ℕ
  pub aad : (comms_request_id : ℕ) → List ℕ
  pub encrypt : (key aad text : List ℕ) → Option (List ℕ)
  pub decrypt : (key aad text : List ℕ) → Option (List ℕ)
  pub is_utf8 : (text : List ℕ) → Bool
  pub send : (call : ℕ) → ResolvedProviderConfig → Message → Result SenderError SendOutcome
  pub show_status : ℕ → String

abbrev pub Act : Type 0 → Type 0
Act A = Service → A × Service

module _ {A : Type 0} where
  abbrev pub pure : A → Act A
  pure a s = (a, s)

infixl 5 ◌>>=◌ ◌>>◌
abbrev pub ◌>>=◌ : {A B : Type 0} → Act A → (A → Act B) → Act B
◌>>=◌ m f s = let (a, s') = m s in f a s'

abbrev pub ◌>>◌ : {B : Type 0} → Act (Unit {0}) → Act B → Act B
m >> k = m >>= λ _. k

abbrev pub set_database : ℕ → Db → (ℕ → Db) → ℕ → Db
set_database tenant_id db databases t = if t == tenant_id then db else databases t

-- What the pool of a tenant does.
unfoldable pub on_tenant : {E A : Type 0} → ℕ → Exec E A → Act (Result E A)
on_tenant tenant_id m s =
    let (r, w) = m (record s.world { db = s.databases tenant_id }) in
    (r, record s { world = w; databases = set_database tenant_id w.db s.databases })

unfoldable pub next_call : Act ℕ
next_call s = (s.world.calls, record s { world = record s.world { calls = s.world.calls + 1 } })

abbrev pub take_fault : List (Option DiskFault) → Option DiskFault × List (Option DiskFault)
take_fault [] = (none, [])
take_fault (fault ∷ rest) = (fault, rest)

unfoldable pub disk : Act (Option DiskFault)
disk s = let (fault, rest) = take_fault s.disk_faults in (fault, record s { disk_faults = rest })

module _ {A : Type 0} where
  -- A line behind a fragment is one line with it, which is no record.
  abbrev pub add_line : A → File A → File A
  add_line a file =
      if file.torn
      then record file { torn = false }
      else record file { lines = file.lines ++ a ∷ [] }

  -- What an append leaves. Where all of the line was written and the `sync_all` failed, it is there.
  abbrev pub append_line : A → Option DiskFault → File A → File A
  append_line a none file = add_line a file
  append_line a (some unopened) file = file
  append_line a (some (cut zero fragment)) file = record file { torn = file.torn || fragment }
  append_line a (some (cut (suc n) fragment)) file = add_line a file

  -- What `fs::write` of some lines leaves.
  abbrev pub write_lines : List A → Option DiskFault → File A → File A
  write_lines lines none file = record { lines = lines; torn = false }
  write_lines lines (some unopened) file = file
  write_lines lines (some (cut n fragment)) file = record { lines = take n lines; torn = fragment }

abbrev pub append_buffer : AuditRecord → Option DiskFault → Act (Unit {0})
append_buffer r fault s = (tt, record s { buffer = append_line r fault s.buffer })

-- `buffer::append`
unfoldable pub append : AuditRecord → Act (Unit {0})
append r = disk >>= append_buffer r

abbrev pub append_pending_line : PendingAuditRecord → Option DiskFault → Act (Unit {0})
append_pending_line r fault s = (tt, record s { pending = append_line r fault s.pending })

-- `pending::append`
unfoldable pub append_pending : PendingAuditRecord → Act (Unit {0})
append_pending r = disk >>= append_pending_line r

-- `AuthEnabledCache::is_enabled`: a tenant that is not in the cache is enabled.
unfoldable pub is_enabled : ℕ → List (ℕ × Bool) → Bool
is_enabled tenant_id flags = get_or (lookup tenant_id flags) true

-- `AuthEnabledCache::refresh` with the rows of its query, or none if that failed.
unfoldable pub refresh : Option (List (ℕ × Bool)) → List (ℕ × Bool) → List (ℕ × Bool)
refresh none flags = flags
refresh (some rows) flags = rows
