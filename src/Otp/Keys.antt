-- ===== src/Otp/Keys.antt =====
-- The customer's key in src/otp/handler.rs: what getting it leaves as it is.
use messgr.Base.{
  ℕ, ◌≡◌, refl, sym, ap, ◌∙◌, inl, inr, List, ◌==◌, beq_eq, Bool-cases, nat_eq, string_eq,
  option_eq, list_eq,
}
use messgr.Store.Tables.{CustomerDek, Db}
use messgr.Customers.DekFrame.{get_or_create_dek-Keeps}
use messgr.Otp.Service.{Service, Env, on_tenant, set_database}
use messgr.Otp.Handler.{customer_key}

-- Only the tables of customer keys may differ.
pub record OnlyDeks (s s' : Service) : Type 0 where
  pub sent : s'.world.sent ≡ s.world.sent
  pub flags : s'.flags ≡ s.flags
  pub providers : s'.providers ≡ s.providers
  pub buffer : s'.buffer ≡ s.buffer
  pub pending : s'.pending ≡ s.pending
  pub disk_faults : s'.disk_faults ≡ s.disk_faults
  pub databases :
      (t : ℕ) → (ks : List CustomerDek) × (s'.databases t ≡ record (s.databases t) { deks = ks })

at_database :
    (tenant_id t : ℕ) (databases : ℕ → Db) (db : Db) (ks : List CustomerDek)
    → db ≡ record (databases tenant_id) { deks = ks }
    → (ls : List CustomerDek) × (set_database tenant_id db databases t
        ≡ record (databases t) { deks = ls })
at_database tenant_id t databases db ks h = elim (Bool-cases (t == tenant_id)) [
  | inl e ↦
      let same : t ≡ tenant_id = beq_eq t tenant_id e in
      (ks, rw e h ∙ ap (λ i. record (databases i) { deks = ks }) (sym same))
  | inr e ↦ ((databases t).deks, rw e refl)
]

pub customer_key-OnlyDeks :
    (env : Env) (tenant_id customer_id : ℕ) (s : Service)
    → OnlyDeks s (customer_key env tenant_id customer_id s).1
unfolding customer_key on_tenant
customer_key-OnlyDeks env tenant_id customer_id s =
    let k =
      get_or_create_dek-Keeps (env.keystore tenant_id) customer_id
        (record s.world { db = s.databases tenant_id }) in
    record {
      sent = k.sent;
      flags = refl;
      providers = refl;
      buffer = refl;
      pending = refl;
      disk_faults = refl;
      databases = λ t. at_database tenant_id t s.databases _ k.deks k.db;
    }
