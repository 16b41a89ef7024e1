-- ===== src/Otp/Provider.antt =====
-- src/otp/provider.rs: the cache of provider credentials, and the walk over a tenant's providers.
-- `split_kv_path` is of src/keystore.rs.
use messgr.Base.{
  ℕ, String, Bool, true, false, Option, none, some, List, [], ◌∷◌, map, if◌then◌else◌, ◌==◌, get_or,
  lookup, put, nat_eq, string_eq, option_eq, list_eq,
}
use Prim.Native.Char.{code, Char}
use messgr.Store.Exec.{Result, ok, err, Message}
use messgr.Dispatcher.Worker.{SendOutcome, SenderError, http, provider}
use messgr.Otp.Model.{ProviderConfig, ResolvedProviderConfig}
use messgr.Otp.Service.{Env, Act, pure, ◌>>=◌, ◌>>◌, next_call}

abbrev pub strip_prefix : String → String → Option String
strip_prefix String.[] s = some s
strip_prefix (String.◌∷◌ c prefix) String.[] = none
strip_prefix (String.◌∷◌ c prefix) (String.◌∷◌ d s) =
    let rest = strip_prefix prefix s in if code c == code d then rest else none

abbrev add_front : Char → Option (String × String) → Option (String × String)
add_front c none = none
add_front c (some (a, b)) = some (String.◌∷◌ c a, b)

abbrev split_here : Option String → Option (String × String) → Option (String × String)
split_here none later = later
split_here (some rest) later = some (String.[], rest)

-- `split_once("/data/")`
unfoldable pub split_kv_path : String → Option (String × String)
split_kv_path String.[] = none
split_kv_path (String.◌∷◌ c s) =
    split_here (strip_prefix "/data/" (String.◌∷◌ c s)) (add_front c (split_kv_path s))

abbrev pub resolved :
    ProviderConfig → Option String → List ResolvedProviderConfig → List ResolvedProviderConfig
resolved config none rest = rest
resolved config (some api_key) rest =
    record {
      priority = config.priority;
      credential_path = config.credential_path;
      api_key = api_key;
    }
    ∷ rest

module _ (env : Env) where
  abbrev pub read_credential : ProviderConfig → Option (String × String) → Act (Option String)
  read_credential config none = pure none
  read_credential config (some path) =
      next_call >>= λ call. pure (env.read_provider_credential call path)

  unfoldable pub resolve_configs : List ProviderConfig → Act (List ResolvedProviderConfig)
  resolve_configs [] = pure []
  resolve_configs (config ∷ configs) =
      read_credential config (split_kv_path config.credential_path) >>= λ api_key.
      resolve_configs configs >>= λ rest. pure (resolved config api_key rest)

  abbrev pub resolve_listed :
      Option (List ProviderConfig) → Act (Option (List ResolvedProviderConfig))
  resolve_listed none = pure none
  resolve_listed (some configs) = resolve_configs configs >>= λ rs. pure (some rs)

  -- None if the database did not answer.
  unfoldable pub resolve_all : ℕ → Act (Option (List ResolvedProviderConfig))
  resolve_all tenant_id = next_call >>= λ call. resolve_listed (env.list_configs call tenant_id)

  abbrev pub insert_entry : ℕ → List ResolvedProviderConfig → Act (Unit {0})
  insert_entry tenant_id rs s = (tt, record s { providers = put tenant_id rs s.providers })

  abbrev pub cached_or :
      ℕ → Option (List ResolvedProviderConfig) → Act (List ResolvedProviderConfig)
  cached_or tenant_id (some cached) = pure cached
  cached_or tenant_id none = resolve_all tenant_id >>= λ answer.
      insert_entry tenant_id (get_or answer []) >> pure (get_or answer [])

  -- The write lock is held from the second look on, so that the two looks see one cache.
  unfoldable pub get_or_fetch : ℕ → Act (List ResolvedProviderConfig)
  get_or_fetch tenant_id s = cached_or tenant_id (lookup tenant_id s.providers) s

  abbrev pub keep_or_insert : ℕ → Option (List ResolvedProviderConfig) → Act (Unit {0})
  keep_or_insert tenant_id none = pure tt
  keep_or_insert tenant_id (some rs) = insert_entry tenant_id rs

  abbrev pub refresh_tenant : ℕ → Bool → Act (Unit {0})
  refresh_tenant tenant_id false = pure tt
  refresh_tenant tenant_id true = resolve_all tenant_id >>= keep_or_insert tenant_id

  unfoldable pub refresh_tenants : List ℕ → Act (Unit {0})
  refresh_tenants [] = pure tt
  refresh_tenants (tenant_id ∷ rest) = next_call >>= λ call.
      refresh_tenant tenant_id (env.get_or_open call tenant_id) >> refresh_tenants rest

  unfoldable pub refresh_once : Act (Unit {0})
  refresh_once s = refresh_tenants (map (λ entry. entry.0) s.providers) s

  abbrev pub provider_status : Option SenderError → Option String
  provider_status (some (provider status)) = some (env.show_status status)
  provider_status (some http) = none
  provider_status none = none

  abbrev pub try_send : ResolvedProviderConfig → Message → Act (Result SenderError SendOutcome)
  try_send config m = next_call >>= λ call.
      λ s. (env.send call config m, record s { world = record s.world { sent = m ∷ s.world.sent } })

  abbrev pub or_next :
      Result SenderError SendOutcome
      → (Option SenderError → Act (Result (Option SenderError) SendOutcome))
      → Act (Result (Option SenderError) SendOutcome)
  or_next (ok outcome) next = pure (ok outcome)
  or_next (err e) next = next (some e)

  -- `send`, with the last error so far.
  unfoldable pub send_to :
      List ResolvedProviderConfig
      → Message
      → Option SenderError
      → Act (Result (Option SenderError) SendOutcome)
  send_to [] m last_err = pure (err last_err)
  send_to (config ∷ rest) m last_err =
      try_send config m >>= λ answer. or_next answer (λ e. send_to rest m e)
