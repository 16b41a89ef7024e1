-- ===== src/Otp/Walk.antt =====
-- The providers of src/otp/provider.rs: the credentials that a request gets, and the sends it makes.
use messgr.Base.{
  ℕ, zero, suc, ◌+◌, String, ◌≡◌, refl, ap, subst, ◌∙◌, Option, none, some, List, [], ◌∷◌, beq_refl,
  lookup, lookup-put, nat_eq, string_eq, option_eq, list_eq,
}
use messgr.Store.Exec.{Result, ok, err, Message}
use messgr.Dispatcher.Worker.{SendOutcome, SenderError}
use messgr.Otp.Model.{ProviderConfig, ResolvedProviderConfig}
use messgr.Otp.Service.{Service, Env, next_call}
use messgr.Otp.Provider.{
  get_or_fetch, resolve_all, resolve_listed, resolve_configs, read_credential, cached_or, send_to,
  split_kv_path, or_next,
}

-- Nothing that is recorded changes.
pub record Idle (s s' : Service) : Type 0 where
  pub databases : s'.databases ≡ s.databases
  pub flags : s'.flags ≡ s.flags
  pub buffer : s'.buffer ≡ s.buffer
  pub pending : s'.pending ≡ s.pending
  pub disk_faults : s'.disk_faults ≡ s.disk_faults

pub Idle-refl : (s : Service) → Idle s s
Idle-refl s = record {
  databases = refl;
  flags = refl;
  buffer = refl;
  pending = refl;
  disk_faults = refl;
}

pub Idle-trans : {s t u : Service} → Idle s t → Idle t u → Idle s u
Idle-trans h k = record {
  databases = k.databases ∙ h.databases;
  flags = k.flags ∙ h.flags;
  buffer = k.buffer ∙ h.buffer;
  pending = k.pending ∙ h.pending;
  disk_faults = k.disk_faults ∙ h.disk_faults;
}

abbrev pub repeat : {A : Type 0} → ℕ → A → List A → List A
repeat zero a xs = xs
repeat (suc n) a xs = a ∷ repeat n a xs

repeat-cons : {A : Type 0} (n : ℕ) (a : A) (xs : List A) → repeat n a (a ∷ xs) ≡ a ∷ repeat n a xs
repeat-cons zero a xs = refl
repeat-cons (suc n) a xs = ap (λ ys. a ∷ ys) (repeat-cons n a xs)

module _ (env : Env) where
  -- The answers of the providers, asked in turn from a call on, up to the first that takes the message:
  -- what the walk ends with after how many tries, given the last error so far.
  pub data Asked (m : Message)
      : List ResolvedProviderConfig
        → ℕ
        → Option SenderError
        → Result (Option SenderError) SendOutcome
        → ℕ
        → Type 0 where
    nobody_left : {call : ℕ} {last : Option SenderError} → Asked m [] call last (err last) 0
    takes :
        {config : ResolvedProviderConfig} {rest : List ResolvedProviderConfig} {call : ℕ}
        {last : Option SenderError} {outcome : SendOutcome}
        → env.send call config m ≡ ok outcome
        → Asked m (config ∷ rest) call last (ok outcome) 1
    refuses :
        {config : ResolvedProviderConfig} {rest : List ResolvedProviderConfig} {call tries : ℕ}
        {last : Option SenderError} {answer : Result (Option SenderError) SendOutcome}
        (e : SenderError)
        → env.send call config m ≡ err e
        → Asked m rest (call + 1) (some e) answer tries
        → Asked m (config ∷ rest) call last answer (suc tries)

  -- The message was handed over once for each try, and nothing else changed.
  pub record Walked (configs : List ResolvedProviderConfig) (m : Message)
      (last : Option SenderError) (s : Service) (answer : Result (Option SenderError) SendOutcome)
      (s' : Service) : Type 0 where
    pub tries : ℕ
    pub asked : Asked m configs s.world.calls last answer tries
    pub idle : Idle s s'
    pub providers : s'.providers ≡ s.providers
    pub sent : s'.world.sent ≡ repeat tries m s.world.sent

  module _ (config : ResolvedProviderConfig) (rest : List ResolvedProviderConfig) (m : Message)
      (last : Option SenderError) (s t : Service) (idle : Idle s t)
      (same : t.providers ≡ s.providers) (once : t.world.sent ≡ m ∷ s.world.sent)
      (counted : t.world.calls ≡ s.world.calls + 1) where
    after_try :
        (answer : Result SenderError SendOutcome)
        → env.send s.world.calls config m ≡ answer
        → ((e : SenderError)
            → let out = send_to env rest m (some e) t in Walked rest m (some e) t out.0 out.1)
        → let out = or_next env answer (λ e. send_to env rest m e) t in
          Walked (config ∷ rest) m last s out.0 out.1
    after_try (ok outcome) is ih = record {
      tries = 1;
      asked = takes is;
      idle = idle;
      providers = same;
      sent = once;
    }
    after_try (err e) is ih =
        let w = ih e in
        record {
          tries = suc w.tries;
          asked = refuses e is (
              subst (λ call. Asked m rest call (some e) (send_to env rest m (some e) t).0 w.tries)
                counted w.asked);
          idle = Idle-trans idle w.idle;
          providers = w.providers ∙ same;
          sent = w.sent ∙ ap (repeat w.tries m) once ∙ repeat-cons w.tries m s.world.sent;
        }

  pub send_to-Walked :
      (configs : List ResolvedProviderConfig) (m : Message) (last : Option SenderError)
      (s : Service)
      → let out = send_to env configs m last s in Walked configs m last s out.0 out.1
  unfolding send_to next_call
  send_to-Walked [] m last s = record {
    tries = 0;
    asked = nobody_left;
    idle = Idle-refl s;
    providers = refl;
    sent = refl;
  }
  send_to-Walked (config ∷ rest) m last s =
      after_try config rest m last s _
        (record {
          databases = refl;
          flags = refl;
          buffer = refl;
          pending = refl;
          disk_faults = refl;
        })
        refl refl refl (env.send s.world.calls config m) refl
        (λ e. send_to-Walked rest m (some e) _)

-- Credentials.

pub record Untouched (s s' : Service) : Type 0 where
  pub idle : Idle s s'
  pub sent : s'.world.sent ≡ s.world.sent

called : (s : Service) (n : ℕ) → Untouched s (record s { world = record s.world { calls = n } })
called s n = record {
  idle = record {
    databases = refl;
    flags = refl;
    buffer = refl;
    pending = refl;
    disk_faults = refl;
  };
  sent = refl;
}

pub Untouched-trans : {s t u : Service} → Untouched s t → Untouched t u → Untouched s u
Untouched-trans h k = record { idle = Idle-trans h.idle k.idle; sent = k.sent ∙ h.sent }

module _ (env : Env) where
  read_credential-Untouched :
      (config : ProviderConfig) (path : Option (String × String)) (s : Service)
      → Untouched s (read_credential env config path s).1
  unfolding next_call
  read_credential-Untouched config none s = record { idle = Idle-refl s; sent = refl }
  read_credential-Untouched config (some path) s = called s _

  resolve_configs-Untouched :
      (configs : List ProviderConfig) (s : Service) → Untouched s (resolve_configs env configs s).1
  unfolding resolve_configs
  resolve_configs-Untouched [] s = record { idle = Idle-refl s; sent = refl }
  resolve_configs-Untouched (config ∷ rest) s =
      Untouched-trans (read_credential-Untouched config (split_kv_path config.credential_path) s)
        (resolve_configs-Untouched rest _)

  resolve_listed-Untouched :
      (answer : Option (List ProviderConfig)) (s : Service)
      → Untouched s (resolve_listed env answer s).1
  resolve_listed-Untouched none s = record { idle = Idle-refl s; sent = refl }
  resolve_listed-Untouched (some configs) s = resolve_configs-Untouched configs s

  resolve_all-Untouched :
      (tenant_id : ℕ) (s : Service) → Untouched s (resolve_all env tenant_id s).1
  unfolding resolve_all next_call
  resolve_all-Untouched tenant_id s =
      Untouched-trans (called s _)
        (resolve_listed-Untouched (env.list_configs s.world.calls tenant_id) _)

  -- The list that a request gets is the tenant's entry in the cache afterwards.
  pub record Fetched (tenant_id : ℕ) (s : Service) (configs : List ResolvedProviderConfig)
      (s' : Service) : Type 0 where
    pub quiet : Untouched s s'
    pub entry : lookup tenant_id s'.providers ≡ some configs

  fetched :
      (tenant_id : ℕ) (s : Service) (cached : Option (List ResolvedProviderConfig))
      → lookup tenant_id s.providers ≡ cached
      → let out = cached_or env tenant_id cached s in Fetched tenant_id s out.0 out.1
  fetched tenant_id s (some configs) e = record {
    quiet = record { idle = Idle-refl s; sent = refl };
    entry = e;
  }
  fetched tenant_id s none e = record {
    quiet = Untouched-trans (resolve_all-Untouched tenant_id s) (record {
      idle = record {
        databases = refl;
        flags = refl;
        buffer = refl;
        pending = refl;
        disk_faults = refl;
      };
      sent = refl;
    });
    entry = lookup-put tenant_id tenant_id _ _ ∙ rw (beq_refl tenant_id) refl;
  }

  pub get_or_fetch-Fetched :
      (tenant_id : ℕ) (s : Service)
      → let out = get_or_fetch env tenant_id s in Fetched tenant_id s out.0 out.1
  unfolding get_or_fetch
  get_or_fetch-Fetched tenant_id s = fetched tenant_id s (lookup tenant_id s.providers) refl
