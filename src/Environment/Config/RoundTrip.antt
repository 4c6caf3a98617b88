-- ===== src/Environment/Config/RoundTrip.antt =====
-- core/env_config.py: a process that starts with an exported environment loads the same
-- configuration.
use xyn_seed.Base.{
  ℕ, String, Bool, true, false, none, some, List, [], ◌==◌, string_eq, nat_eq, ◌≡◌, ◌≤◌, refl, ap,
  ◌∙◌, arith,
}
use xyn_seed.Base.Decimal.{int, str, int-str, strip-str, str-non_blank}
use xyn_seed.Base.Dict.{get}
use xyn_seed.Base.Text.{strip, lower}
use xyn_seed.Environment.{
  Process, returned, ◌>>=◌, pure, read_dotenv, read_lines, set_defaults, load_seed_dotenv_once,
  non_blank,
}
use xyn_seed.Environment.Config.{SeedConfig, is_on, days_of, load_seed_config}
use xyn_seed.Environment.Providers.{load_ai_keys, is_enabled}
use xyn_seed.Environment.Config.Facts.{IsLoaded, load_seed_config-Ensures}
use xyn_seed.Environment.Config.Loading.{
  Runs, bind-Runs, raise_if-Runs, pure-Runs, env-kept, env-stripped, load_env_name-again,
  load_auth_mode-again, load_internal_token-again, resolve_ai_provider-again, load_ai_model-again,
  resolve_overlay_ai_role-again,
}
use xyn_seed.Environment.Ensures.{IsKept}
use xyn_seed.Environment.Export.{flag, domain_entry, export_runtime_env}

-- A process that was started with the variables of the configuration only, before it has looked for
-- a `.env` file and after.
abbrev pub started : SeedConfig → Process
started c = record { environ = export_runtime_env c; env_loaded = false }

abbrev pub exported : SeedConfig → Process
exported c = record { environ = export_runtime_env c; env_loaded = true }

flag-IsKept : (b : Bool) → IsKept (flag b)
unfolding strip
flag-IsKept true = (refl, refl)
flag-IsKept false = (refl, refl)

is_on-flag : (b : Bool) → is_on (flag b) ≡ b
unfolding lower
is_on-flag true = refl
is_on-flag false = refl

days_of-str : (n : ℕ) → 1 ≤ n → days_of (int (str n)) ≡ n
days_of-str n h = rw (int-str n) (ground (arith, h))

domain_entry-other :
    (domain key : String) → ("DOMAIN" == key) ≡ false → get (domain_entry domain) key ≡ none
unfolding get
domain_entry-other domain key h = ground (arith, h)

non_blank-no_domain :
    (domain : String) → domain ≡ "" → non_blank (get (domain_entry domain) "DOMAIN") ≡ none
unfolding get non_blank
non_blank-no_domain domain h = rw h refl

non_blank-empty : (v : String) → v ≡ "" → non_blank (some v) ≡ none
unfolding non_blank strip
non_blank-empty v h = rw h refl

load_ai_keys-again : (c : SeedConfig) → IsLoaded c → Runs load_ai_keys (exported c) c.ai_keys
unfolding load_ai_keys export_runtime_env get
load_ai_keys-again c h =
    let keys = c.ai_keys in
    let no_gemini = non_blank-empty keys.gemini in
    bind-Runs _ (env-stripped _ _ refl h.ai_keys.0 (λ e. (non_blank-empty keys.openai e, tt))) (
      bind-Runs _
        (env-stripped _ _ refl h.ai_keys.1 (λ e. (no_gemini e, (no_gemini e, (no_gemini e, tt)))))
        (bind-Runs _
          (env-stripped _ _ refl h.ai_keys.2 (λ e. (non_blank-empty keys.anthropic e, tt)))
          (pure-Runs keys (exported c))))

-- The three names of the old OIDC variables are not exported.
no_alias :
    (c : SeedConfig) (alias : String)
    → get (export_runtime_env c) alias ≡ none
    → non_blank (get (exported c).environ alias) ≡ none
unfolding non_blank
no_alias c alias h = rw h refl

load_seed_dotenv_once-again :
    (c : SeedConfig) → load_seed_dotenv_once [] (started c) ≡ returned tt (exported c)
unfolding load_seed_dotenv_once read_dotenv read_lines set_defaults pure
load_seed_dotenv_once-again c = refl

again :
    (c : SeedConfig)
    → IsLoaded c
    → record c {
      trust_proxy = is_on (flag c.trust_proxy);
      debug_auth = is_on (flag c.debug_auth);
      ai_enabled = is_enabled c.ai_provider;
      workspace_retention_days = days_of (int (str c.workspace_retention_days));
    }
      ≡ c
again c h =
    rw
      (
        is_on-flag c.trust_proxy,
        is_on-flag c.debug_auth,
        ← h.ai_enabled,
        days_of-str c.workspace_retention_days h.workspace_retention_days,
      )
      refl

dotenv_done :
    (lines : List String) (c : SeedConfig) → Runs (load_seed_dotenv_once lines) (exported c) tt
unfolding load_seed_dotenv_once pure
dotenv_done lines c = record { result = refl }

pure-eq-Runs : {A : Type 0} {a b : A} {p : Process} → a ≡ b → Runs (pure a) p b
unfolding pure
pure-eq-Runs {p = p} e = record { result = ap (λ d. returned d p) e }

module _ (c : SeedConfig) (h : IsLoaded c) where
  -- `load_seed_config` after the first line.
  from_exported : (lines : List String) → Runs (load_seed_config lines) (exported c) c
  unfolding load_seed_config export_runtime_env get
  from_exported lines =
      let p = exported c in
      let other = domain_entry-other c.base_domain in
      let days = c.workspace_retention_days in
      bind-Runs _ (dotenv_done lines c) (
        bind-Runs _ (load_env_name-again p c.env_name refl h.env_name) (
          bind-Runs _ (load_auth_mode-again p c.auth_mode refl h.auth_mode) (
            bind-Runs _ (env-kept _ _ _ refl h.public_base_url) (
              bind-Runs _ (env-kept _ _ _ refl (flag-IsKept c.trust_proxy)) (
                bind-Runs _ (env-kept _ _ _ refl h.trusted_proxy_cidrs) (
                  bind-Runs _ (env-kept _ _ _ refl (flag-IsKept c.debug_auth)) (
                    bind-Runs _
                      (env-stripped _ _ refl h.base_domain
                        (λ e. (non_blank-no_domain c.base_domain e, tt)))
                      (bind-Runs _
                        (load_internal_token-again p c.env_name c.internal_token refl
                          h.internal_token)
                        (bind-Runs _
                          (env-stripped _ _ refl h.oidc_issuer
                            (λ e. (no_alias c "OIDC_ISSUER" (other "OIDC_ISSUER" refl), tt)))
                          (bind-Runs _
                            (env-stripped _ _ refl h.oidc_client_id (λ e.
                              (no_alias c "OIDC_CLIENT_ID" (other "OIDC_CLIENT_ID" refl), tt)))
                            (bind-Runs _
                              (env-stripped _ _ refl h.oidc_redirect_uri (λ e. (
                                no_alias c "OIDC_REDIRECT_URI" (other "OIDC_REDIRECT_URI" refl),
                                tt,
                              )))
                              (bind-Runs _ (raise_if-Runs _ h.oidc) (
                                bind-Runs _ (load_ai_keys-again c h) (
                                  bind-Runs _
                                    (resolve_ai_provider-again p c.ai_keys c.ai_provider refl
                                      h.ai_provider)
                                    (bind-Runs _
                                      (load_ai_model-again p c.ai_provider c.ai_model refl
                                        h.ai_model)
                                      (bind-Runs _
                                        (resolve_overlay_ai_role-again p "XYN_AI_PLANNING"
                                          "planning" c.ai_planning refl refl refl h.ai_planning)
                                        (bind-Runs _
                                          (resolve_overlay_ai_role-again p "XYN_AI_CODING" "coding"
                                            c.ai_coding refl refl refl h.ai_coding)
                                          (bind-Runs _ (raise_if-Runs _ h.overlays) (
                                            bind-Runs _ (env-kept _ _ _ refl h.database_url) (
                                              bind-Runs _ (env-kept _ _ _ refl h.redis_url) (
                                                bind-Runs _ (env-kept _ _ _ refl h.artifact_root) (
                                                  bind-Runs _ (env-kept _ _ _ refl h.artifact_root)
                                                    (bind-Runs _
                                                      (env-kept _ _ _ refl h.workspace_root)
                                                      (bind-Runs _
                                                        (env-kept _ _ _ refl h.workspace_root)
                                                        (bind-Runs _
                                                          (env-kept _ _ _ refl h.workspace_root)
                                                          (bind-Runs _
                                                            (env-kept _ _ _ refl
                                                            (strip-str days, str-non_blank days))
                                                            (bind-Runs _
                                                            (env-stripped _ _ refl h.secret_key
                                                            (λ e. tt))
                                                            (bind-Runs _
                                                            (env-stripped _ _ refl
                                                            h.credentials_encryption_key (λ e. tt))
                                                            (pure-eq-Runs
                                                            (again c h))))))))))))))))))))))))))))))

start-exported :
    (c : SeedConfig) → load_seed_config [] (started c) ≡ load_seed_config [] (exported c)
unfolding load_seed_config ◌>>=◌ load_seed_dotenv_once read_dotenv read_lines set_defaults pure
start-exported c = refl

-- Whatever the environment and the `.env` file were from which a configuration was loaded, a
-- process that is started with the environment that `export_runtime_env` makes of it, and has no
-- `.env` file, loads the same configuration, and does not change that environment.
pub load_seed_config-export :
    (lines : List String) (p q : Process) (c : SeedConfig)
    → load_seed_config lines p ≡ returned c q
    → load_seed_config [] (started c) ≡ returned c (exported c)
load_seed_config-export lines p q c e =
    let loaded = (load_seed_config-Ensures lines).holds p q c e in
    start-exported c ∙ (from_exported c loaded []).result
