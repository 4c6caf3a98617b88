-- ===== src/Environment/Export.antt =====
-- core/env_config.py: `export_runtime_env`.
use xyn_seed.Base.{String, Bool, [], ◌∷◌, ◌==◌, string_eq, if◌then◌else◌}
use xyn_seed.Base.Decimal.{str}
use xyn_seed.Base.Dict.{Dict}
use xyn_seed.Environment.Config.{SeedConfig}

abbrev pub flag : Bool → String
flag b = if b then "true" else "false"

-- `if config.base_domain: exported["DOMAIN"] = config.base_domain`.
abbrev pub domain_entry : String → Dict String
domain_entry base_domain = if base_domain == "" then [] else ("DOMAIN", base_domain) ∷ []

unfoldable pub export_runtime_env : SeedConfig → Dict String
export_runtime_env config =
    ("XYN_ENV", config.env_name)
    ∷ ("XYN_BASE_DOMAIN", config.base_domain)
    ∷ ("XYN_AUTH_MODE", config.auth_mode)
    ∷ ("XYN_PUBLIC_BASE_URL", config.public_base_url)
    ∷ ("XYN_TRUST_PROXY", flag config.trust_proxy)
    ∷ ("XYN_TRUSTED_PROXY_CIDRS", config.trusted_proxy_cidrs)
    ∷ ("XYN_DEBUG_AUTH", flag config.debug_auth)
    ∷ ("XYN_INTERNAL_TOKEN", config.internal_token)
    ∷ ("XYN_OIDC_ISSUER", config.oidc_issuer)
    ∷ ("XYN_OIDC_CLIENT_ID", config.oidc_client_id)
    ∷ ("XYN_OIDC_REDIRECT_URI", config.oidc_redirect_uri)
    ∷ ("XYN_AI_PROVIDER", config.ai_provider)
    ∷ ("XYN_AI_MODEL", config.ai_model)
    ∷ ("XYN_AI_ENABLED", flag config.ai_enabled)
    ∷ ("XYN_AI_PLANNING_PROVIDER", config.ai_planning.provider)
    ∷ ("XYN_AI_PLANNING_MODEL", config.ai_planning.model)
    ∷ ("XYN_AI_PLANNING_API_KEY", config.ai_planning.api_key)
    ∷ ("XYN_AI_CODING_PROVIDER", config.ai_coding.provider)
    ∷ ("XYN_AI_CODING_MODEL", config.ai_coding.model)
    ∷ ("XYN_AI_CODING_API_KEY", config.ai_coding.api_key)
    ∷ ("XYN_DEFAULT_MODEL_PROVIDER", config.ai_provider)
    ∷ ("XYN_DEFAULT_MODEL_NAME", config.ai_model)
    ∷ ("XYN_OPENAI_API_KEY", config.ai_keys.openai)
    ∷ ("XYN_GEMINI_API_KEY", config.ai_keys.gemini)
    ∷ ("XYN_GOOGLE_API_KEY", config.ai_keys.gemini)
    ∷ ("XYN_ANTHROPIC_API_KEY", config.ai_keys.anthropic)
    ∷ ("OPENAI_API_KEY", config.ai_keys.openai)
    ∷ ("GEMINI_API_KEY", config.ai_keys.gemini)
    ∷ ("GOOGLE_API_KEY", config.ai_keys.gemini)
    ∷ ("ANTHROPIC_API_KEY", config.ai_keys.anthropic)
    ∷ ("XYN_SECRET_KEY", config.secret_key)
    ∷ ("XYN_CREDENTIALS_ENCRYPTION_KEY", config.credentials_encryption_key)
    ∷ ("DATABASE_URL", config.database_url)
    ∷ ("REDIS_URL", config.redis_url)
    ∷ ("XYN_ARTIFACT_ROOT", config.artifact_root)
    ∷ ("ARTIFACT_STORE_PATH", config.artifact_root)
    ∷ ("XYN_WORKSPACE_ROOT", config.workspace_root)
    ∷ ("XYN_LOCAL_WORKSPACE_ROOT", config.workspace_root)
    ∷ ("XYNSEED_WORKSPACE", config.workspace_root)
    ∷ ("XYN_WORKSPACE_RETENTION_DAYS", str config.workspace_retention_days)
    ∷ domain_entry config.base_domain
