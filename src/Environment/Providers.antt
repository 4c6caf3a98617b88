-- ===== src/Environment/Providers.antt =====
-- core/env_config.py: the AI providers, their keys and models, and the roles.
use xyn_seed.Base.{
  String, Bool, not, ◌&&◌, ◌||◌, List, [], ◌∷◌, ◌==◌, ◌<>◌, nat_eq, string_eq, if◌then◌else◌, any,
}
use xyn_seed.Base.Text.{strip, lower}
use xyn_seed.Environment.{Loader, ◌>>=◌, pure, raise, env}

-- The keys of the three providers, `provider` with `enabled`, and the model.
pub record AiKeys : Type 0 where
  pub openai : String
  pub gemini : String
  pub anthropic : String

-- What is set for one role.
pub record Overlay : Type 0 where
  pub provider : String
  pub model : String
  pub api_key : String

abbrev pub is_in : List String → String → Bool
is_in xs x = any (λ y. y == x) xs

-- `_resolve_ai_provider_and_keys`.
unfoldable pub load_ai_keys : Loader AiKeys
load_ai_keys = do
  openai ← env "XYN_OPENAI_API_KEY" "" ("OPENAI_API_KEY" ∷ [])
  gemini ←
      env "XYN_GEMINI_API_KEY" "" ("XYN_GOOGLE_API_KEY" ∷ "GEMINI_API_KEY" ∷ "GOOGLE_API_KEY" ∷ [])
  anthropic ← env "XYN_ANTHROPIC_API_KEY" "" ("ANTHROPIC_API_KEY" ∷ [])
  pure (record { openai = openai; gemini = gemini; anthropic = anthropic })

-- `keys.get(provider)`, and the name of its variable.
abbrev pub key_of : AiKeys → String → String
key_of keys provider =
    if provider == "openai"
    then keys.openai
    else if provider == "gemini"
    then keys.gemini
    else if provider == "anthropic"
    then keys.anthropic
    else ""

abbrev pub key_name : String → String
key_name provider =
    if provider == "openai"
    then "XYN_OPENAI_API_KEY"
    else if provider == "gemini"
    then "XYN_GEMINI_API_KEY"
    else "XYN_ANTHROPIC_API_KEY"

-- The provider when none is named.
unfoldable pub implied_provider : AiKeys → Loader String
implied_provider keys =
    if not (keys.openai == "")
    then pure "openai"
    else if keys.gemini == "" && keys.anthropic == ""
    then pure "none"
    else if keys.anthropic == ""
    then pure "gemini"
    else if keys.gemini == ""
    then pure "anthropic"
    else raise "Multiple AI provider keys are set; specify XYN_AI_PROVIDER explicitly"

unfoldable pub chosen_provider : AiKeys → String → Loader String
chosen_provider keys explicit =
    if explicit == ""
    then implied_provider keys
    else if not (is_in ("openai" ∷ "gemini" ∷ "anthropic" ∷ "none" ∷ "disabled" ∷ []) explicit)
    then raise "XYN_AI_PROVIDER must be one of: openai|gemini|anthropic|none"
    else if is_in ("none" ∷ "disabled" ∷ []) explicit
    then pure "none"
    else if key_of keys explicit == ""
    then raise ("XYN_AI_PROVIDER=" <> explicit <> " requires " <> key_name explicit)
    else pure explicit

unfoldable pub resolve_ai_provider : AiKeys → Loader String
resolve_ai_provider keys = do
  explicit ← env "XYN_AI_PROVIDER" "" []
  chosen_provider keys (lower (strip explicit))

-- The flag that `_resolve_ai_provider_and_keys` returns with a provider.
abbrev pub is_enabled : String → Bool
is_enabled provider = not (provider == "none")

abbrev pub default_model : String → String
default_model provider =
    if provider == "openai"
    then "gpt-5-mini"
    else if provider == "gemini"
    then "gemini-2.0-flash"
    else if provider == "anthropic"
    then "claude-3-7-sonnet-latest"
    else "none"

unfoldable pub default_ai_model : String → Loader String
default_ai_model provider = do
  explicit ← env "XYN_AI_MODEL" "" []
  pure (if explicit == "" then default_model provider else explicit)

unfoldable pub load_ai_model : String → Loader String
load_ai_model provider = if is_enabled provider then default_ai_model provider else pure "none"

abbrev pub no_overlay : Overlay
no_overlay = record { provider = ""; model = ""; api_key = "" }

unfoldable pub checked_overlay : String → String → String → String → String → Loader Overlay
checked_overlay prefix role_slug provider model api_key =
    if provider == "" && model == "" && api_key == ""
    then pure no_overlay
    else if provider == "" || model == "" || api_key == ""
    then raise (
        prefix <> "_PROVIDER, " <> prefix <> "_MODEL, and " <> prefix
        <> "_API_KEY must all be set when configuring the " <> role_slug <> " bootstrap agent")
    else if not (is_in ("openai" ∷ "gemini" ∷ "anthropic" ∷ "google" ∷ []) provider)
    then raise (prefix <> "_PROVIDER must be one of: openai|gemini|anthropic")
    else pure (record {
      provider = if provider == "google" then "gemini" else provider;
      model = model;
      api_key = api_key;
    })

-- `prefix` is `f"XYN_AI_{role_slug.upper()}"`.
unfoldable pub resolve_overlay_ai_role : String → String → Loader Overlay
resolve_overlay_ai_role prefix role_slug = do
  provider ← env (prefix <> "_PROVIDER") "" []
  model ← env (prefix <> "_MODEL") "" []
  api_key ← env (prefix <> "_API_KEY") "" []
  checked_overlay prefix role_slug (lower (strip provider)) (strip model) (strip api_key)
