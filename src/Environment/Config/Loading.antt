-- ===== src/Environment/Config/Loading.antt =====
-- core/env_config.py: the parts of `load_seed_config` in a process whose environment was exported.
use xyn_seed.Base.{
  String, Bool, true, false, none, some, List, [], ◌∷◌, ◌==◌, ◌<>◌, string_eq, nat_eq, ◌≡◌, refl,
  ap, ◌∙◌, inl, inr, arith, eq_iff, All, Bool-cases,
}
use xyn_seed.Base.Dict.{get}
use xyn_seed.Base.Text.{strip, lower}
use xyn_seed.Environment.{
  Process, returned, Loader, ◌>>=◌, pure, raise_if, non_blank, env_alias, env,
}
use xyn_seed.Environment.Config.{
  load_env_name, auth_mode_of, load_auth_mode, token_or_dev, load_internal_token,
}
use xyn_seed.Environment.Providers.{
  AiKeys, Overlay, is_in, key_of, chosen_provider, resolve_ai_provider, is_enabled,
  default_ai_model, load_ai_model, no_overlay, checked_overlay, resolve_overlay_ai_role,
}
use xyn_seed.Environment.Config.Values.{
  IsEnvName, IsAuthMode, ai_providers, IsProvider, IsModel, IsOverlay,
}
use xyn_seed.Environment.Ensures.{IsStripped, IsKept}

-- A loader returns a value and leaves the process as it is.
pub record Runs {A : Type 0} (m : Loader A) (p : Process) (a : A) : Type 0 where
  pub result : m p ≡ returned a p

pub bind-Runs :
    {A B : Type 0} {m : Loader A} {p : Process} {a : A} {b : B} (f : A → Loader B)
    → Runs m p a
    → Runs (f a) p b
    → Runs (m >>= f) p b
unfolding ◌>>=◌
bind-Runs f h k = record { result = ground (arith, h.result, k.result) }

pub raise_if-Runs :
    {b : Bool} (message : String) {p : Process} → b ≡ false → Runs (raise_if b message) p tt
unfolding raise_if pure
raise_if-Runs message h = record { result = rw h refl }

pub pure-Runs : {A : Type 0} (a : A) (p : Process) → Runs (pure a) p a
unfolding pure
pure-Runs a p = record { result = refl }

is_in-All :
    (P : String → Type 0) (v : String) (xs : List String) → All P xs → is_in xs v ≡ true → P v
is_in-All P v [] h i = absurd (ground (arith, i))
is_in-All P v (x ∷ xs) h i = elim (Bool-cases (x == v)) [
  | inl e ↦ rw (← (eq_iff x v).0 e) h.0
  | inr e ↦ is_in-All P v xs h.1 (ground (arith, e, i))
]

non_blank-IsKept : (v : String) → IsKept v → non_blank (some v) ≡ some v
unfolding non_blank
non_blank-IsKept v h = rw (h.0, h.1) refl

env_alias-blank :
    (key default : String) (aliases : List String) (p : Process)
    → All (λ alias. non_blank (get p.environ alias) ≡ none) aliases
    → env_alias key default aliases p ≡ returned default p
unfolding env_alias pure
env_alias-blank key default [] p h = refl
env_alias-blank key default (alias ∷ aliases) p h =
    ground (arith, h.0, env_alias-blank key default aliases p h.1)

pub env-kept :
    {v : String} {p : Process} (key default : String) (aliases : List String)
    → get p.environ key ≡ some v
    → IsKept v
    → Runs (env key default aliases) p v
unfolding env pure
env-kept {v = v} key default aliases there h = record {
  result = ground (arith, there, non_blank-IsKept v h);
}

env-empty :
    (key : String) (aliases : List String) (p : Process)
    → get p.environ key ≡ some ""
    → All (λ alias. non_blank (get p.environ alias) ≡ none) aliases
    → env key "" aliases p ≡ returned "" p
unfolding env strip non_blank
env-empty key aliases p there blank = ground (arith, there, env_alias-blank key "" aliases p blank)

-- A value that may be empty, when the aliases are empty with it.
pub env-stripped :
    {v : String} {p : Process} (key : String) (aliases : List String)
    → get p.environ key ≡ some v
    → IsStripped v
    → (v ≡ "" → All (λ alias. non_blank (get p.environ alias) ≡ none) aliases)
    → Runs (env key "" aliases) p v
env-stripped {v = v} {p = p} key aliases there h blank = elim (Bool-cases (v == "")) [
  | inr e ↦ env-kept key "" aliases there (h, e)
  | inl e ↦
      let same = (eq_iff v "").0 e in
      record { result = rw same (env-empty key aliases p (rw (← same) there) (blank same)) }
]

-- A name that `lower` and the aliases of the mode leave as it is.
abbrev IsPlain : String → Type 0
IsPlain v = IsKept v × ((lower v ≡ v) × (auth_mode_of v ≡ v))

env_name-IsPlain : (v : String) → IsEnvName v → IsKept v × (lower v ≡ v)
unfolding strip lower
env_name-IsPlain v h =
    is_in-All (λ u. IsKept u × (lower u ≡ u)) v ("local" ∷ "dev" ∷ "prod" ∷ [])
      (((refl, refl), refl), (((refl, refl), refl), (((refl, refl), refl), tt))) h

auth_mode-IsPlain : (v : String) → IsAuthMode v → IsPlain v
unfolding strip lower
auth_mode-IsPlain v h =
    is_in-All IsPlain v ("dev" ∷ "token" ∷ "oidc" ∷ [])
      (
        ((refl, refl), (refl, refl)),
        (((refl, refl), (refl, refl)), (((refl, refl), (refl, refl)), tt)),
      )
      h

IsModel-IsKept : (provider v : String) → is_enabled provider ≡ true → IsModel provider v → IsKept v
IsModel-IsKept provider v e = rw e (λ k. k)

module _ (p : Process) where
  pub load_env_name-again :
      (v : String) → get p.environ "XYN_ENV" ≡ some v → IsEnvName v → Runs load_env_name p v
  unfolding load_env_name
  load_env_name-again v there h =
      let plain = env_name-IsPlain v h in
      bind-Runs _ (env-kept _ _ _ there plain.0)
        (rw plain.1 (bind-Runs _ (raise_if-Runs _ (ground (arith, h))) (pure-Runs v p)))

  pub load_auth_mode-again :
      (v : String) → get p.environ "XYN_AUTH_MODE" ≡ some v → IsAuthMode v → Runs load_auth_mode p v
  unfolding load_auth_mode
  load_auth_mode-again v there h =
      let plain = auth_mode-IsPlain v h in
      bind-Runs _ (env-kept _ _ _ there plain.0) (
        rw (plain.1.0, plain.1.1)
          (bind-Runs _ (raise_if-Runs _ (ground (arith, h))) (pure-Runs v p)))

  token_or_dev-again : (v : String) → IsKept v → Runs (token_or_dev v) p v
  unfolding token_or_dev pure
  token_or_dev-again v h = record { result = ground (arith, h.1) }

  pub load_internal_token-again :
      (env_name v : String)
      → get p.environ "XYN_INTERNAL_TOKEN" ≡ some v
      → IsKept v
      → Runs (load_internal_token env_name) p v
  unfolding load_internal_token
  load_internal_token-again env_name v there h =
      bind-Runs _ (env-kept _ _ _ there h)
        (bind-Runs _ (raise_if-Runs _ (ground (arith, h.1))) (token_or_dev-again v h))

  chosen_provider-again :
      (keys : AiKeys) (v : String) → IsProvider keys v → Runs (chosen_provider keys v) p v
  unfolding chosen_provider
  chosen_provider-again keys v (inl h) = rw h (pure-Runs "none" p)
  chosen_provider-again keys v (inr (named, has_key)) =
      is_in-All (λ u. (key_of keys u == "") ≡ false → Runs (chosen_provider keys u) p u) v
        ai_providers
        (
          (λ k. rw k (pure-Runs "openai" p)),
          ((λ k. rw k (pure-Runs "gemini" p)), ((λ k. rw k (pure-Runs "anthropic" p)), tt)),
        )
        named has_key

  named-IsPlain : (v : String) → is_in ai_providers v ≡ true → IsKept v × (lower (strip v) ≡ v)
  unfolding strip lower
  named-IsPlain v named =
      is_in-All (λ u. IsKept u × (lower (strip u) ≡ u)) v ai_providers
        (((refl, refl), refl), (((refl, refl), refl), (((refl, refl), refl), tt))) named

  provider-IsPlain :
      (keys : AiKeys) (v : String) → IsProvider keys v → IsKept v × (lower (strip v) ≡ v)
  unfolding strip lower
  provider-IsPlain keys v (inl h) = rw h ((refl, refl), refl)
  provider-IsPlain keys v (inr (named, has_key)) = named-IsPlain v named

  pub resolve_ai_provider-again :
      (keys : AiKeys) (v : String)
      → get p.environ "XYN_AI_PROVIDER" ≡ some v
      → IsProvider keys v
      → Runs (resolve_ai_provider keys) p v
  unfolding resolve_ai_provider
  resolve_ai_provider-again keys v there h =
      let plain = provider-IsPlain keys v h in
      bind-Runs _ (env-kept _ _ _ there plain.0) (rw plain.1 (chosen_provider-again keys v h))

  pub load_ai_model-again :
      (provider v : String)
      → get p.environ "XYN_AI_MODEL" ≡ some v
      → IsModel provider v
      → Runs (load_ai_model provider) p v
  unfolding load_ai_model default_ai_model
  load_ai_model-again provider v there h = elim (Bool-cases (is_enabled provider)) [
    | inr e ↦ let same : v ≡ "none" = ground (arith, e, h) in rw (e, same) (pure-Runs "none" p)
    | inl e ↦
        let kept = IsModel-IsKept provider v e h in
        rw e (bind-Runs _ (env-kept _ _ _ there kept) (rw kept.1 (pure-Runs v p)))
  ]

  checked_overlay-again :
      (prefix role_slug v model api_key : String)
      → is_in ai_providers v ≡ true
      → (model == "") ≡ false
      → (api_key == "") ≡ false
      → Runs
          (checked_overlay prefix role_slug v model api_key)
          p
          (record { provider = v; model = model; api_key = api_key })
  unfolding checked_overlay
  checked_overlay-again prefix role_slug v model api_key named m k =
      is_in-All
        (λ u.
          Runs (checked_overlay prefix role_slug u model api_key) p
            (record { provider = u; model = model; api_key = api_key }))
        v ai_providers
        (rw (m, k) (pure-Runs _ p), (rw (m, k) (pure-Runs _ p), (rw (m, k) (pure-Runs _ p), tt)))
        named

  no_overlay-again :
      (prefix role_slug : String) → Runs (checked_overlay prefix role_slug "" "" "") p no_overlay
  unfolding checked_overlay
  no_overlay-again prefix role_slug = pure-Runs no_overlay p

  pub resolve_overlay_ai_role-again :
      (prefix role_slug : String) (o : Overlay)
      → get p.environ (prefix <> "_PROVIDER") ≡ some o.provider
      → get p.environ (prefix <> "_MODEL") ≡ some o.model
      → get p.environ (prefix <> "_API_KEY") ≡ some o.api_key
      → IsOverlay o
      → Runs (resolve_overlay_ai_role prefix role_slug) p o
  unfolding resolve_overlay_ai_role strip lower
  resolve_overlay_ai_role-again prefix role_slug o a b c (inl h) = rw h (
      bind-Runs _ (env-stripped _ _ (a ∙ ap (λ u. some u.provider) h) refl (λ _. tt)) (
        bind-Runs _ (env-stripped _ _ (b ∙ ap (λ u. some u.model) h) refl (λ _. tt)) (
          bind-Runs _ (env-stripped _ _ (c ∙ ap (λ u. some u.api_key) h) refl (λ _. tt))
            (no_overlay-again prefix role_slug))))
  resolve_overlay_ai_role-again prefix role_slug o a b c (inr (named, (m, k))) =
      let plain = named-IsPlain o.provider named in
      bind-Runs _ (env-kept _ _ _ a plain.0) (
        bind-Runs _ (env-kept _ _ _ b m) (
          bind-Runs _ (env-kept _ _ _ c k) (
            rw (plain.1, m.0, k.0)
              (checked_overlay-again prefix role_slug o.provider o.model o.api_key named m.1 k.1))))
