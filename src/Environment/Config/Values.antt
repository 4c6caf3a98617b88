-- ===== src/Environment/Config/Values.antt =====
-- core/env_config.py: what is known of the values of a configuration that was loaded.
use xyn_seed.Base.{
  String, true, false, ◌&&◌, ◌||◌, List, [], ◌∷◌, ◌==◌, ◌<>◌, string_eq, nat_eq, if◌then◌else◌, ◌≡◌,
  refl, ◌⊎◌, inl, inr, arith, eq_iff, Bool-cases,
}
use xyn_seed.Base.Text.{strip, lower}
use xyn_seed.Base.Text.Stripping.{strip_idem}
use xyn_seed.Environment.{pure, env}
use xyn_seed.Environment.Config.{
  load_env_name, auth_mode_of, load_auth_mode, token_or_dev, load_internal_token,
}
use xyn_seed.Environment.Providers.{
  AiKeys, Overlay, is_in, load_ai_keys, key_of, implied_provider, chosen_provider,
  resolve_ai_provider, is_enabled, default_model, default_ai_model, load_ai_model, no_overlay,
  checked_overlay, resolve_overlay_ai_role,
}
use xyn_seed.Environment.Ensures.{
  Ensures, Ensures-pure, Ensures-raise, Ensures-bind, Ensures-weaken, Ensures-raise_if,
  Ensures-Anything, IsStripped, IsKept, env-IsStripped,
}

abbrev pub IsEnvName : String → Type 0
IsEnvName v = is_in ("local" ∷ "dev" ∷ "prod" ∷ []) v ≡ true

abbrev pub IsAuthMode : String → Type 0
IsAuthMode v = is_in ("dev" ∷ "token" ∷ "oidc" ∷ []) v ≡ true

pub load_env_name-Ensures : Ensures IsEnvName load_env_name
unfolding load_env_name
load_env_name-Ensures =
    Ensures-bind IsEnvName (Ensures-Anything (env "XYN_ENV" "local" [])) (λ raw _.
      Ensures-raise_if IsEnvName _ (λ b. Ensures-pure IsEnvName (lower raw) (ground (arith, b))))

pub load_auth_mode-Ensures : Ensures IsAuthMode load_auth_mode
unfolding load_auth_mode
load_auth_mode-Ensures =
    Ensures-bind IsAuthMode (Ensures-Anything (env "XYN_AUTH_MODE" "dev" [])) (λ raw _.
      Ensures-raise_if IsAuthMode _
        (λ b. Ensures-pure IsAuthMode (auth_mode_of (lower raw)) (ground (arith, b))))

token_or_dev-Ensures : (token : String) → IsStripped token → Ensures IsKept (token_or_dev token)
unfolding token_or_dev strip pure
token_or_dev-Ensures token h = record {
  holds = λ p q a e. elim (Bool-cases (token == "")) [
    | inl blank ↦
        let same : "xyn-dev-internal-token" ≡ a = ground (arith, blank, e) in
        rw (← same) (refl, refl)
    | inr there ↦ let same : token ≡ a = ground (arith, there, e) in rw (← same) (h, there)
  ];
}

pub load_internal_token-Ensures :
    (env_name : String) → Ensures IsKept (load_internal_token env_name)
unfolding load_internal_token
load_internal_token-Ensures env_name =
    Ensures-bind IsKept (env-IsStripped "XYN_INTERNAL_TOKEN" ("XYENCE_INTERNAL_TOKEN" ∷ []))
      (λ token h. Ensures-raise_if IsKept _ (λ _. token_or_dev-Ensures token h))

-- The keys.
abbrev pub AreKeys : AiKeys → Type 0
AreKeys keys = IsStripped keys.openai × IsStripped keys.gemini × IsStripped keys.anthropic

pub load_ai_keys-Ensures : Ensures AreKeys load_ai_keys
unfolding load_ai_keys
load_ai_keys-Ensures =
    Ensures-bind AreKeys (env-IsStripped "XYN_OPENAI_API_KEY" ("OPENAI_API_KEY" ∷ [])) (λ openai h.
      Ensures-bind AreKeys
        (env-IsStripped "XYN_GEMINI_API_KEY"
          ("XYN_GOOGLE_API_KEY" ∷ "GEMINI_API_KEY" ∷ "GOOGLE_API_KEY" ∷ []))
        (λ gemini i.
          Ensures-bind AreKeys (env-IsStripped "XYN_ANTHROPIC_API_KEY" ("ANTHROPIC_API_KEY" ∷ []))
            (λ anthropic j. Ensures-pure AreKeys _ (h, i, j))))

-- A provider that has its key, or none.
abbrev pub ai_providers : List String
ai_providers = "openai" ∷ "gemini" ∷ "anthropic" ∷ []

abbrev pub IsProvider : AiKeys → String → Type 0
IsProvider keys v = (v ≡ "none") ⊎ ((is_in ai_providers v ≡ true) × ((key_of keys v == "") ≡ false))

implied_provider-Ensures : (keys : AiKeys) → Ensures (IsProvider keys) (implied_provider keys)
unfolding implied_provider
implied_provider-Ensures keys =
    let P = IsProvider keys in
    elim (Bool-cases (keys.openai == "")) [
      | inr h ↦ rw h (Ensures-pure P "openai" (inr (refl, h)))
      | inl h ↦ rw h (elim (Bool-cases (keys.gemini == "")) [
        | inl i ↦ rw i (elim (Bool-cases (keys.anthropic == "")) [
          | inl j ↦ rw j (Ensures-pure P "none" (inl refl))
          | inr j ↦ rw j (Ensures-pure P "anthropic" (inr (refl, j)))
        ])
        | inr i ↦ rw i (elim (Bool-cases (keys.anthropic == "")) [
          | inl j ↦ rw j (Ensures-pure P "gemini" (inr (refl, i)))
          | inr j ↦ rw j (Ensures-raise P _)
        ])
      ])
    ]

chosen_provider-Ensures :
    (keys : AiKeys) (explicit : String) → Ensures (IsProvider keys) (chosen_provider keys explicit)
unfolding chosen_provider
chosen_provider-Ensures keys explicit =
    let P = IsProvider keys in
    elim (Bool-cases (explicit == "")) [
      | inl h ↦ rw h (implied_provider-Ensures keys)
      | inr h ↦
          rw h
            (elim (Bool-cases
              (is_in ("openai" ∷ "gemini" ∷ "anthropic" ∷ "none" ∷ "disabled" ∷ []) explicit)) [
                | inr i ↦ rw i (Ensures-raise P _)
                | inl i ↦ rw i (elim (Bool-cases (is_in ("none" ∷ "disabled" ∷ []) explicit)) [
                  | inl j ↦ rw j (Ensures-pure P "none" (inl refl))
                  | inr j ↦ rw j (elim (Bool-cases (key_of keys explicit == "")) [
                    | inl k ↦ rw k (Ensures-raise P _)
                    | inr k ↦ rw k (Ensures-pure P explicit (inr (ground (arith, i, j), k)))
                  ])
                ])
              ])
    ]

pub resolve_ai_provider-Ensures :
    (keys : AiKeys) → Ensures (IsProvider keys) (resolve_ai_provider keys)
unfolding resolve_ai_provider
resolve_ai_provider-Ensures keys =
    Ensures-bind (IsProvider keys) (Ensures-Anything (env "XYN_AI_PROVIDER" "" []))
      (λ explicit _. chosen_provider-Ensures keys (lower (strip explicit)))

abbrev pub IsModel : String → String → Type 0
IsModel provider model = if is_enabled provider then IsKept model else model ≡ "none"

default_model-IsKept : (provider : String) → IsKept (default_model provider)
unfolding strip
default_model-IsKept provider = elim (Bool-cases (provider == "openai")) [
  | inl h ↦ rw h (refl, refl)
  | inr h ↦ rw h (elim (Bool-cases (provider == "gemini")) [
    | inl i ↦ rw i (refl, refl)
    | inr i ↦ rw i (elim (Bool-cases (provider == "anthropic")) [
      | inl j ↦ rw j (refl, refl)
      | inr j ↦ rw j (refl, refl)
    ])
  ])
]

default_ai_model-Ensures : (provider : String) → Ensures IsKept (default_ai_model provider)
unfolding default_ai_model
default_ai_model-Ensures provider =
    Ensures-bind IsKept (env-IsStripped "XYN_AI_MODEL" []) (λ explicit s.
      elim (Bool-cases (explicit == "")) [
        | inl i ↦
            rw i (Ensures-pure IsKept (default_model provider) (default_model-IsKept provider))
        | inr i ↦ rw i (Ensures-pure IsKept explicit (s, i))
      ])

pub load_ai_model-Ensures :
    (provider : String) → Ensures (IsModel provider) (load_ai_model provider)
unfolding load_ai_model
load_ai_model-Ensures provider = elim (Bool-cases (is_enabled provider)) [
  | inr h ↦ rw h (Ensures-pure (IsModel provider) "none" (rw h refl))
  | inl h ↦
      rw h
        (Ensures-weaken (IsModel provider) (λ model k. rw h k) (default_ai_model-Ensures provider))
]

-- A role has no values, or a provider, a model and a key.
abbrev pub IsOverlay : Overlay → Type 0
IsOverlay o =
    (o ≡ no_overlay)
    ⊎ ((is_in ai_providers o.provider ≡ true) × (IsKept o.model × IsKept o.api_key))

named_provider :
    (v : String)
    → is_in ("openai" ∷ "gemini" ∷ "anthropic" ∷ "google" ∷ []) v ≡ true
    → is_in ai_providers (if v == "google" then "gemini" else v) ≡ true
named_provider v h = elim (Bool-cases (v == "google")) [
  | inl e ↦ rw e refl
  | inr e ↦ elim (Bool-cases ("google" == v)) [
    | inl f ↦ rw (← (eq_iff "google" v).0 f) refl
    | inr f ↦ rw e (ground (arith, h, f))
  ]
]

checked_overlay-Ensures :
    (prefix role_slug provider model api_key : String)
    → Ensures IsOverlay (checked_overlay prefix role_slug provider (strip model) (strip api_key))
unfolding checked_overlay
checked_overlay-Ensures prefix role_slug provider model api_key =
    let P = IsOverlay in
    elim (Bool-cases (provider == "" && strip model == "" && strip api_key == "")) [
      | inl h ↦ rw h (Ensures-pure P no_overlay (inl refl))
      | inr h ↦
          rw h (elim (Bool-cases (provider == "" || strip model == "" || strip api_key == "")) [
            | inl i ↦ rw i (Ensures-raise P _)
            | inr i ↦
                rw i
                  (elim (Bool-cases
                    (is_in ("openai" ∷ "gemini" ∷ "anthropic" ∷ "google" ∷ []) provider)) [
                      | inr j ↦ rw j (Ensures-raise P _)
                      | inl j ↦ rw j (
                          Ensures-pure P
                            (record {
                              provider = if provider == "google" then "gemini" else provider;
                              model = strip model;
                              api_key = strip api_key;
                            })
                            (inr (
                              named_provider provider j,
                              (
                                (strip_idem model, ground (arith, i)),
                                (strip_idem api_key, ground (arith, i)),
                              ),
                            )))
                    ])
          ])
    ]

pub resolve_overlay_ai_role-Ensures :
    (prefix role_slug : String) → Ensures IsOverlay (resolve_overlay_ai_role prefix role_slug)
unfolding resolve_overlay_ai_role
resolve_overlay_ai_role-Ensures prefix role_slug =
    Ensures-bind IsOverlay (Ensures-Anything (env (prefix <> "_PROVIDER") "" [])) (λ provider _.
      Ensures-bind IsOverlay (env-IsStripped (prefix <> "_MODEL") []) (λ model m.
        Ensures-bind IsOverlay (env-IsStripped (prefix <> "_API_KEY") []) (λ api_key k.
          checked_overlay-Ensures prefix role_slug (lower (strip provider)) model api_key)))
