-- ===== src/Environment.antt =====
-- core/env_config.py: the environment of the process, the `.env` file and `_env`. The file is given
-- as the list of its lines; without a file there are none.
pub mod Ensures
pub mod Providers
pub mod Config
pub mod Export
use Prim.Native.Char.{code}
use Prim.Native.String.{◌∷◌ as ◌▸◌, [] as empty}
use xyn_seed.Base.{
  ℕ, String, Bool, true, false, not, ◌&&◌, ◌||◌, Option, none, some, List, [], ◌∷◌, ◌==◌, nat_eq,
  string_eq, if◌then◌else◌, is_some,
}
use xyn_seed.Base.Dict.{Dict, get, put}
use xyn_seed.Base.Text.{strip}

-- `os.environ`, and `_ENV_LOADED`.
pub record Process : Type 0 where
  pub environ : Dict String
  pub env_loaded : Bool

-- A `RuntimeError` is its message. What was written to the environment before it stays.
pub data Loaded (A : Type 0) : Type 0 where
  returned : A → Process → Loaded A
  raised : String → Process → Loaded A

abbrev pub Loader : Type 0 → Type 0
Loader A = Process → Loaded A

infixl 5 ◌>>=◌ ◌>>◌
unfoldable pub ◌>>=◌ : {A B : Type 0} → Loader A → (A → Loader B) → Loader B
◌>>=◌ m f p = elim (m p) [ returned a q ↦ f a q | raised e q ↦ raised e q ]

abbrev pub ◌>>◌ : {A B : Type 0} → Loader A → Loader B → Loader B
m >> k = m >>= λ _. k

unfoldable pub pure : {A : Type 0} → A → Loader A
pure a p = returned a p

unfoldable pub raise : {A : Type 0} → String → Loader A
raise message p = raised message p

-- `raise` under a test.
unfoldable pub raise_if : Bool → String → Loader (Unit {0})
unfolding raise pure
raise_if b message = if b then raise message else pure tt

-- `os.environ.setdefault(key, value)`.
unfoldable pub set_default : String → String → Process → Process
set_default key value p =
    if is_some (get p.environ key) then p else record p { environ = put p.environ key value }

-- `line.split("=", 1)`, for a line that has the sign.
unfoldable pub split_assignment : String → Option (String × String)
split_assignment empty = none
split_assignment (c ▸ s) =
    let rest = split_assignment s in
    if code c == b'='
    then some (empty, s)
    else elim rest [ none ↦ none | some (key, value) ↦ some (c ▸ key, value) ]

unfoldable pub starts_with : ℕ → String → Bool
starts_with q empty = false
starts_with q (c ▸ s) = code c == q

unfoldable pub ends_with : ℕ → String → Bool
ends_with q empty = false
ends_with q (c ▸ s) = if s == "" then code c == q else ends_with q s

unfoldable pub without_last : String → String
without_last empty = empty
without_last (c ▸ s) = let rest = without_last s in if s == "" then empty else c ▸ rest

-- `value[1:-1]`.
unfoldable pub inner : String → String
unfolding without_last
inner empty = empty
inner (c ▸ s) = without_last s

unfoldable pub unquoted : String → String
unfolding starts_with ends_with inner
unquoted value =
    if starts_with b'"' value && ends_with b'"' value || starts_with 39 value && ends_with 39 value
    then inner value
    else value

unfoldable pub read_line : String → Dict String → Dict String
unfolding starts_with
read_line raw_line values =
    let line = strip raw_line in
    if line == "" || starts_with b'#' line then values else elim (split_assignment line) [
      | none ↦ values
      | some (key, value) ↦
          if strip key == "" then values else put values (strip key) (unquoted (strip value))
    ]

unfoldable pub read_lines : List String → Dict String → Dict String
read_lines [] values = values
read_lines (line ∷ lines) values = read_lines lines (read_line line values)

unfoldable pub read_dotenv : List String → Dict String
read_dotenv lines = read_lines lines []

unfoldable pub set_defaults : Dict String → Process → Process
set_defaults [] p = p
set_defaults ((key, value) ∷ values) p = set_defaults values (set_default key value p)

unfoldable pub load_seed_dotenv_once : List String → Loader (Unit {0})
load_seed_dotenv_once lines p =
    if p.env_loaded
    then pure tt p
    else pure tt (record (set_defaults (read_dotenv lines) p) { env_loaded = true })

-- A value that is there and not blank, without the space around it.
unfoldable pub non_blank : Option String → Option String
non_blank none = none
non_blank (some value) = if strip value == "" then none else some (strip value)

-- The loop over the aliases.
unfoldable pub env_alias : String → String → List String → Loader String
env_alias key default [] p = pure default p
env_alias key default (alias ∷ aliases) p = elim (non_blank (get p.environ alias)) [
  | none ↦ env_alias key default aliases p
  | some value ↦ pure value (set_default key value p)
]

-- `_env`. No default is `None`.
unfoldable pub env : String → String → List String → Loader String
env key default aliases p = elim (non_blank (get p.environ key)) [
  | none ↦ env_alias key default aliases p
  | some value ↦ pure value p
]
