-- ===== src/Releases/Plans.antt =====
-- core/api/releases.py: `_index_by_name` and `_diff_actions`. The items of a runtime specification
-- are of one type, with the equality of Python's dictionaries, for which the order of keys does
-- not matter. An item without a name has the empty text.
use xyn_seed.Base.{
  String, Bool, Option, none, some, List, [], ◌∷◌, ◌++◌, ◌==◌, string_eq, if◌then◌else◌, Comparable,
  is_some,
}
use xyn_seed.Base.Dict.{Dict, get, put}
use xyn_seed.Base.Sort.{sort}
use xyn_seed.Base.Text.{text_le}

pub data Op : Type 0 where
  create update delete : Op

pub data Target : Type 0 where
  deployment service volume network route : Target

pub record Runtime {ℓ} (A : Type ℓ) : Type ℓ where
  pub deployments : List A
  pub services : List A
  pub volumes : List A
  pub networks : List A
  pub routes : List A

-- The tuple that both loops of `_diff_actions` go through.
abbrev pub targets : List Target
targets = deployment ∷ service ∷ volume ∷ network ∷ route ∷ []

abbrev pub type_name : Target → String
type_name deployment = "deployment"
type_name service = "service"
type_name volume = "volume"
type_name network = "network"
type_name route = "route"

-- `runtime.get(f"{target_type}s", [])`.
abbrev pub items_of {ℓ} : {A : Type ℓ} → Target → Runtime A → List A
items_of deployment runtime = runtime.deployments
items_of service runtime = runtime.services
items_of volume runtime = runtime.volumes
items_of network runtime = runtime.networks
items_of route runtime = runtime.routes

-- `details` has the item before and the item after, of an update.
pub record Action {ℓ} (A : Type ℓ) : Type ℓ where
  pub op : Op
  pub target_type : String
  pub target_name : String
  pub details : Option (A × A)

module _ {ℓ} {A : Type ℓ} (name : A → String) where
  unfoldable pub index_into : Dict A → List A → Dict A
  index_into d [] = d
  index_into d (item ∷ items) =
      index_into (if name item == "" then d else put d (name item) item) items

  unfoldable pub index_by_name : List A → Dict A
  unfolding index_into
  index_by_name items = index_into [] items

module _ {ℓ} {A : Type ℓ} where
  abbrev pub created : String → String → Action A
  created target_type target_name = record {
    op = create;
    target_type = target_type;
    target_name = target_name;
    details = none;
  }

  abbrev pub deleted : String → String → Action A
  deleted target_type target_name = record {
    op = delete;
    target_type = target_type;
    target_name = target_name;
    details = none;
  }

  abbrev pub updated : String → String → A → A → Action A
  updated target_type target_name previous current = record {
    op = update;
    target_type = target_type;
    target_name = target_name;
    details = some (previous, current);
  }

  -- Without a previous specification, one action for every item that has a name.
  unfoldable pub create_all : (A → String) → String → List A → List (Action A)
  create_all name target_type [] = []
  create_all name target_type (item ∷ items) =
      let rest = create_all name target_type items in
      if name item == "" then rest else created target_type (name item) ∷ rest

  -- The names that are gone.
  unfoldable pub delete_all : String → Dict A → Dict A → List (Action A)
  delete_all target_type current [] = []
  delete_all target_type current ((n, item) ∷ previous) =
      let rest = delete_all target_type current previous in
      if is_some (get current n) then rest else deleted target_type n ∷ rest

  -- `sorted(actions, key=lambda a: (a["targetType"], a["targetName"]))`.
  abbrev pub action_precedes : Action A → Action A → Bool
  action_precedes a b =
      if a.target_type == b.target_type
      then text_le a.target_name b.target_name
      else text_le a.target_type b.target_type

module _ {ℓ} {A : Type ℓ} ⦃e : Comparable A⦄ where
  -- What becomes of one current item.
  unfoldable pub item_action : String → String → Option A → A → List (Action A)
  item_action target_type n none current = created target_type n ∷ []
  item_action target_type n (some previous) current =
      if previous == current then [] else updated target_type n previous current ∷ []

  unfoldable pub change_all : String → Dict A → Dict A → List (Action A)
  change_all target_type previous [] = []
  change_all target_type previous ((n, item) ∷ current) =
      item_action target_type n (get previous n) item ++ change_all target_type previous current

  unfoldable pub diff_type : (A → String) → String → List A → List A → List (Action A)
  diff_type name target_type previous current =
      let prev_items = index_by_name name previous in
      let curr_items = index_by_name name current in
      change_all target_type prev_items curr_items ++ delete_all target_type curr_items prev_items

  -- The actions on the items of one type.
  unfoldable pub type_actions :
      (A → String) → Target → Option (Runtime A) → Runtime A → List (Action A)
  type_actions name target none current =
      create_all name (type_name target) (items_of target current)
  type_actions name target (some previous) current =
      diff_type name (type_name target) (items_of target previous) (items_of target current)

  unfoldable pub all_actions :
      (A → String) → List Target → Option (Runtime A) → Runtime A → List (Action A)
  all_actions name [] previous current = []
  all_actions name (target ∷ rest) previous current =
      type_actions name target previous current ++ all_actions name rest previous current

  unfoldable pub diff_actions : (A → String) → Option (Runtime A) → Runtime A → List (Action A)
  diff_actions name previous current =
      sort action_precedes (all_actions name targets previous current)
