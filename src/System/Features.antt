-- ===== src/System/Features.antt =====
-- FeatureList of kwctoolkit/system/feature_list.h and feature_list.cc. The map of overrides is an
-- association list; the process-wide list is a state that the static functions take and return.
-- KWC_CHECK only logs.
pub mod Overrides
use kwctoolkit.Prelude.{
  Bool, true, false, not, Option, none, some, List, [], ◌∷◌, if◌then◌else◌, Bytes, codes, bytes_eq,
  Outcome, returned, ◌>>=◌,
}
use kwctoolkit.Strings.Split.{split_string, whitespace_trim, split_want_nonempty}

pub data FeatureState : Type 0 where
  feature_disabled_by_default feature_enabled_by_default : FeatureState

pub record Feature : Type 0 where
  pub name : Bytes
  pub default_state : FeatureState

pub data OverrideState : Type 0 where
  override_use_default override_disable_feature override_enable_feature : OverrideState

pub record FeatureList : Type 0 where
  pub overrides : List (Bytes × OverrideState)
  pub initialized : Bool

-- FeatureList()
abbrev pub new_feature_list : FeatureList
new_feature_list = record { overrides = []; initialized = false }

-- overrides_.find
unfoldable pub find_override : Bytes → List (Bytes × OverrideState) → Option OverrideState
unfolding bytes_eq
find_override name [] = none
find_override name ((n, state) ∷ rest) =
    let found = find_override name rest in if bytes_eq name n then some state else found

-- overrides_.insert, which keeps an entry that is there.
unfoldable pub insert_override :
    Bytes → OverrideState → List (Bytes × OverrideState) → List (Bytes × OverrideState)
unfolding find_override
insert_override name state overrides = elim (find_override name overrides) [
  | none ↦ (name, state) ∷ overrides
  | some s ↦ overrides
]

unfoldable pub insert_all :
    List Bytes → OverrideState → List (Bytes × OverrideState) → List (Bytes × OverrideState)
unfolding insert_override
insert_all [] state overrides = overrides
insert_all (name ∷ names) state overrides =
    insert_all names state (insert_override name state overrides)

unfoldable pub split_feature_list_string : Bytes → Outcome (List Bytes)
unfolding split_string
split_feature_list_string input = split_string input (codes ",") whitespace_trim split_want_nonempty

unfoldable pub initialize_from_command_line : Bytes → Bytes → FeatureList → Outcome FeatureList
unfolding insert_all split_feature_list_string
initialize_from_command_line enabled_features disabled_features l = do
  disabled ← split_feature_list_string disabled_features
  let overrides = insert_all disabled override_disable_feature l.overrides
  enabled ← split_feature_list_string enabled_features
  returned (record l { overrides = insert_all enabled override_enable_feature overrides })

abbrev pub finalize_initialization : FeatureList → FeatureList
finalize_initialization l = record l { initialized = true }

-- setInstance(instance)
abbrev pub set_instance : FeatureList → Option FeatureList
set_instance l = some (finalize_initialization l)

abbrev pub is_none : Option FeatureList → Bool
is_none none = true
is_none (some l) = false

-- The result, and the process-wide list, which was the argument before. (An exception leaves no
-- list.)
unfoldable pub initialize_instance :
    Bytes → Bytes → Option FeatureList → Outcome (Bool × Option FeatureList)
unfolding initialize_from_command_line
initialize_instance enabled_features disabled_features instance_before = do
  l ← initialize_from_command_line enabled_features disabled_features new_feature_list
  returned (is_none instance_before, set_instance l)

abbrev pub default_of : Feature → Bool
default_of f = elim f.default_state [
  | feature_disabled_by_default ↦ false
  | feature_enabled_by_default ↦ true
]

abbrev pub state_or : Option OverrideState → Bool → Bool
state_or none d = d
state_or (some override_use_default) d = d
state_or (some override_disable_feature) d = false
state_or (some override_enable_feature) d = true

unfoldable pub is_feature_enabled : Feature → FeatureList → Bool
unfolding find_override
is_feature_enabled f l = state_or (find_override f.name l.overrides) (default_of f)

unfoldable pub is_enabled : Feature → Option FeatureList → Bool
unfolding is_feature_enabled
is_enabled f none = default_of f
is_enabled f (some l) = is_feature_enabled f l
