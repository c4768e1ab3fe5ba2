-- ===== src/System/Features/Overrides.antt =====
-- Which override decides.
use kwctoolkit.Prelude.{
  ◌≡◌, refl, sym, ap, ◌∙◌, inl, inr, Bool, true, false, Bool-cases, Option, none, some,
  Option-cases, ◌||◌, List, [], ◌∷◌, if◌then◌else◌, Bytes, bytes_eq, bytes_eq→eq, returned,
}
use kwctoolkit.System.Features.{
  Feature, OverrideState, override_disable_feature, override_enable_feature, find_override,
  insert_override, insert_all, split_feature_list_string, initialize_from_command_line,
  initialize_instance, is_feature_enabled, is_enabled, default_of, state_or, is_none, FeatureList,
}

-- Whether a name is among the names.
abbrev pub is_among : Bytes → List Bytes → Bool
is_among name [] = false
is_among name (n ∷ names) = bytes_eq name n || is_among name names

abbrev pub or_else {ℓ} : {A : Type ℓ} → Option A → Option A → Option A
or_else none o = o
or_else (some a) o = some a

or_else_assoc {ℓ} :
    {A : Type ℓ} (a b c : Option A) → or_else (or_else a b) c ≡ or_else a (or_else b c)
or_else_assoc none b c = refl
or_else_assoc (some a) b c = refl

or_else-none {ℓ} : {A : Type ℓ} (a : Option A) → or_else a none ≡ a
or_else-none none = refl
or_else-none (some a) = refl

-- An insertion counts only behind what is there.
find_override-insert_override :
    (name n : Bytes) (state : OverrideState) (overrides : List (Bytes × OverrideState))
    → find_override name (insert_override n state overrides)
      ≡ or_else (find_override name overrides) (if bytes_eq name n then some state else none)
unfolding find_override insert_override
find_override-insert_override name n state overrides =
    elim (Option-cases (find_override n overrides)) [
      | inl missing ↦ elim (Bool-cases (bytes_eq name n)) [
        | inl e ↦
            let here : find_override name overrides ≡ none =
              ap (λ m. find_override m overrides) (bytes_eq→eq name n e) ∙ missing in
            rw (missing, insert_override) (rw (e, here) refl)
        | inr e ↦ rw (missing, insert_override) (rw (e) (sym (or_else-none _)))
      ]
      | inr (s, found) ↦ elim (Bool-cases (bytes_eq name n)) [
        | inl e ↦
            let here : find_override name overrides ≡ some s =
              ap (λ m. find_override m overrides) (bytes_eq→eq name n e) ∙ found in
            rw (found, insert_override) (rw (e, here) refl)
        | inr e ↦ rw (found, insert_override) (rw (e) (sym (or_else-none _)))
      ]
    ]

-- The override that a list of names gives.
abbrev pub given : Bytes → List Bytes → OverrideState → Option OverrideState
given name names state = if is_among name names then some state else none

first_given :
    (b c : Bool) (state : OverrideState)
    → or_else (if b then some state else none) (if c then some state else none)
      ≡ (if b || c then some state else none)
first_given true c state = refl
first_given false c state = refl

find_override-insert_all :
    (name : Bytes) (names : List Bytes) (state : OverrideState)
    (overrides : List (Bytes × OverrideState))
    → find_override name (insert_all names state overrides)
      ≡ or_else (find_override name overrides) (given name names state)
unfolding insert_all
find_override-insert_all name [] state overrides = sym (or_else-none _)
find_override-insert_all name (n ∷ names) state overrides =
    find_override-insert_all name names state (insert_override n state overrides)
    ∙ ap (λ o. or_else o (given name names state))
        (find_override-insert_override name n state overrides)
    ∙ or_else_assoc (find_override name overrides) (if bytes_eq name n then some state else none)
        (given name names state)
    ∙ ap (or_else (find_override name overrides))
        (first_given (bytes_eq name n) (is_among name names) state)

overridden :
    (b c d : Bool)
    → state_or
        (or_else
          (if b then some override_disable_feature else none)
          (if c then some override_enable_feature else none))
        d
      ≡ (if b then false else if c then true else d)
overridden true c d = refl
overridden false true d = refl
overridden false false d = refl

-- When the two lists of features split into names, initializeInstance makes a process-wide list
-- and returns whether there was none before. From then on a feature is off if it is among the
-- disabled ones, even if it is enabled too; else on if it is among the enabled ones; else as it is
-- by default.
pub is_enabled-initialize_instance :
    (enabled_features disabled_features : Bytes) (enabled disabled : List Bytes)
    (before : Option FeatureList)
    → split_feature_list_string enabled_features ≡ returned enabled
    → split_feature_list_string disabled_features ≡ returned disabled
    → (l : FeatureList) × (initialize_instance enabled_features disabled_features before
        ≡ returned (is_none before, some l))
      × ((f : Feature)
          → is_enabled f (some l) ≡ (
              if is_among f.name disabled
              then false
              else if is_among f.name enabled
              then true
              else default_of f))
unfolding initialize_instance initialize_from_command_line is_enabled is_feature_enabled
is_enabled-initialize_instance es ds enabled disabled before he hd = (
  record {
    overrides =
        insert_all enabled override_enable_feature
          (insert_all disabled override_disable_feature []);
    initialized = true;
  },
  rw (hd) (rw (he) refl),
  λ f.
      ap (λ o. state_or o (default_of f))
        (find_override-insert_all f.name enabled override_enable_feature
            (insert_all disabled override_disable_feature [])
          ∙ ap (λ o. or_else o (given f.name enabled override_enable_feature))
              (find_override-insert_all f.name disabled override_disable_feature []))
      ∙ overridden (is_among f.name disabled) (is_among f.name enabled) (default_of f),
)
