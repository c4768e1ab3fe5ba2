-- ===== src/Examples/Systems.antt =====
-- Features, directories and processes.
use kwctoolkit.Prelude.{
  ◌≡◌, refl, arith, Bool, true, false, none, some, [], ◌∷◌, codes, Bytes, bytes_eq, bytes_eq_refl,
  Bool-cases, inl, inr, pos, List, Option, returned, if◌then◌else◌, one_of, substr, ◌||◌,
}
use kwctoolkit.Strings.Trim.{trim_string, find_first_not_of, find_last_not_of}
use kwctoolkit.Strings.Split.{split_string, split_loop, find_first_of, first_of, tidy}
use kwctoolkit.System.Features.{
  Feature, FeatureList, initialize_instance, is_enabled, default_of, split_feature_list_string,
}
use kwctoolkit.System.Features.Overrides.{is_among, is_enabled-initialize_instance}
use kwctoolkit.System.Process.{field_of_stats}
use kwctoolkit.System.Process.Stats.{field_of_stats-zero}
use kwctoolkit.File.Directories.{FileSystem, directory_exists, create_directory, sub_paths}
use kwctoolkit.File.Directories.Creation.{AllExist, create_directory-AllExist}

enabled_split : split_feature_list_string (codes "A,B") ≡ returned (codes "A" ∷ codes "B" ∷ [])
unfolding split_feature_list_string split_string split_loop find_first_of first_of tidy trim_string
    find_first_not_of find_last_not_of one_of substr
enabled_split = refl

disabled_split : split_feature_list_string (codes "B") ≡ returned (codes "B" ∷ [])
unfolding split_feature_list_string split_string split_loop find_first_of first_of tidy trim_string
    find_first_not_of find_last_not_of one_of substr
disabled_split = refl

is_enabled-initialize_instance_example :
    (l : FeatureList) × (initialize_instance (codes "A,B") (codes "B") none
      ≡ returned (true, some l))
    × ((f : Feature)
        → is_enabled f (some l) ≡ (
            if is_among f.name (codes "B" ∷ [])
            then false
            else if is_among f.name (codes "A" ∷ codes "B" ∷ [])
            then true
            else default_of f))
is_enabled-initialize_instance_example =
    is_enabled-initialize_instance (codes "A,B") (codes "B") (codes "A" ∷ codes "B" ∷ [])
      (codes "B" ∷ []) none enabled_split disabled_split

field_of_stats-zero_example : field_of_stats (codes "7 (init) S 1 7") 3 ≡ returned (pos 0)
field_of_stats-zero_example = field_of_stats-zero (codes "7 (init) S 1 7") 3 (omega arith)

-- A file system as the list of its directories.
abbrev is_listed : Bytes → List Bytes → Bool
is_listed p [] = false
is_listed p (q ∷ qs) = bytes_eq p q || is_listed p qs

abbrev listed_stat : Bytes → List Bytes → Option Bool
listed_stat p f = if is_listed p f then some true else none

abbrev listed : FileSystem (List Bytes)
listed = record { stat = listed_stat; mkdir = λ p f. (true, p ∷ f) }

listed_makes :
    (p : Bytes) (f : List Bytes)
    → (listed.mkdir p f).0 ≡ true
    → directory_exists listed p (listed.mkdir p f).1 ≡ true
unfolding directory_exists
listed_makes p f h = rw (bytes_eq_refl p, directory_exists) refl

listed_keeps :
    (p q : Bytes) (f : List Bytes)
    → directory_exists listed q f ≡ true
    → directory_exists listed q (listed.mkdir p f).1 ≡ true
unfolding directory_exists
listed_keeps p q f h = elim (Bool-cases (bytes_eq q p)) [
  | inl e ↦ rw (e, directory_exists) refl
  | inr e ↦ rw (e, directory_exists) h
]

create_directory-AllExist_example :
    (paths : List Bytes) × (done : Bool) × (f' : List Bytes) × (sub_paths 6 (codes "/a/b")
      ≡ returned (codes "/a/b" ∷ paths))
    × (create_directory listed 6 (codes "/a/b") (codes "/" ∷ []) ≡ returned (done, f'))
    × (done ≡ true → AllExist listed (codes "/a/b" ∷ paths) f')
create_directory-AllExist_example =
    create_directory-AllExist listed listed_makes listed_keeps 6 (codes "/a/b") (codes "/" ∷ [])
      (omega arith)
