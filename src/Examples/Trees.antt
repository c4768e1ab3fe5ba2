-- ===== src/Examples/Trees.antt =====
-- A tree of two directories, enumerated.
use kwctoolkit.Prelude.{
  ◌≡◌, arith, Bool, true, false, Option, none, some, List, [], ◌∷◌, codes, Bytes, bytes_eq,
  if◌then◌else◌, returned, find_char,
}
use kwctoolkit.File.Path.{
  append, base_name, strip_trailing_separators, strip_loop, until_null, separated,
  find_last_separator, file_path,
}
use kwctoolkit.File.Enumerator.{System, Options, options_of, file_enumerator, read_directory, skip}
use kwctoolkit.File.Enumerator.Listing.{Walks, done, visit}
use kwctoolkit.File.Enumerator.Enumeration.{nexts, nexts-Walks}

-- "r" has the directory "a" and the file "b"; "r/a" has the file "c".
abbrev tree_names : Bytes → Option (List Bytes)
tree_names p =
    if bytes_eq p (codes "r")
    then some (codes "." ∷ codes ".." ∷ codes "a" ∷ codes "b" ∷ [])
    else if bytes_eq p (codes "r/a")
    then some (codes ".." ∷ codes "c" ∷ [])
    else none

abbrev tree_stat : Bytes → Option Bool
tree_stat p =
    if bytes_eq p (codes "r/b")
    then some false
    else if bytes_eq p (codes "r/a/c")
    then some false
    else some true

abbrev tree : System
tree = record {
  read_names = tree_names;
  stat = tree_stat;
  lstat = tree_stat;
  fnmatch = λ pattern path. true;
}

abbrev everything : Options
everything = options_of (codes "r") true 3 []

abbrev tree_listing : List Bytes
tree_listing = codes "r/a" ∷ codes "r/b" ∷ codes "r/a/c" ∷ []

tree-Walks : Walks tree everything 2 (codes "r" ∷ []) tree_listing
unfolding read_directory skip append base_name strip_trailing_separators strip_loop until_null
    separated find_last_separator find_char bytes_eq file_path
tree-Walks = visit 1 (codes "r") [] (codes "r/a/c" ∷ []) (visit 0 (codes "r/a") [] [] done)

nexts-Walks_example :
    nexts tree everything 3 5 (file_enumerator (codes "r"))
    ≡ returned (codes "r/a" ∷ codes "r/b" ∷ codes "r/a/c" ∷ [] ∷ [] ∷ [])
nexts-Walks_example =
    nexts-Walks tree everything 3 5 2 (codes "r") tree_listing tree-Walks (omega arith)
