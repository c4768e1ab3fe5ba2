-- ===== src/File/Directories.antt =====
-- DirectoryExists and CreateDirectory of kwctoolkit/file/file_utils.cc. The file system is a
-- parameter: its state, stat64 (whether a path that exists is a directory) and mkdir.
pub mod Parents
pub mod Creation
use kwctoolkit.Prelude.{
  ℕ, zero, suc, Bool, true, false, Option, none, some, List, [], ◌∷◌, ◌++◌, if◌then◌else◌, Bytes,
  bytes_eq, Outcome, returned, exhausted, ◌>>=◌,
}
use kwctoolkit.File.Path.{directory_name}

-- The parents, up to the first that is its own: the loop of the first half. `fuel` bounds it.
unfoldable pub collect_parents : ℕ → Bytes → Bytes → Outcome (List Bytes)
unfolding directory_name bytes_eq
collect_parents zero path last_path = exhausted
collect_parents (suc fuel) path last_path = elim (bytes_eq path last_path) [
  | true ↦ returned []
  | false ↦ do rest ← collect_parents fuel (directory_name path) path; returned (path ∷ rest)
]

unfoldable pub sub_paths : ℕ → Bytes → Outcome (List Bytes)
unfolding collect_parents
sub_paths fuel full_path = do
  parents ← collect_parents fuel (directory_name full_path) full_path
  returned (full_path ∷ parents)

abbrev pub reversed : List Bytes → List Bytes → List Bytes
reversed [] acc = acc
reversed (p ∷ ps) acc = reversed ps (p ∷ acc)

pub record FileSystem (F : Type 0) : Type 0 where
  pub stat : Bytes → F → Option Bool
  pub mkdir : Bytes → F → Bool × F

module _ {F : Type 0} (fs : FileSystem F) where
  open fs use {stat, mkdir}

  unfoldable pub directory_exists : Bytes → F → Bool
  directory_exists path f = elim (stat path f) [ none ↦ false | some is_dir ↦ is_dir ]

  -- The second half, over the paths from the outermost one on.
  unfoldable pub create_all : List Bytes → F → Bool × F
  unfolding directory_exists
  create_all [] f = (true, f)
  create_all (p ∷ ps) f =
      let (made, f') = mkdir p f in
      let skipped = create_all ps f in
      let continued = create_all ps f' in
      if directory_exists p f
      then skipped
      else if made
      then continued
      else if directory_exists p f'
      then continued
      else (false, f')

  unfoldable pub create_directory : ℕ → Bytes → F → Outcome (Bool × F)
  unfolding sub_paths create_all
  create_directory fuel full_path f = do
    paths ← sub_paths fuel full_path
    returned (create_all (reversed paths []) f)
