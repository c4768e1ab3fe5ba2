-- ===== src/File/Enumerator.antt =====
-- FileEnumerator and FileInfo of kwctoolkit/file/file_enumerator.cc and file_info.cc, on POSIX. The
-- system is a parameter: the names that opendir and readdir_r give (`none` where opendir fails),
-- whether stat and lstat find a directory (`none` where they fail), and fnmatch with FNM_NOESCAPE.
-- The directories do not change meanwhile. `fuel` bounds the loop over pending directories.
pub mod Listing
pub mod Enumeration
use kwctoolkit.Prelude.{
  ℕ, zero, suc, ◌+◌, ◌/◌, ◌%◌, ◌^◌, Bool, true, false, not, ◌&&◌, ◌||◌, Option, none, some, List,
  [], ◌∷◌, ◌++◌, map, ltb, ◌==◌, if◌then◌else◌, is_empty, length, get_or, Bytes, codes, bytes_eq,
  Outcome, returned, exhausted,
}
use kwctoolkit.File.Path.{append, base_name, strip_trailing_separators, file_path}

-- FileInfo, of which st_mode is used: whether it is that of a directory.
pub record FileInfo : Type 0 where
  pub file_name : Bytes
  pub is_directory : Bool

pub record System : Type 0 where
  pub read_names : Bytes → Option (List Bytes)
  pub stat : Bytes → Option Bool
  pub lstat : Bytes → Option Bool
  pub fnmatch : Bytes → Bytes → Bool

-- What the constructor sets for good.
pub record Options : Type 0 where
  pub recursive : Bool
  pub type : ℕ
  pub pattern : Bytes

pub record Enumerator : Type 0 where
  pub dir_entries : List FileInfo
  pub current_dir_entry : ℕ
  pub root_path : Bytes
  pub pending_paths : List Bytes

-- enum FileType, by the number of the bit.
abbrev pub has_type : ℕ → ℕ → Bool
has_type bit type = type / 2 ^ bit % 2 == 1

abbrev pub files_bit : ℕ
files_bit = 0

abbrev pub directories_bit : ℕ
directories_bit = 1

abbrev pub include_dot_dot_bit : ℕ
include_dot_dot_bit = 2

abbrev pub show_sym_links_bit : ℕ
show_sym_links_bit = 3

-- The constructors: the state, and the pattern behind the root path.
unfoldable pub file_enumerator : Bytes → Enumerator
file_enumerator root_path = record {
  dir_entries = [];
  current_dir_entry = 0;
  root_path = root_path;
  pending_paths = root_path ∷ [];
}

abbrev pub options_of : Bytes → Bool → ℕ → Bytes → Options
options_of root_path recursive type pattern = record {
  recursive = recursive;
  type = type;
  pattern = if is_empty pattern then [] else append root_path pattern;
}

abbrev pub no_info : FileInfo
no_info = record { file_name = []; is_directory = false }

module _ (system : System) (options : Options) where
  open system use {read_names, stat, lstat, fnmatch}
  open options use {recursive, type, pattern}

  -- An entry of readDirectory; a stat that fails is cleared.
  abbrev pub file_info : Bytes → Bytes → FileInfo
  file_info source name =
      let full_name = append source name in
      let found = if has_type show_sym_links_bit type then lstat full_name else stat full_name in
      record {
        file_name = file_path name;
        is_directory = elim found [ none ↦ false | some is_dir ↦ is_dir ];
      }

  unfoldable pub read_directory : Bytes → Option (List FileInfo)
  read_directory source = elim (read_names source) [
    | none ↦ none
    | some names ↦ some (map (file_info source) names)
  ]

  unfoldable pub skip : Bytes → Bool
  skip path =
      let basename = base_name path in
      bytes_eq basename (codes ".")
      || (bytes_eq basename (codes "..") && not (has_type include_dot_dot_bit type))

  -- The loop over the entries of a directory: the pending paths, and dir_entries.
  unfoldable pub scan :
      Bytes → List FileInfo → List Bytes → List FileInfo → List Bytes × List FileInfo
  unfolding skip
  scan root [] pending kept = (pending, kept)
  scan root (info ∷ infos) pending kept =
      let full_path = append root info.file_name in
      let skipped = scan root infos pending kept in
      let pending' = if recursive && info.is_directory then full_path ∷ pending else pending in
      let kept' =
        if (info.is_directory && has_type directories_bit type)
          || (not info.is_directory && has_type files_bit type)
        then kept ++ info ∷ []
        else kept in
      let taken = scan root infos pending' kept' in
      if skip full_path
      then skipped
      else if not (is_empty pattern) && not (fnmatch pattern full_path)
      then skipped
      else taken

  -- The loop of next; the empty path is the end.
  unfoldable pub next_loop : ℕ → Enumerator → Outcome (Bytes × Enumerator)
  unfolding read_directory scan
  next_loop zero e = exhausted
  next_loop (suc fuel) e = elim (ltb e.current_dir_entry (length e.dir_entries)) [
    | true ↦
        returned
          (append e.root_path (get_or e.dir_entries e.current_dir_entry no_info).file_name, e)
    | false ↦ elim e.pending_paths [
      | [] ↦ returned ([], e)
      | top ∷ rest ↦
          let root = strip_trailing_separators top in
          elim (read_directory root) [
            | none ↦ next_loop fuel (record e { root_path = root; pending_paths = rest })
            | some infos ↦
                let s = scan root infos rest [] in
                next_loop fuel (record {
                  dir_entries = s.1;
                  current_dir_entry = 0;
                  root_path = root;
                  pending_paths = s.0;
                })
          ]
    ]
  ]

  unfoldable pub next : ℕ → Enumerator → Outcome (Bytes × Enumerator)
  unfolding next_loop
  next fuel e = next_loop fuel (record e { current_dir_entry = e.current_dir_entry + 1 })
