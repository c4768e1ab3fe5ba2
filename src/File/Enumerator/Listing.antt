-- ===== src/File/Enumerator/Listing.antt =====
-- What kwctoolkit/file/file_enumerator.cc is to enumerate: a listing of a tree of directories.
use kwctoolkit.Prelude.{
  ℕ, suc, ◌≡◌, ap, sym, ◌∙◌, Bool, true, false, not, ◌&&◌, ◌||◌, none, some, List, [], ◌∷◌, ◌++◌,
  append_assoc, append-nil, map, if◌then◌else◌, is_empty, Bytes,
}
use kwctoolkit.File.Path.{append, strip_trailing_separators}
use kwctoolkit.File.Directories.{reversed}
use kwctoolkit.File.Enumerator.{
  FileInfo, System, Options, read_directory, skip, scan, has_type, files_bit, directories_bit,
}

abbrev pub keep {ℓ} : {A : Type ℓ} → (A → Bool) → List A → List A
keep p [] = []
keep p (x ∷ xs) = if p x then x ∷ keep p xs else keep p xs

abbrev pub path_of : Bytes → FileInfo → Bytes
path_of root info = append root info.file_name

-- One entry, by what the tests on it say; the rest of the loop is `loop`.
module _ (root : Bytes) (info : FileInfo) (enter show : List FileInfo)
    (loop : List Bytes → List FileInfo → List Bytes × List FileInfo)
    (ih : (pending : List Bytes) (kept : List FileInfo)
      → loop pending kept ≡ (reversed (map (path_of root) enter) pending, kept ++ show))
    (pending : List Bytes) (kept : List FileInfo) where
  kept_more :
      (ps : List Bytes)
      → loop ps (kept ++ info ∷ []) ≡ (reversed (map (path_of root) enter) ps, kept ++ info ∷ show)
  kept_more ps =
      ih ps (kept ++ info ∷ [])
      ∙ ap (λ k. (reversed (map (path_of root) enter) ps, k)) (append_assoc kept (info ∷ []) show)

  sorted_wanted :
      (recursive is_dir dirs files : Bool)
      → loop
          (if recursive && is_dir then path_of root info ∷ pending else pending)
          (if (is_dir && dirs) || (not is_dir && files) then kept ++ info ∷ [] else kept)
        ≡ (
          reversed
              (map (path_of root) (if recursive && is_dir then info ∷ enter else enter))
              pending,
          kept ++ (if (if is_dir then dirs else files) then info ∷ show else show),
        )
  sorted_wanted true true true files = kept_more (path_of root info ∷ pending)
  sorted_wanted true true false files = ih (path_of root info ∷ pending) kept
  sorted_wanted false true true files = kept_more pending
  sorted_wanted false true false files = ih pending kept
  sorted_wanted true false dirs true = kept_more pending
  sorted_wanted true false dirs false = ih pending kept
  sorted_wanted false false dirs true = kept_more pending
  sorted_wanted false false dirs false = ih pending kept

  sorted :
      (skipped no_pattern matches recursive is_dir dirs files : Bool)
      → (if skipped
          then loop pending kept
          else if not no_pattern && not matches
          then loop pending kept
          else loop
              (if recursive && is_dir then path_of root info ∷ pending else pending)
              (if (is_dir && dirs) || (not is_dir && files) then kept ++ info ∷ [] else kept))
        ≡ (
          reversed
              (map (path_of root) (
                if (not skipped && (no_pattern || matches)) && (recursive && is_dir)
                then info ∷ enter
                else enter))
              pending,
          kept
              ++ (if (not skipped && (no_pattern || matches)) && (if is_dir then dirs else files)
                  then info ∷ show
                  else show),
        )
  sorted true no_pattern matches recursive is_dir dirs files = ih pending kept
  sorted false false false recursive is_dir dirs files = ih pending kept
  sorted false false true recursive is_dir dirs files = sorted_wanted recursive is_dir dirs files
  sorted false true matches recursive is_dir dirs files = sorted_wanted recursive is_dir dirs files

module _ (system : System) (options : Options) where
  open system use {fnmatch}
  open options use {recursive, type, pattern}

  -- An entry counts if it is not skipped and its path matches the pattern, if there is one.
  abbrev pub is_wanted : Bytes → FileInfo → Bool
  is_wanted root info =
      not (skip system options (path_of root info))
      && (is_empty pattern || fnmatch pattern (path_of root info))

  -- The entries that are shown, and those that are entered.
  abbrev pub is_shown : Bytes → FileInfo → Bool
  is_shown root info =
      is_wanted root info
      && (if info.is_directory then has_type directories_bit type else has_type files_bit type)

  abbrev pub is_entered : Bytes → FileInfo → Bool
  is_entered root info = is_wanted root info && (recursive && info.is_directory)

  -- A directory that cannot be read has no entries.
  abbrev pub entries_of : Bytes → List FileInfo
  entries_of root = elim (read_directory system options root) [ none ↦ [] | some infos ↦ infos ]

  abbrev pub shown : Bytes → List FileInfo
  shown root = keep (is_shown root) (entries_of root)

  abbrev pub entered : Bytes → List Bytes
  entered root = map (path_of root) (keep (is_entered root) (entries_of root))

  -- The listing of some directories, of which so many are visited: the entries of the first one,
  -- then those of the directories in it, the last one first, then those of the others.
  pub data Walks : ℕ → List Bytes → List Bytes → Type 0 where
    done : Walks 0 [] []
    visit :
        (n : ℕ) (top : Bytes) (rest listing : List Bytes)
        → Walks n (reversed (entered (strip_trailing_separators top)) rest) listing
        → Walks (suc n) (top ∷ rest) (
            map (path_of (strip_trailing_separators top)) (shown (strip_trailing_separators top))
            ++ listing)

  -- The loop over the entries of a directory sorts them so.
  pub scan-shown :
      (root : Bytes) (infos : List FileInfo) (pending : List Bytes) (kept : List FileInfo)
      → scan system options root infos pending kept ≡ (
        reversed (map (path_of root) (keep (is_entered root) infos)) pending,
        kept ++ keep (is_shown root) infos,
      )
  unfolding scan
  scan-shown root [] pending kept = ap (λ k. (pending, k)) (sym (append-nil kept))
  scan-shown root (info ∷ infos) pending kept =
      sorted root info (keep (is_entered root) infos) (keep (is_shown root) infos)
        (scan system options root infos) (scan-shown root infos) pending kept
        (skip system options (path_of root info)) (is_empty pattern)
        (fnmatch pattern (path_of root info)) recursive info.is_directory
        (has_type directories_bit type) (has_type files_bit type)
