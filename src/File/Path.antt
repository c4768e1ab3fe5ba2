-- ===== src/File/Path.antt =====
-- FilePath of kwctoolkit/file/file_path.cc, on POSIX: a path is the string in path_.
pub mod Stripping
pub mod Joining
use kwctoolkit.Prelude.{
  ℕ, zero, suc, ◌+◌, ◌-◌, Bool, true, false, not, ◌&&◌, ◌||◌, Option, none, some, [], ◌∷◌, ◌++◌,
  ltb, ◌==◌, if◌then◌else◌, is_empty, get_or, Bytes, codes, bytes_eq, length, take, drop, find_char,
}

-- The text before the first NUL.
unfoldable pub until_null : Bytes → Bytes
unfolding find_char
until_null s = elim (find_char s 0) [ none ↦ s | some n ↦ take n s ]

-- FilePath(path)
unfoldable pub file_path : Bytes → Bytes
unfolding until_null
file_path path = until_null path

abbrev pub is_separator : ℕ → Bool
is_separator c = c == b'/'

abbrev pub is_3 : Option ℕ → Bool
is_3 none = false
is_3 (some n) = n == 3

-- `pos` counts down, and `last_stripped` is `none` for npos.
unfoldable pub strip_loop : ℕ → Option ℕ → Bytes → Bytes
strip_loop zero last_stripped path = path
strip_loop (suc n) last_stripped path = elim (ltb 1 (suc n) && is_separator (get_or path n 0)) [
  | false ↦ path
  | true ↦ elim (not (suc n == 2) || (is_3 last_stripped || not (is_separator (get_or path 0 0)))) [
    | true ↦ strip_loop n (some (suc n)) (take n path)
    | false ↦ strip_loop n last_stripped path
  ]
]

unfoldable pub strip_trailing_separators : Bytes → Bytes
unfolding strip_loop
strip_trailing_separators path = strip_loop (length path) none path

-- path.find_last_of("/")
unfoldable pub find_last_separator : Bytes → Option ℕ
find_last_separator [] = none
find_last_separator (c ∷ cs) = elim (find_last_separator cs) [
  | some i ↦ some (suc i)
  | none ↦ if is_separator c then some 0 else none
]

-- The separator between two parts.
unfoldable pub separated : Bytes → Bytes → Bytes
separated path appended =
    if not (is_empty appended)
      && (not (is_empty path) && not (is_separator (get_or path (length path - 1) 0)))
    then path ++ b'/' ∷ []
    else path

unfoldable pub append : Bytes → Bytes → Bytes
unfolding separated until_null strip_trailing_separators bytes_eq
append path component =
    let appended = until_null component in
    if bytes_eq path (codes ".")
    then file_path appended
    else separated (strip_trailing_separators path) appended ++ appended

unfoldable pub base_name : Bytes → Bytes
unfolding strip_trailing_separators find_last_separator
base_name path =
    let new_path = strip_trailing_separators path in
    elim (find_last_separator new_path) [
      | none ↦ new_path
      | some i ↦ if ltb i (length new_path - 1) then drop (i + 1) new_path else new_path
    ]

unfoldable pub directory_part : Bytes → Option ℕ → Bytes
directory_part path none = []
directory_part path (some zero) = take 1 path
directory_part path (some (suc i)) =
    if suc i == 1 && is_separator (get_or path 0 0) then take 2 path else take (suc i) path

unfoldable pub directory_name : Bytes → Bytes
unfolding strip_trailing_separators find_last_separator directory_part
directory_name path =
    let new_path = strip_trailing_separators path in
    let stripped =
      strip_trailing_separators (directory_part new_path (find_last_separator new_path)) in
    if is_empty stripped then codes "." else stripped
