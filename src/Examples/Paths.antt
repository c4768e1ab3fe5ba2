-- ===== src/Examples/Paths.antt =====
-- Short paths.
use kwctoolkit.Prelude.{◌≡◌, refl, codes, bytes_eq}
use kwctoolkit.File.Path.{
  strip_trailing_separators, strip_loop, find_last_separator, directory_part, append, base_name,
  directory_name,
}
use kwctoolkit.File.Path.Stripping.{strip_trailing_separators-stripped}
use kwctoolkit.File.Path.Joining.{base_name-append}

strip_trailing_separators-stripped_example : strip_trailing_separators (codes "a/b//") ≡ codes "a/b"
unfolding bytes_eq
strip_trailing_separators-stripped_example = strip_trailing_separators-stripped (codes "a/b//")

base_name-append_example : base_name (append (codes "a/b/") (codes "c.txt")) ≡ codes "c.txt"
base_name-append_example = base_name-append (codes "a/b/") b'c' (codes ".txt") refl

directory_of_file : directory_name (codes "a/b/c.txt") ≡ codes "a/b"
unfolding directory_name strip_trailing_separators strip_loop find_last_separator directory_part
directory_of_file = refl

directory_of_name : directory_name (codes "c.txt") ≡ codes "."
unfolding directory_name strip_trailing_separators strip_loop find_last_separator directory_part
directory_of_name = refl
