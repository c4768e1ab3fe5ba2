-- ===== src/System/Memory.antt =====
-- kwctoolkit/system/system_memory_info_linux.cc: the reading of /proc/meminfo. What the file holds is
-- an argument; the log is left out.
use kwctoolkit.Prelude.{
  Bool, false, List, [], ◌∷◌, if◌then◌else◌, Bytes, codes, bytes_eq, ℤ, pos, ltb_ℤ, Option, none,
  some, Outcome, returned, ◌>>=◌,
}
use kwctoolkit.Base.Numbers.{atoi}
use kwctoolkit.Strings.Split.{
  split_string, whitespace_keep, whitespace_trim, split_want_nonempty, whitespace_ascii,
}

pub record SystemMemoryInfo : Type 0 where
  pub total : ℤ
  pub free : ℤ
  pub available : ℤ
  pub swap_total : ℤ
  pub swap_free : ℤ
  pub buffers : ℤ
  pub cached : ℤ
  pub active_anon : ℤ
  pub inactive_anon : ℤ
  pub active_file : ℤ
  pub inactive_file : ℤ
  pub dirty : ℤ
  pub reclaimable : ℤ

-- Writing to the field that a name stands for, if there is one.
unfoldable pub put_field : Bytes → ℤ → SystemMemoryInfo → SystemMemoryInfo
unfolding bytes_eq
put_field name value i =
    if bytes_eq name (codes "MemTotal:")
    then record i { total = value }
    else if bytes_eq name (codes "MemFree:")
    then record i { free = value }
    else if bytes_eq name (codes "MemAvailable:")
    then record i { available = value }
    else if bytes_eq name (codes "Buffers:")
    then record i { buffers = value }
    else if bytes_eq name (codes "Cached:")
    then record i { cached = value }
    else if bytes_eq name (codes "Active(anon):")
    then record i { active_anon = value }
    else if bytes_eq name (codes "Inactive(anon):")
    then record i { inactive_anon = value }
    else if bytes_eq name (codes "Active(file):")
    then record i { active_file = value }
    else if bytes_eq name (codes "Inactive(file):")
    then record i { inactive_file = value }
    else if bytes_eq name (codes "SwapTotal:")
    then record i { swap_total = value }
    else if bytes_eq name (codes "SwapFree:")
    then record i { swap_free = value }
    else if bytes_eq name (codes "Dirty:")
    then record i { dirty = value }
    else if bytes_eq name (codes "Reclaimable:")
    then record i { reclaimable = value }
    else i

-- A line of at most one token is skipped.
abbrev pub put_tokens : List Bytes → SystemMemoryInfo → SystemMemoryInfo
put_tokens [] i = i
put_tokens (name ∷ []) i = i
put_tokens (name ∷ value ∷ tokens) i = put_field name (atoi value) i

unfoldable pub parse_lines : List Bytes → SystemMemoryInfo → Outcome SystemMemoryInfo
unfolding put_field split_string
parse_lines [] i = returned i
parse_lines (line ∷ lines) i = do
  tokens ← split_string line whitespace_ascii whitespace_trim split_want_nonempty
  parse_lines lines (put_tokens tokens i)

unfoldable pub parse_proc_mem_info : Bytes → SystemMemoryInfo → Outcome (Bool × SystemMemoryInfo)
unfolding parse_lines
parse_proc_mem_info text mem_info = do
  lines ← split_string text (codes "\n") whitespace_keep split_want_nonempty
  i ← parse_lines lines (record mem_info { total = pos 0 })
  returned (ltb_ℤ (pos 0) i.total, i)

-- file::ReadFile is `none` when it fails.
unfoldable pub get_system_memory_info :
    Option Bytes → SystemMemoryInfo → Outcome (Bool × SystemMemoryInfo)
unfolding parse_proc_mem_info
get_system_memory_info none mem_info = returned (false, mem_info)
get_system_memory_info (some text) mem_info = parse_proc_mem_info text mem_info
