-- ===== src/Serialization/InMemory.antt =====
-- InMemoryDataReader of kwctoolkit/serialization/in_memory_data_reader.cc.
pub mod Reads
pub mod Strings
pub mod Seeks
pub mod Until
use mathlib.Core.Option
use kwctoolkit.Prelude.{
  ℕ, zero, suc, ◌+◌, ◌-◌, min, Bool, true, false, Option, none, some, [], ◌∷◌, ltb, ◌==◌,
  if◌then◌else◌, Bytes, length, take, drop, substr, has_prefix, ℤ, pos, negsuc, ◌-ℤ◌, Outcome,
  returned, thrown, or_thrown, ◌>>=◌,
}
use kwctoolkit.Serialization.Reader.{Reader, Methods, new_reader, set_total_length}

-- InMemoryDataReader(data, delete_cb)
unfoldable pub in_memory_reader : Bytes → Reader Bytes
unfolding set_total_length
in_memory_reader content = set_total_length (pos (length content)) (new_reader content)

-- data + offset for a negative offset lies outside the data.
pub copy_from : ℤ → ℕ → Bytes → Outcome Bytes
copy_from (pos n) count content = returned (take count (drop n content))
copy_from (negsuc n) count content = thrown

pub read_bytes : ℕ → ℤ → Reader Bytes → Outcome (Option Bytes × Reader Bytes)
unfolding copy_from
read_bytes max_bytes (negsuc n) r = returned (none, r)
read_bytes max_bytes (pos remaining) r =
    if remaining == 0
    then returned (some [], record r { done = true })
    else let count = min max_bytes remaining in
      if ltb 0 count
      then (do
        bytes ← copy_from r.offset count r.own
        returned (some bytes, if count == remaining then record r { done = true } else r))
      else returned (some [], r)

unfoldable pub in_memory_read : ℕ → Reader Bytes → Outcome (Option Bytes × Reader Bytes)
unfolding read_bytes
in_memory_read max_bytes r = read_bytes max_bytes (pos (length r.own) -ℤ r.offset) r

unfoldable pub in_memory_set_offset : ℕ → Reader Bytes → ℤ × Reader Bytes
in_memory_set_offset position r =
    if ltb (length r.own) position then (pos (length r.own), r) else (pos position, r)

-- s.find(p), from the front.
unfoldable pub find_text : Bytes → Bytes → Option ℕ
unfolding has_prefix
find_text [] p = if has_prefix p [] then some 0 else none
find_text (c ∷ s) p =
    let rest = find_text s p in if has_prefix p (c ∷ s) then some 0 else Option.map suc rest

-- data.find(pattern, start) and data.substr(start, end - start)
unfoldable pub append_from : Bytes → ℤ → Reader Bytes → Outcome (Bool × Bytes × Reader Bytes)
unfolding find_text
append_from pattern (negsuc n) r = thrown
append_from pattern (pos start) r = elim (find_text (drop start r.own) pattern) [
  | none ↦ do
    consumed ← or_thrown (substr r.own start (length r.own - start))
    returned (false, consumed, r)
  | some found ↦ do
    consumed ← or_thrown (substr r.own start (found + length pattern))
    returned (true, consumed, r)
]

unfoldable pub in_memory_append_until : Bytes → Reader Bytes → Outcome (Bool × Bytes × Reader Bytes)
unfolding append_from
in_memory_append_until pattern r = append_from pattern r.offset r

abbrev pub in_memory_methods : Methods Bytes
in_memory_methods = record {
  do_read_into_buffer = in_memory_read;
  do_set_offset = in_memory_set_offset;
  do_append_until = in_memory_append_until;
}
