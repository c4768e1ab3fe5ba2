-- ===== src/Serialization/StringWriter/Laws.antt =====
-- What a string writer holds after its writes, and what its reader returns.
use kwctoolkit.Prelude.{
  ℕ, ◌+◌, ◌-◌, ◌^◌, ◌≤◌, ◌<◌, ◌≡◌, refl, sym, ap, ◌∙◌, true, arith, List, [], ◌∷◌, ◌++◌, Bytes,
  length, length-append, append-nil, append_assoc, pos, returned,
}
use kwctoolkit.Base.Status.{ok_status}
use kwctoolkit.Serialization.Reader.{Reader, read_remaining_to_string, read_into_string}
use kwctoolkit.Serialization.Reader.Steps.{string_end}
use kwctoolkit.Serialization.InMemory.{in_memory_reader, in_memory_methods}
use kwctoolkit.Serialization.InMemory.Reads.{standing}
use kwctoolkit.Serialization.InMemory.Strings.{read_remaining_to_string-standing}
use kwctoolkit.Serialization.Writer.{Writer, data_reader, write_data, create_data_reader}
use kwctoolkit.Serialization.StringWriter.{
  string_writer, string_writer_methods, string_begin, string_write, string_clear,
}

-- Writes in a row.
abbrev pub write_all : List Bytes → Writer Bytes → Writer Bytes
write_all [] w = w
write_all (piece ∷ pieces) w = write_all pieces (write_data string_writer_methods piece w).1

abbrev pub flatten : List Bytes → Bytes
flatten [] = []
flatten (piece ∷ pieces) = piece ++ flatten pieces

-- A writer that has begun and holds `storage`.
abbrev pub holding : Bytes → Writer Bytes
holding storage = record {
  size = length storage;
  has_begun = true;
  status = ok_status;
  own = storage;
}

pub write_data-holding :
    (piece storage : Bytes)
    → (write_data string_writer_methods piece (holding storage)).1 ≡ holding (storage ++ piece)
unfolding write_data string_write
write_data-holding piece storage =
    ap (λ n. record { size = n; has_begun = true; status = ok_status; own = storage ++ piece })
      (sym (length-append storage piece))

write_all-holding :
    (pieces : List Bytes) (storage : Bytes)
    → write_all pieces (holding storage) ≡ holding (storage ++ flatten pieces)
write_all-holding [] storage = ap holding (sym (append-nil storage))
write_all-holding (piece ∷ pieces) storage =
    ap (write_all pieces) (write_data-holding piece storage)
    ∙ write_all-holding pieces (storage ++ piece)
    ∙ ap holding (append_assoc storage piece (flatten pieces))

-- The writes after construction, the first of which begins, leave a writer without an error that
-- holds exactly the written pieces in order, whatever stood in its string before, and its size is
-- their length.
pub write_all-fresh :
    (old piece : Bytes) (pieces : List Bytes)
    → write_all (piece ∷ pieces) (string_writer old) ≡ holding (flatten (piece ∷ pieces))
unfolding write_data string_write string_begin string_clear
write_all-fresh old piece pieces =
    ap
      (λ n.
        write_all pieces (record { size = n; has_begun = true; status = ok_status; own = piece }))
      (omega arith)
    ∙ write_all-holding pieces piece

whole_text :
    (fuel : ℕ) (content : Bytes)
    → length content < 2 ^ 63
    → length content + 2 ≤ fuel
    → read_remaining_to_string in_memory_methods fuel (in_memory_reader content)
      ≡ returned (content, standing content (length content) true (pos (length content)) ok_status)
unfolding in_memory_reader read_remaining_to_string read_into_string
whole_text fuel [] h hf =
    rw
      (string_end in_memory_methods fuel (2 ^ 63 - 1) (in_memory_reader []) 0 [] (omega arith) refl)
      refl
whole_text fuel (c ∷ content) h hf =
    read_remaining_to_string-standing (c ∷ content) (pos (length (c ∷ content))) ok_status fuel 0
      (omega arith) h (omega arith)

-- A string writer's data comes back: after the writes, the writer creates a reader in memory
-- (never the one for errors) that readRemainingToString empties to exactly the written pieces in
-- order, whatever stood in the string before, if they have less than 2^63 bytes.
pub created_reader-text :
    (fuel : ℕ) (old piece : Bytes) (pieces : List Bytes)
    → length (flatten (piece ∷ pieces)) < 2 ^ 63
    → length (flatten (piece ∷ pieces)) + 2 ≤ fuel
    → (r : Reader Bytes) × (create_data_reader string_writer_methods
          (write_all (piece ∷ pieces) (string_writer old))
        ≡ data_reader r)
      × (read_remaining_to_string in_memory_methods fuel r
          ≡ returned (
            flatten (piece ∷ pieces),
            standing
                (flatten (piece ∷ pieces))
                (length (flatten (piece ∷ pieces)))
                true
                (pos (length (flatten (piece ∷ pieces))))
                ok_status,
          ))
unfolding create_data_reader
created_reader-text fuel old piece pieces h hf = (
  in_memory_reader (flatten (piece ∷ pieces)),
  ap (create_data_reader string_writer_methods) (write_all-fresh old piece pieces),
  whole_text fuel (flatten (piece ∷ pieces)) h hf,
)
