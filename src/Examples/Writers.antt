-- ===== src/Examples/Writers.antt =====
-- Writing short texts, and copying from a reader.
use kwctoolkit.Prelude.{codes, Bytes, List, [], ◌∷◌, ◌≡◌, arith, pos, negsuc, returned, true, false}
use kwctoolkit.Base.Status.{ok_status}
use kwctoolkit.Serialization.Reader.{Reader, read_remaining_to_string}
use kwctoolkit.Serialization.InMemory.{in_memory_methods}
use kwctoolkit.Serialization.InMemory.Reads.{standing}
use kwctoolkit.Serialization.Writer.{write_reader, create_data_reader, data_reader}
use kwctoolkit.Serialization.StringWriter.{string_writer, string_writer_methods}
use kwctoolkit.Serialization.StringWriter.Laws.{write_all, holding, created_reader-text}
use kwctoolkit.Serialization.StringWriter.Transfer.{write_reader-standing}

abbrev pieces : List Bytes
pieces = codes "ab" ∷ codes "c" ∷ []

created_reader-text_example :
    (r : Reader Bytes) × (create_data_reader string_writer_methods
        (write_all pieces (string_writer (codes "old")))
      ≡ data_reader r)
    × (read_remaining_to_string in_memory_methods 5 r
        ≡ returned (codes "abc", standing (codes "abc") 3 true (pos 3) ok_status))
created_reader-text_example =
    created_reader-text 5 (codes "old") (codes "ab") (codes "c" ∷ []) (omega arith) (omega arith)

write_reader-standing_example :
    write_reader string_writer_methods in_memory_methods 2 6
      (negsuc 0)
      (standing (codes "Hello") 1 false (pos 5) ok_status)
      (holding (codes "old "))
    ≡ returned
        (ok_status, standing (codes "Hello") 5 true (pos 5) ok_status, holding (codes "old ello"))
write_reader-standing_example =
    write_reader-standing (codes "Hello") 0 6 1 (negsuc 0) (codes "old ") (omega arith)
      (omega arith) (omega arith)
