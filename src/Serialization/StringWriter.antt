-- ===== src/Serialization/StringWriter.antt =====
-- StringDataWriter of kwctoolkit/serialization/string_data_writer.cc. The writer's own state is
-- the string that storage_ points to.
pub mod Laws
pub mod Transfer
use kwctoolkit.Prelude.{[], ◌++◌, Bytes}
use kwctoolkit.Base.Status.{Status, ok_status}
use kwctoolkit.Serialization.Reader.{Reader}
use kwctoolkit.Serialization.InMemory.{in_memory_reader}
use kwctoolkit.Serialization.Writer.{Writer, WriterMethods, new_writer}

abbrev pub string_writer : Bytes → Writer Bytes
string_writer storage = new_writer storage

unfoldable pub string_clear : Bytes → Status × Bytes
string_clear storage = (ok_status, [])

unfoldable pub string_begin : Bytes → Status × Bytes
unfolding string_clear
string_begin storage = string_clear storage

unfoldable pub string_write : Bytes → Bytes → Status × Bytes
string_write bytes storage = (ok_status, storage ++ bytes)

-- doEnd is the base class's.
abbrev pub default_end : Bytes → Status × Bytes
default_end storage = (ok_status, storage)

abbrev pub string_writer_methods : WriterMethods Bytes (Reader Bytes)
string_writer_methods = record {
  do_begin = string_begin;
  do_end = default_end;
  do_clear = string_clear;
  do_write = string_write;
  create_reader = in_memory_reader;
}
