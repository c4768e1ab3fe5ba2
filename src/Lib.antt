-- ===== src/Lib.antt =====
-- KWCToolkit: the parts of the C++ library under kwctoolkit/ that compute: text helpers, Base64,
-- the edit distance, paths, files and directories, command lines, flags, addresses, HTTP
-- transactions, reference counts, results, regular expressions, and the readers and writers of byte
-- sequences.
--
-- The parts and the files that model them:
--   Prelude        Helpers: Boolean tests, lists, text, integers, outcomes.
--   Strings.Ascii  kwctoolkit/strings/string_utils.h and .cc: character tests and conversions,
--                  StartsWith, EndsWith.
--   Strings.Trim   TrimString of string_utils.cc.
--   Strings.Split  SplitString of kwctoolkit/strings/string_split.cc, which calls TrimString.
--   Strings.Unicode
--                  ConvertUnicode of kwctoolkit/strings/utf_string_conversion.cc, over the macros of
--                  ICU.
--   Base64         kwctoolkit/utils/base64.cc: Base64Encode and Base64Decode.
--   Levenshtein    kwctoolkit/utils/levenshtein.h: LevenshteinDistance.
--   File.Path      kwctoolkit/file/file_path.cc: FilePath, on POSIX.
--   File.Directories
--                  kwctoolkit/file/file_utils.cc: CreateDirectory over FilePath; stat64 and mkdir
--                  are the parameter FileSystem.
--   File.Descriptors
--                  kwctoolkit/file/file_utils.h and .cc: ReadFull, WriteFull, ReadFile and
--                  WriteFile; the system calls are the parameter Calls.
--   File.Enumerator
--                  kwctoolkit/file/file_enumerator.cc: FileEnumerator over FilePath; readdir_r,
--                  stat and fnmatch are the parameter System.
--   System.CommandLine
--                  kwctoolkit/system/cmdline.cc: CommandLine, over TrimString and FilePath.
--   Base.Status    kwctoolkit/base/status.h and status.cc.
--   Base.Numbers   strtol, strtoull and atoi of <cstdlib> on 64-bit long, by their documentation,
--                  as the parsers below call them.
--   Base.Flags     kwctoolkit/base/cmdline_flags.cc: the values of flags, over Base.Numbers.
--   Base.CheckedInteger
--                  kwctoolkit/base/checked_integer.h: CheckedIntegerImpl, with assertions on.
--   Base.RefCount  kwctoolkit/base/ref_count.h and ref_count.cc: RefCount and Ref over a heap of
--                  counts.
--   Base.Result    kwctoolkit/base/result.h and result.cc: the Result of pointers, as a tagged
--                  pointer (Abstract is the sum type of its comment), and the Result of values
--                  (Values); KWC_ASSERT of assert.h, on or off.
--   Serialization  kwctoolkit/serialization: DataReader (Reader) over its virtual methods,
--                  InMemoryDataReader (InMemory), IstreamDataReader (Istream) over std::istream,
--                  which is the parameter Stream, DataWriter (Writer) over its virtual methods and
--                  over a reader to copy from, StringDataWriter (StringWriter).
--   Net.Address    kwctoolkit/net: Address over its IPv4 and IPv6 parts; inet_pton and inet_ntop
--                  are the parameter Inet.
--   Transport.Response
--                  kwctoolkit/transport/http_response.h and .cc: headers, and the body
--                  over a reader.
--   Transport.Processor
--                  kwctoolkit/transport/simple_http_transaction.cc: SimpleHttpProcessor, the parser
--                  of responses, over TrimString, the headers of Transport.Response, and a
--                  DataWriter for the body.
--   Transport.Socket
--                  The receive and send loops of the same file, over the parameter Socket.
--   Transport.Transaction
--                  SimpleHttpTransaction of the same file, over that parser, and the headers of
--                  kwctoolkit/transport/http_request.cc.
--   System.Features
--                  kwctoolkit/system/feature_list.cc: FeatureList, over SplitString.
--   System.Process kwctoolkit/system/process_internal_linux.cc, over SplitString and FilePath.
--   System.Memory  kwctoolkit/system/system_memory_info_linux.cc, over SplitString.
--   System.Environment
--                  kwctoolkit/system/environment.cc, over getenv.
--   System.Thread  kwctoolkit/system/thread.cc: Thread over the parameter Pthreads.
--   Regex          kwctoolkit/utils/regex.cc: the builder of regular expressions.
--   Image          kwctoolkit/image: the format by the first bytes, and the check of sizes.
--   Examples       Runs of these on concrete data.
--
-- A text is the list of its bytes. An exception or an access outside the data is `thrown` (`none`
-- where a function only returns a text). A loop that the source writes without a bound runs on
-- fuel and is `exhausted` without it: SplitString has a round for each character and one more,
-- which is enough, and the theorems on readers and writers say how much fuel is enough. A class is
-- a record of its fields with the derived class's state in it, its virtual methods are a record of
-- functions, and a method that changes the object returns the new one. What a function reads from
-- the operating system is an argument. The parser of responses has a round for each line or piece
-- of data; references are counted over explicit sequences of statements, on one thread.
--
-- The system is state that the calls of a parameter change; what its calls document is a record
-- of hypotheses, such as Reads of a file, and fuel is enough if it exceeds the calls that it can
-- still interrupt or split. The variables of a program of Results are numbered as constructed.
--
-- The model is the release build, where assertions are off, but for Base.CheckedInteger, which is
-- about them, and Base.Result and System.Thread, which have them on or off; KWC_CHECK only logs in
-- every build. int64 values do not overflow, memory is always granted, callbacks of destructors are
-- left out. unsigned int wraps around.
-- Not modelled: code that only calls the operating system or prints (File over stdio, timers,
-- connecting a socket, logging), generated callbacks, floating point, libpng.
pub mod Prelude
pub mod Strings
pub mod Base64
pub mod Levenshtein
pub mod Base
pub mod Serialization
pub mod File
pub mod System
pub mod Transport
pub mod Net
pub mod Regex
pub mod Image
pub mod Examples
