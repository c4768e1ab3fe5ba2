-- ===== src/Examples/Responses.antt =====
-- Headers and the body of a short response.
use kwctoolkit.Prelude.{◌≡◌, refl, arith, codes, [], ◌∷◌, false, pos, returned}
use kwctoolkit.Base.Status.{ok_status}
use kwctoolkit.Serialization.InMemory.{in_memory_methods}
use kwctoolkit.Serialization.InMemory.Reads.{standing}
use kwctoolkit.Serialization.StringWriter.{string_writer_methods}
use kwctoolkit.Serialization.StringWriter.Laws.{holding}
use kwctoolkit.Base.Numbers.Spelling.{spell}
use kwctoolkit.Transport.Transaction.{do_execute, release_processor}
use kwctoolkit.Transport.Transaction.Reuse.{do_execute-release_processor}
use kwctoolkit.Transport.Processor.{complete, new_processor, parse_response}
use kwctoolkit.Transport.Processor.Pieces.{chunking}
use kwctoolkit.Transport.Processor.Chunks.{chunks}
use kwctoolkit.Transport.Processor.Bodies.{chunked_response, chunked_headers, parse_response-chunks}
use kwctoolkit.Transport.Response.{get_body}
use kwctoolkit.Transport.Response.Body.{get_body-standing}

get_body-standing_example :
    get_body in_memory_methods 7 (standing (codes "Hello") 3 false (pos 5) ok_status)
    ≡ returned (ok_status, codes "Hello", standing (codes "Hello") 0 false (pos 5) ok_status)
get_body-standing_example =
    get_body-standing (codes "Hello") (pos 5) 7 3 false (omega arith) (omega arith) (omega arith)
      refl

parse_response-chunks_example :
    parse_response string_writer_methods 12
      (chunked_response (codes "OK") (chunks (codes "Hello" ∷ codes " world!" ∷ []) (codes "X")))
      new_processor
      (holding [])
    ≡ returned
        (chunking complete (pos 200) chunked_headers (pos 0) 12, holding (codes "Hello world!"))
unfolding spell
parse_response-chunks_example =
    parse_response-chunks (codes "Hello" ∷ codes " world!" ∷ []) 12 (codes "OK") (codes "X") [] refl
      refl (omega arith) (omega arith)

do_execute-release_processor_example :
    do_execute string_writer_methods 1
      (codes "HTTP/1.1 200 OK\r\n")
      (release_processor (chunking complete (pos 200) [] (pos 0) 12) [])
      (holding [])
    ≡ returned (
      chunking complete (pos 0) [] (pos 0) 12,
      release_processor (chunking complete (pos 0) [] (pos 0) 12) [],
      holding [],
    )
do_execute-release_processor_example =
    do_execute-release_processor (chunking complete (pos 200) [] (pos 0) 12) [] 0
      (codes "HTTP/1.1 200 OK\r\n") (holding []) refl
