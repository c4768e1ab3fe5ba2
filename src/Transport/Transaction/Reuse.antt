-- ===== src/Transport/Transaction/Reuse.antt =====
-- Processors that are used again.
use kwctoolkit.Prelude.{ℕ, suc, ◌≡◌, refl, ap, List, [], ◌∷◌, Bytes, returned}
use kwctoolkit.Serialization.Writer.{Writer}
use kwctoolkit.Serialization.StringWriter.{string_writer_methods}
use kwctoolkit.Transport.Processor.{complete, Processor, next_response}
use kwctoolkit.Transport.Processor.Bodies.{parse_response-again}
use kwctoolkit.Transport.Transaction.{acquire_processor, release_processor, do_execute}

acquire_processor-release_processor :
    (p : Processor) (processors : List Processor)
    → acquire_processor (release_processor p processors) ≡ (p, processors)
unfolding acquire_processor
acquire_processor-release_processor p [] = refl
acquire_processor-release_processor p (q ∷ []) = refl
acquire_processor-release_processor p (q ∷ r ∷ processors) =
    ap (λ (a : Processor × List Processor). (a.0, q ∷ a.1))
      (acquire_processor-release_processor p (r ∷ processors))

-- A request takes the processor that was released last. If that one has completed a response, then
-- nothing of the new response is parsed, whatever is received: the code stays 0, no header is
-- found, the writer gets nothing, and the processor goes back as complete as it was. (Its state is
-- not set back.)
pub do_execute-release_processor :
    (p : Processor) (others : List Processor) (fuel : ℕ) (received : Bytes) (w : Writer Bytes)
    → p.response_state ≡ complete
    → do_execute string_writer_methods (suc fuel) received (release_processor p others) w
      ≡ returned (next_response p, release_processor (next_response p) others, w)
unfolding do_execute
do_execute-release_processor p others fuel received w h =
    rw (acquire_processor-release_processor p others)
      (rw (parse_response-again p fuel received w h) refl)
