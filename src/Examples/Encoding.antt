-- ===== src/Examples/Encoding.antt =====
-- Base64 of short texts.
use kwctoolkit.Prelude.{codes, ◌≡◌, arith, some}
use kwctoolkit.Base64.{base64_encode, base64_decode}
use kwctoolkit.Base64.RoundTrip.{AllBytes, base64_decode-encode}
use kwctoolkit.Base64.Shape.{base64_encode-shape}

hello_AllBytes : AllBytes (codes "Hello")
hello_AllBytes = (omega arith, (omega arith, (omega arith, (omega arith, (omega arith, tt)))))

base64_decode-encode_example : base64_decode (base64_encode (codes "Hello")) ≡ some (codes "Hello")
base64_decode-encode_example =
    base64_decode-encode (codes "Hello") hello_AllBytes
      (omega (arith, (base64_encode-shape (codes "Hello") hello_AllBytes).0))
