-- ===== src/Base64.antt =====
-- kwctoolkit/utils/base64.cc. `unsigned char` values are numbers below 256, and a text is the list
-- of its characters. The arrays of three and four characters are the lists `pending`, whose length
-- is the code's `i`. The input of Base64Encode is the list of its in_len bytes. The counters of
-- Base64Decode are ints; where one overflows, which C++ leaves undefined, the model gives `none`.
pub mod Bits
pub mod Alphabet
pub mod RoundTrip
pub mod Shape
use Prim.Native.Nat.{bit_and}
use kwctoolkit.Prelude.{
  ℕ, zero, suc, ◌+◌, ◌*◌, ◌/◌, ◌%◌, ◌^◌, Bool, true, false, ℤ, pos, negsuc, to_int, length, not,
  ◌&&◌, ◌||◌, Option, none, some, [], ◌∷◌, ◌++◌, leb, ◌==◌, if◌then◌else◌, Bytes, codes, get_or,
  find_char, replicate, ◌-◌,
}

abbrev pub base64_chars : Bytes
base64_chars = codes "ABCDEFGHIJKLMNOPQRSTUVWXYZabcdefghijklmnopqrstuvwxyz0123456789+/"

-- isalnum in the "C" locale, '+' or '/'
pub is_base64 : ℕ → Bool
is_base64 c =
    (leb b'0' c && leb c b'9')
    || (leb b'A' c && leb c b'Z')
    || (leb b'a' c && leb c b'z')
    || c == b'+'
    || c == b'/'

-- kBase64Chars[i]
pub char_of : ℕ → ℕ
char_of i = get_or base64_chars i 0

-- The four indices of three bytes.
pub index_0 : ℕ → ℕ
index_0 a = bit_and a 0xfc / 4

pub index_1 : ℕ → ℕ → ℕ
index_1 a b = bit_and a 0x03 * 16 + bit_and b 0xf0 / 16

pub index_2 : ℕ → ℕ → ℕ
index_2 b c = bit_and b 0x0f * 4 + bit_and c 0xc0 / 64

pub index_3 : ℕ → ℕ
index_3 c = bit_and c 0x3f

-- The code after the loop, for the bytes that are left: missing bytes are '\0', and '=' fills up.
pub encode_tail : Bytes → Bytes
unfolding char_of index_0 index_1 index_2
encode_tail (a ∷ []) = char_of (index_0 a) ∷ char_of (index_1 a 0) ∷ b'=' ∷ b'=' ∷ []
encode_tail (a ∷ b ∷ []) =
    char_of (index_0 a) ∷ char_of (index_1 a b) ∷ char_of (index_2 b 0) ∷ b'=' ∷ []
encode_tail _ = []

pub encode_loop : Bytes → Bytes → Bytes → Bytes
unfolding encode_tail char_of index_0 index_1 index_2 index_3
encode_loop [] pending ret = ret ++ encode_tail pending
encode_loop (c ∷ input) (a ∷ b ∷ []) ret = encode_loop input [] (
    ret
    ++ char_of (index_0 a)
      ∷ char_of (index_1 a b)
      ∷ char_of (index_2 b c)
      ∷ char_of (index_3 c)
      ∷ [])
encode_loop (c ∷ input) pending ret = encode_loop input (pending ++ c ∷ []) ret

unfoldable pub base64_encode : Bytes → Bytes
unfolding encode_loop
base64_encode input = encode_loop input [] []

-- kBase64Chars.find(c) as an unsigned char: npos becomes 255.
pub index_of : ℕ → ℕ
unfolding find_char
index_of c = elim (find_char base64_chars c) [ some i ↦ i | none ↦ 255 ]

-- The three bytes of four indices; the stores truncate to eight bits.
pub byte_0 : ℕ → ℕ → ℕ
byte_0 i j = (i * 4 + bit_and j 0x30 / 16) % 256

pub byte_1 : ℕ → ℕ → ℕ
byte_1 j k = (bit_and j 0xf * 16 + bit_and k 0x3c / 4) % 256

pub byte_2 : ℕ → ℕ → ℕ
byte_2 k l = (bit_and k 0x3 * 64 + l) % 256

-- The code after the loop: `i - 1` bytes from the `i` characters that are left.
pub decode_tail : Bytes → Bytes
unfolding index_of byte_0 byte_1
decode_tail (p ∷ q ∷ []) = byte_0 (index_of p) (index_of q) ∷ []
decode_tail (p ∷ q ∷ r ∷ []) =
    byte_0 (index_of p) (index_of q) ∷ byte_1 (index_of q) (index_of r) ∷ []
decode_tail _ = []

-- One more character: the array is full after four.
pub decode_step : Bytes → ℕ → Bytes × Bytes
unfolding index_of byte_0 byte_1 byte_2
decode_step (p ∷ q ∷ r ∷ []) c = (
  [],
  byte_0 (index_of p) (index_of q)
      ∷ byte_1 (index_of q) (index_of r)
      ∷ byte_2 (index_of r) (index_of c)
      ∷ [],
)
decode_step pending c = (pending ++ c ∷ [], [])

-- The int in_len: whether it is 0 or the least int, and one less.
abbrev pub is_least : ℤ → Bool
is_least (pos n) = false
is_least (negsuc n) = n == 2 ^ 31 - 1

abbrev pub decrement : ℤ → ℤ
decrement (pos zero) = negsuc 0
decrement (pos (suc n)) = pos n
decrement (negsuc n) = negsuc (suc n)

abbrev pub is_end : ℤ → Bool
is_end (pos zero) = true
is_end (pos (suc n)) = false
is_end (negsuc n) = false

-- The loop on in_len, the index `in`, the characters from there on, of which the one at the end
-- of the string is '\0', char_array_4 and ret.
pub decode_loop : ℤ → ℕ → Bytes → Bytes → Bytes → Option Bytes
unfolding decode_tail decode_step is_base64
decode_loop in_len index [] pending ret =
    if is_end in_len
    then some (ret ++ decode_tail pending)
    else if is_least in_len
    then none
    else some (ret ++ decode_tail pending)
decode_loop in_len index (c ∷ input) pending ret =
    let next = decode_step pending c in
    let rest = decode_loop (decrement in_len) (index + 1) input next.0 (ret ++ next.1) in
    if is_end in_len
    then some (ret ++ decode_tail pending)
    else if is_least in_len
    then none
    else if not (c == b'=') && is_base64 c
    then if index + 1 == 2 ^ 31 then none else rest
    else some (ret ++ decode_tail pending)

unfoldable pub base64_decode : Bytes → Option Bytes
unfolding decode_loop
base64_decode input = decode_loop (to_int (pos (length input))) 0 input [] []
