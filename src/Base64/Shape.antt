-- ===== src/Base64/Shape.antt =====
-- What an encoding looks like.
use kwctoolkit.Prelude.{
  ℕ, ◌+◌, ◌*◌, ◌/◌, ◌<◌, ◌≡◌, refl, true, ◌||◌, [], ◌∷◌, arith, ◌==◌, Bytes, length, passes,
  passes-at,
}
use kwctoolkit.Base64.{
  char_of, encode_tail, is_base64, base64_encode, index_0, index_1, index_2, index_3,
}
use kwctoolkit.Base64.RoundTrip.{
  AllBytes, groups, base64_encode-groups, index_0-lt, index_1-lt, index_2-lt, index_3-lt,
}

length-groups : (s : Bytes) → length (groups s) ≡ (length s + 2) / 3 * 4
unfolding encode_tail
length-groups [] = refl
length-groups (a ∷ []) = refl
length-groups (a ∷ b ∷ []) = refl
length-groups (a ∷ b ∷ c ∷ rest) = omega (arith, length-groups rest)

-- A character of the alphabet, or the filler.
abbrev pub IsEncoded : Bytes → Type 0
IsEncoded [] = Unit {0}
IsEncoded (c ∷ cs) = ((is_base64 c || c == b'=') ≡ true) × IsEncoded cs

encoded_char : (i : ℕ) → i < 64 → (is_base64 (char_of i) || char_of i == b'=') ≡ true
unfolding passes is_base64 char_of
encoded_char i h = passes-at (λ j. is_base64 (char_of j) || char_of j == b'=') i 64 h refl

filler : (is_base64 b'=' || b'=' == b'=') ≡ true
unfolding is_base64
filler = refl

groups-IsEncoded : (s : Bytes) → AllBytes s → IsEncoded (groups s)
unfolding encode_tail
groups-IsEncoded [] h = tt
groups-IsEncoded (a ∷ []) h =
    let z : 0 < 256 = omega arith in
    (
      encoded_char (index_0 a) (index_0-lt a 0 0 h.0 z z),
      (encoded_char (index_1 a 0) (index_1-lt a 0 0 h.0 z z), (filler, (filler, tt))),
    )
groups-IsEncoded (a ∷ b ∷ []) h =
    let z : 0 < 256 = omega arith in
    (
      encoded_char (index_0 a) (index_0-lt a b 0 h.0 h.1.0 z),
      (
        encoded_char (index_1 a b) (index_1-lt a b 0 h.0 h.1.0 z),
        (encoded_char (index_2 b 0) (index_2-lt a b 0 h.0 h.1.0 z), (filler, tt)),
      ),
    )
groups-IsEncoded (a ∷ b ∷ c ∷ rest) h =
    let ha = h.0 in
    let hb = h.1.0 in
    let hc = h.1.1.0 in
    (
      encoded_char (index_0 a) (index_0-lt a b c ha hb hc),
      (
        encoded_char (index_1 a b) (index_1-lt a b c ha hb hc),
        (
          encoded_char (index_2 b c) (index_2-lt a b c ha hb hc),
          (encoded_char (index_3 c) (index_3-lt a b c ha hb hc), groups-IsEncoded rest h.1.1.1),
        ),
      ),
    )

-- Of `n` bytes, Base64Encode makes four characters for each three bytes begun, and each is a
-- character of the alphabet or '='.
pub base64_encode-shape :
    (s : Bytes)
    → AllBytes s
    → (length (base64_encode s) ≡ (length s + 2) / 3 * 4) × IsEncoded (base64_encode s)
base64_encode-shape s h = rw (base64_encode-groups s) (length-groups s, groups-IsEncoded s h)
