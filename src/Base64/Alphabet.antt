-- ===== src/Base64/Alphabet.antt =====
-- The alphabet: the 64 characters have their own indices, and are read as base64.
use kwctoolkit.Prelude.{ℕ, ◌<◌, ◌≡◌, refl, true, not, ◌&&◌, ◌==◌, passes, passes-at, agree}
use kwctoolkit.Base64.{char_of, index_of, is_base64}

pub index_of-char_of : (i : ℕ) → i < 64 → index_of (char_of i) ≡ i
unfolding passes index_of char_of
index_of-char_of = agree 64 (λ i. index_of (char_of i)) (λ i. i) refl

-- The test of the decoding loop passes.
pub char_of-read : (i : ℕ) → i < 64 → (not (char_of i == b'=') && is_base64 (char_of i)) ≡ true
unfolding passes char_of is_base64
char_of-read i h = passes-at (λ j. not (char_of j == b'=') && is_base64 (char_of j)) i 64 h refl
