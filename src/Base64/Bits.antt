-- ===== src/Base64/Bits.antt =====
-- The masks of base64.cc on one byte or one index, as arithmetic, by tables.
use Prim.Native.Nat.{bit_and}
use kwctoolkit.Prelude.{ℕ, ◌/◌, ◌%◌, ◌<◌, ◌≡◌, refl, passes, agree}

pub mask_fc : (x : ℕ) → x < 256 → bit_and x 0xfc / 4 ≡ x / 4
unfolding passes
mask_fc = agree 256 (λ x. bit_and x 0xfc / 4) (λ x. x / 4) refl

pub mask_03 : (x : ℕ) → x < 256 → bit_and x 0x03 ≡ x % 4
unfolding passes
mask_03 = agree 256 (λ x. bit_and x 0x03) (λ x. x % 4) refl

pub mask_f0 : (x : ℕ) → x < 256 → bit_and x 0xf0 / 16 ≡ x / 16
unfolding passes
mask_f0 = agree 256 (λ x. bit_and x 0xf0 / 16) (λ x. x / 16) refl

pub mask_0f : (x : ℕ) → x < 256 → bit_and x 0x0f ≡ x % 16
unfolding passes
mask_0f = agree 256 (λ x. bit_and x 0x0f) (λ x. x % 16) refl

pub mask_c0 : (x : ℕ) → x < 256 → bit_and x 0xc0 / 64 ≡ x / 64
unfolding passes
mask_c0 = agree 256 (λ x. bit_and x 0xc0 / 64) (λ x. x / 64) refl

pub mask_3f : (x : ℕ) → x < 256 → bit_and x 0x3f ≡ x % 64
unfolding passes
mask_3f = agree 256 (λ x. bit_and x 0x3f) (λ x. x % 64) refl

pub mask_30 : (x : ℕ) → x < 64 → bit_and x 0x30 / 16 ≡ x / 16
unfolding passes
mask_30 = agree 64 (λ x. bit_and x 0x30 / 16) (λ x. x / 16) refl

pub mask_3c : (x : ℕ) → x < 64 → bit_and x 0x3c / 4 ≡ x / 4
unfolding passes
mask_3c = agree 64 (λ x. bit_and x 0x3c / 4) (λ x. x / 4) refl
