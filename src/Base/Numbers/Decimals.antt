-- ===== src/Base/Numbers/Decimals.antt =====
-- Decimal numbers with a sign, as std::to_string prints them.
use kwctoolkit.Prelude.{
  ℕ, zero, suc, ◌+◌, ◌/◌, ◌%◌, ◌<◌, ◌≡◌, refl, ap, ◌∙◌, Bool, true, false, arith, [], ◌∷◌, ltb,
  if◌then◌else◌, Bytes, ℤ, pos, negsuc,
}
use native.Mathlib.Nat.{mod-lt}
use kwctoolkit.Base.Status.{decimal, to_string}
use kwctoolkit.Base.Numbers.{digit_value, read_digits, take_sign, scan_number, strtol, to_long}
use kwctoolkit.Base.Numbers.Spelling.{
  digit_char, spell, spelled, starts_with_x, scan_number-spell, skip_prefix-plain, skip_space-plain,
}

decimal-spell : (fuel n : ℕ) (acc : Bytes) → decimal fuel n acc ≡ spell 10 fuel n acc
unfolding decimal spell
decimal-spell zero n acc = refl
decimal-spell (suc fuel) n acc =
    let d : (b'0' + n % 10) ≡ digit_char (n % 10) = digit (n % 10) (mod-lt n (omega arith)) in
    ap (λ (acc' : Bytes). if ltb n 10 then acc' else decimal fuel (n / 10) acc')
      (ap (λ c. c ∷ acc) d)
    ∙ ap (λ (t : Bytes). if ltb n 10 then digit_char (n % 10) ∷ acc else t)
        (decimal-spell fuel (n / 10) (digit_char (n % 10) ∷ acc))
  where
    digit : (d : ℕ) → d < 10 → (b'0' + d) ≡ digit_char d
    digit d h = ground arith

scan_number-signed :
    (base c : ℕ) (tail : Bytes)
    → starts_with_x tail ≡ false
    → ltb (digit_value c) base ≡ true
    → scan_number base (b'-' ∷ c ∷ tail)
      ≡ (true, (read_digits base 0 (c ∷ tail)).0, (read_digits base 0 (c ∷ tail)).1)
unfolding scan_number take_sign
scan_number-signed base c tail hx hd =
    rw (skip_space-plain b'-' (c ∷ tail) refl, skip_prefix-plain base c tail hx, hd, scan_number)
      refl

-- A text is scanned as the number that it prints.
pub scan_number-decimal : (n : ℕ) → scan_number 10 (decimal (suc n) n []) ≡ (false, n, [])
scan_number-decimal n =
    ap (scan_number 10) (decimal-spell (suc n) n [])
    ∙ scan_number-spell 10 n [] (omega arith) (omega arith) refl refl

pub scan_number-minus : (n : ℕ) → scan_number 10 (b'-' ∷ decimal (suc n) n []) ≡ (true, n, [])
scan_number-minus n =
    let s = spelled 10 n [] (omega arith) (omega arith) refl refl in
    ap (λ t. scan_number 10 (b'-' ∷ t)) (decimal-spell (suc n) n [] ∙ s.spells)
    ∙ scan_number-signed 10 s.head s.tail s.no_prefix s.is_first_digit
    ∙ ap (λ (r : ℕ × Bytes). (true, r.0, r.1)) s.reads

abbrev pub is_minus : ℤ → Bool
is_minus (pos n) = false
is_minus (negsuc n) = true

abbrev pub magnitude : ℤ → ℕ
magnitude (pos n) = n
magnitude (negsuc n) = suc n

-- strtol reads what to_string prints, up to the limits of long.
pub strtol-to_string : (v : ℤ) → strtol 10 (to_string v) ≡ (to_long (is_minus v) (magnitude v), [])
unfolding strtol to_string
strtol-to_string (pos n) = rw (scan_number-decimal n) refl
strtol-to_string (negsuc n) = rw (scan_number-minus (suc n)) refl
