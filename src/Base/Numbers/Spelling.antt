-- ===== src/Base/Numbers/Spelling.antt =====
-- Numbers that are spelled out are read back.
use kwctoolkit.Prelude.{
  ℕ, zero, suc, ◌+◌, ◌-◌, ◌*◌, ◌/◌, ◌%◌, ◌<◌, ◌≤◌, ◌≡◌, refl, sym, ap, ◌∙◌, inl, inr, Bool, true,
  false, ◌||◌, arith, Bool-cases, [], ◌∷◌, ltb, ltb→lt, ◌==◌, if◌then◌else◌, Bytes,
}
use native.Mathlib.Nat.{mod-lt, mod-eq_of_lt, div-add-mod', div-lt_self}
use kwctoolkit.Strings.Ascii.{is_whitespace}
use kwctoolkit.Base.Numbers.{
  digit_value, starts_with_digit, read_digits, skip_space, take_sign, skip_prefix, scan_number,
}

abbrev pub digit_char : ℕ → ℕ
digit_char d = if ltb d 10 then b'0' + d else b'a' + (d - 10)

-- The digits of a number in a base, in front of `acc`.
unfoldable pub spell : ℕ → ℕ → ℕ → Bytes → Bytes
spell base zero n acc = acc
spell base (suc fuel) n acc =
    let acc' = digit_char (n % base) ∷ acc in
    let rest = spell base fuel (n / base) acc' in if ltb n base then acc' else rest

digit_value-digit_char : (d : ℕ) → d < 36 → digit_value (digit_char d) ≡ d
digit_value-digit_char d h = ground arith

module _ (base acc c : ℕ) (rest : Bytes) where
  read_digits-step :
      ltb (digit_value c) base ≡ true
      → read_digits base acc (c ∷ rest) ≡ read_digits base (acc * base + digit_value c) rest
  unfolding read_digits
  read_digits-step h = rw (h, read_digits) refl

  pub read_digits-stop :
      ltb (digit_value c) base ≡ false → read_digits base acc (c ∷ rest) ≡ (acc, c ∷ rest)
  unfolding read_digits
  read_digits-stop h = rw (h, read_digits) refl

read_digits-digit :
    (base acc d : ℕ) (rest : Bytes)
    → d < base
    → base ≤ 36
    → read_digits base acc (digit_char d ∷ rest) ≡ read_digits base (acc * base + d) rest
read_digits-digit base acc d rest h hb =
    let e : digit_value (digit_char d) ≡ d = digit_value-digit_char d (omega arith) in
    read_digits-step base acc (digit_char d) rest (rw (e) (ground arith))
    ∙ ap (λ v. read_digits base (acc * base + v) rest) e

read_digits-end :
    (base n : ℕ) (rest : Bytes)
    → starts_with_digit base rest ≡ false
    → read_digits base n rest ≡ (n, rest)
unfolding read_digits
read_digits-end base n [] h = refl
read_digits-end base n (c ∷ rest) h = read_digits-stop base n c rest h

ltb-pos : (n base : ℕ) → 1 < base → ltb n base ≡ false → 0 < n
ltb-pos n base hb h = ground arith

-- Reading what is spelled goes on behind the number.
pub read_digits-spell :
    (base fuel n : ℕ) (rest : Bytes)
    → 1 < base
    → base ≤ 36
    → n < fuel
    → read_digits base 0 (spell base fuel n rest) ≡ read_digits base n rest
unfolding spell
read_digits-spell base zero n rest hb hs hf = absurd (omega arith)
read_digits-spell base (suc fuel) n rest hb hs hf = elim (Bool-cases (ltb n base)) [
  | inl small ↦
      let e : n % base ≡ n = mod-eq_of_lt (ltb→lt n base small) in
      rw (small) (
        read_digits-digit base 0 (n % base) rest (mod-lt n (omega arith)) hs
        ∙ ap (λ v. read_digits base v rest) (omega (arith, e)))
  | inr large ↦ rw (large) (
      read_digits-spell base fuel (n / base) (digit_char (n % base) ∷ rest) hb hs
        (omega (arith, div-lt_self (ltb-pos n base hb large) hb))
      ∙ read_digits-digit base (n / base) (n % base) rest (mod-lt n (omega arith)) hs
      ∙ ap (λ v. read_digits base v rest) (div-add-mod' n base))
]

-- Whether a text goes on with the letter of a hexadecimal prefix.
abbrev pub starts_with_x : Bytes → Bool
starts_with_x [] = false
starts_with_x (c ∷ cs) = c == b'x' || c == b'X'

-- A spelled number starts with a digit, behind which there is no letter x.
spell-digit :
    (base fuel n : ℕ) (rest : Bytes)
    → 1 < base
    → base ≤ 16
    → n < fuel
    → starts_with_x rest ≡ false
    → (d : ℕ) × (tail : Bytes) × (d < base)
      × (starts_with_x tail ≡ false)
      × (spell base fuel n rest ≡ digit_char d ∷ tail)
unfolding spell
spell-digit base zero n rest hb hs hf hx = absurd (omega arith)
spell-digit base (suc fuel) n rest hb hs hf hx = elim (Bool-cases (ltb n base)) [
  | inl small ↦ (n % base, rest, mod-lt n (omega arith), hx, rw (small) refl)
  | inr large ↦
      let lt : n % base < 16 = omega (arith, mod-lt n {m = base} (omega arith)) in
      let (d, tail, hd, ht, e) =
        spell-digit base fuel (n / base) (digit_char (n % base) ∷ rest) hb hs
          (omega (arith, div-lt_self (ltb-pos n base hb large) hb)) (ground arith) in
      (d, tail, hd, ht, rw (large) e)
]

digit_char-plain :
    (d : ℕ)
    → d < 16
    → (is_whitespace (digit_char d) ≡ false)
      × ((digit_char d == b'-') ≡ false)
      × ((digit_char d == b'+') ≡ false)
digit_char-plain d h = (ground arith, ground arith, ground arith)

pub skip_prefix-plain :
    (base c : ℕ) (tail : Bytes)
    → starts_with_x tail ≡ false
    → skip_prefix base (c ∷ tail) ≡ c ∷ tail
unfolding skip_prefix
skip_prefix-plain base c [] h = refl
skip_prefix-plain base c (x ∷ rest) h = ground arith

pub skip_space-plain :
    (c : ℕ) (tail : Bytes) → is_whitespace c ≡ false → skip_space (c ∷ tail) ≡ c ∷ tail
unfolding skip_space
skip_space-plain c tail h = ground arith

take_sign-plain :
    (c : ℕ) (tail : Bytes)
    → (c == b'-') ≡ false
    → (c == b'+') ≡ false
    → take_sign (c ∷ tail) ≡ (false, c ∷ tail)
unfolding take_sign
take_sign-plain c tail h g = ground arith

-- The head of a number without a sign.
scan_number-unsigned :
    (base c : ℕ) (tail : Bytes)
    → is_whitespace c ≡ false
    → (c == b'-') ≡ false
    → (c == b'+') ≡ false
    → starts_with_x tail ≡ false
    → ltb (digit_value c) base ≡ true
    → scan_number base (c ∷ tail)
      ≡ (false, (read_digits base 0 (c ∷ tail)).0, (read_digits base 0 (c ∷ tail)).1)
unfolding scan_number
scan_number-unsigned base c tail hw hm hp hx hd =
    rw
      (
        skip_space-plain c tail hw,
        take_sign-plain c tail hm hp,
        skip_prefix-plain base c tail hx,
        hd,
        scan_number,
      )
      refl

-- What a spelled number looks like to the scanner.
pub record Spelled (base n : ℕ) (rest : Bytes) : Type 0 where
  pub head : ℕ
  pub tail : Bytes
  pub spells : spell base (suc n) n rest ≡ head ∷ tail
  pub no_space : is_whitespace head ≡ false
  pub no_minus : (head == b'-') ≡ false
  pub no_plus : (head == b'+') ≡ false
  pub no_prefix : starts_with_x tail ≡ false
  pub is_first_digit : ltb (digit_value head) base ≡ true
  pub reads : read_digits base 0 (head ∷ tail) ≡ (n, rest)

pub spelled :
    (base n : ℕ) (rest : Bytes)
    → 1 < base
    → base ≤ 16
    → starts_with_x rest ≡ false
    → starts_with_digit base rest ≡ false
    → Spelled base n rest
spelled base n rest hb hs hx hr =
    let (d, tail, hd, ht, e) = spell-digit base (suc n) n rest hb hs (omega arith) hx in
    let (p0, p1, p2) = digit_char-plain d (omega arith) in
    let v : digit_value (digit_char d) ≡ d = digit_value-digit_char d (omega arith) in
    record {
      head = digit_char d;
      tail = tail;
      spells = e;
      no_space = p0;
      no_minus = p1;
      no_plus = p2;
      no_prefix = ht;
      is_first_digit = rw v (ground arith);
      reads =
          ap (read_digits base 0) (sym e)
          ∙ read_digits-spell base (suc n) n rest hb (omega arith) (omega arith)
          ∙ read_digits-end base n rest hr;
    }

-- A number that is spelled out, in a base up to 16, is scanned as it is, up to a text behind it
-- that starts with no digit of the base and no letter x.
pub scan_number-spell :
    (base n : ℕ) (rest : Bytes)
    → 1 < base
    → base ≤ 16
    → starts_with_x rest ≡ false
    → starts_with_digit base rest ≡ false
    → scan_number base (spell base (suc n) n rest) ≡ (false, n, rest)
scan_number-spell base n rest hb hs hx hr =
    let s = spelled base n rest hb hs hx hr in
    ap (scan_number base) s.spells
    ∙ scan_number-unsigned base s.head s.tail s.no_space s.no_minus s.no_plus s.no_prefix
        s.is_first_digit
    ∙ ap (λ (r : ℕ × Bytes). (false, r.0, r.1)) s.reads
