-- ===== src/Base/Numbers/Digits.antt =====
-- The digits of a spelled number as a text.
use kwctoolkit.Prelude.{
  ℕ, zero, suc, ◌/◌, ◌%◌, ◌<◌, ◌≤◌, ◌≡◌, refl, sym, ap, ◌∙◌, inl, inr, Bool, true, ◌&&◌, arith,
  Bool-cases, [], ◌∷◌, ◌++◌, append_assoc, ltb, Bytes,
}
use native.Mathlib.Nat.{mod-lt}
use kwctoolkit.Base.Numbers.Spelling.{digit_char, spell}

-- Spelling puts the digits in front of what is there.
pub spell-append :
    (base fuel n : ℕ) (acc : Bytes) → spell base fuel n acc ≡ spell base fuel n [] ++ acc
unfolding spell
spell-append base zero n acc = refl
spell-append base (suc fuel) n acc = elim (Bool-cases (ltb n base)) [
  | inl small ↦ rw (small) refl
  | inr large ↦
      let d = digit_char (n % base) in
      rw (large) (
        spell-append base fuel (n / base) (d ∷ acc)
        ∙ sym (append_assoc (spell base fuel (n / base) []) (d ∷ []) acc)
        ∙ ap (λ (t : Bytes). t ++ acc) (sym (spell-append base fuel (n / base) (d ∷ []))))
]

-- The digits are among the printable characters.
abbrev pub all_above : ℕ → Bytes → Bool
all_above bound [] = true
all_above bound (c ∷ cs) = ltb bound c && all_above bound cs

pub spell-above :
    (base fuel n : ℕ) (acc : Bytes)
    → 0 < base
    → base ≤ 36
    → all_above 47 acc ≡ true
    → all_above 47 (spell base fuel n acc) ≡ true
unfolding spell
spell-above base zero n acc hb hs h = h
spell-above base (suc fuel) n acc hb hs h =
    let lt : n % base < base = mod-lt n hb in
    let h' : all_above 47 (digit_char (n % base) ∷ acc) ≡ true =
      rw h (digit_char-above (n % base) (omega arith)) in
    elim (Bool-cases (ltb n base)) [
      | inl small ↦ rw (small) h'
      | inr large ↦
          rw (large) (spell-above base fuel (n / base) (digit_char (n % base) ∷ acc) hb hs h')
    ]
  where
    digit_char-above : (d : ℕ) → d < 36 → (ltb 47 (digit_char d) && true) ≡ true
    digit_char-above d h = ground arith
