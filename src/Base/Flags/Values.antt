-- ===== src/Base/Flags/Values.antt =====
-- The values of flags.
use kwctoolkit.Prelude.{
  ℕ, suc, ◌-◌, ◌^◌, ◌%◌, ◌≡◌, refl, ap, ◌∙◌, inl, inr, arith, Bool-cases, Bool, true, false, not,
  ◌&&◌, ◌||◌, Option, none, some, [], ◌∷◌, ◌++◌, append_assoc, ltb, ◌==◌, ==-refl, if◌then◌else◌,
  Bytes, codes, drop-append_length, has_prefix, ℤ, pos, negsuc, ltb→lt,
}
use native.Mathlib.Nat.{mod-eq_of_lt}
use kwctoolkit.Base.Status.{to_string}
use kwctoolkit.Base.Numbers.{strtol, strtoull, to_long}
use kwctoolkit.Base.Numbers.Decimals.{scan_number-decimal, scan_number-minus}
use kwctoolkit.Base.Flags.{
  parse_flag_value, flag_end_value, to_int32, eq_ℤ, is_limit, parse_int32, parse_uint16,
  parse_int32_flag, parse_uint16_flag,
}

has_prefix-append : (p s : Bytes) → has_prefix p (p ++ s) ≡ true
unfolding has_prefix
has_prefix-append [] s = refl
has_prefix-append (c ∷ p) s = rw (==-refl c, has_prefix-append p s) refl

-- Behind "--name=" stands the value.
parse_flag_value-given :
    (flag value : Bytes) (def_optional : Bool)
    → parse_flag_value (some (codes "--" ++ flag ++ codes "=" ++ value)) (some flag) def_optional
      ≡ some value
unfolding parse_flag_value flag_end_value
parse_flag_value-given flag value def_optional =
    ap (λ str. parse_flag_value (some str) (some flag) def_optional)
      (append_assoc (codes "--" ++ flag) (codes "=") value)
    ∙ rw
        (
          has_prefix-append (codes "--" ++ flag) (b'=' ∷ value),
          drop-append_length (codes "--" ++ flag) (b'=' ∷ value),
        )
        refl

abbrev pub in_int32 : ℤ → Bool
in_int32 (pos n) = ltb n (2 ^ 31)
in_int32 (negsuc n) = ltb n (2 ^ 31)

-- What parse_int32 makes of the number that strtol gives.
abbrev narrow : ℤ → Option ℤ
narrow v = if is_limit v || not (eq_ℤ (to_int32 v) v) then none else some (to_int32 v)

or_true : (b : Bool) → (b || true) ≡ true
or_true true = refl
or_true false = refl

narrow-pos : (n : ℕ) → narrow (to_long false n) ≡ (if ltb n (2 ^ 31) then some (pos n) else none)
narrow-pos n = elim (Bool-cases (ltb n (2 ^ 31))) [
  | inl small ↦
      let long : ltb n (2 ^ 63) ≡ true = ground arith in
      let word : n % 2 ^ 32 ≡ n = mod-eq_of_lt (omega (arith, ltb→lt n (2 ^ 31) small)) in
      let limit : ((2 ^ 63 - 1) == n) ≡ false = ground arith in
      rw (long) (rw (word, small) (rw (limit, ==-refl n) refl))
  | inr large ↦ elim (Bool-cases (ltb n (2 ^ 63))) [
    | inr beyond ↦ rw (beyond, large) refl
    | inl long ↦ elim (Bool-cases (ltb (n % 2 ^ 32) (2 ^ 31))) [
      | inl low ↦
          let differs : (n % 2 ^ 32 == n) ≡ false = ground arith in
          rw (long) (rw (low, large) (rw (differs) (rw (or_true ((2 ^ 63 - 1) == n)) refl)))
      | inr high ↦ rw (long) (rw (high, large) (rw (or_true ((2 ^ 63 - 1) == n)) refl))
    ]
  ]
]

narrow-neg :
    (n : ℕ) → narrow (to_long true (suc n)) ≡ (if ltb n (2 ^ 31) then some (negsuc n) else none)
narrow-neg n = elim (Bool-cases (ltb n (2 ^ 31))) [
  | inl small ↦
      let long : ltb n (2 ^ 63) ≡ true = ground arith in
      let word : n % 2 ^ 32 ≡ n = mod-eq_of_lt (omega (arith, ltb→lt n (2 ^ 31) small)) in
      let limit : ((2 ^ 63 - 1) == n) ≡ false = ground arith in
      rw (long) (rw (word, small) (rw (limit, ==-refl n) refl))
  | inr large ↦ elim (Bool-cases (ltb n (2 ^ 63))) [
    | inr beyond ↦ rw (beyond, large) refl
    | inl long ↦ elim (Bool-cases (ltb (n % 2 ^ 32) (2 ^ 31))) [
      | inl low ↦
          let differs : (n % 2 ^ 32 == n) ≡ false = ground arith in
          rw (long)
            (rw (low, large) (rw (differs) (rw (or_true ((2 ^ 63 - 1) == n || false)) refl)))
      | inr high ↦ rw (long) (rw (high, large) (rw (or_true ((2 ^ 63 - 1) == n || false)) refl))
    ]
  ]
]

parse_int32-to_string : (v : ℤ) → parse_int32 (to_string v) ≡ (if in_int32 v then some v else none)
unfolding parse_int32 strtol to_string
parse_int32-to_string (pos n) = rw (scan_number-decimal n) (narrow-pos n)
parse_int32-to_string (negsuc n) = rw (scan_number-minus (suc n)) (narrow-neg n)

-- Of a flag "--name=value" whose value is a decimal number as std::to_string prints it,
-- ParseInt32Flag gives that number exactly if it is an int32: every larger or smaller one is
-- refused, those beyond long included.
pub parse_int32_flag-to_string :
    (flag : Bytes) (v : ℤ)
    → parse_int32_flag (some (codes "--" ++ flag ++ codes "=" ++ to_string v)) (some flag)
      ≡ (if in_int32 v then some v else none)
unfolding parse_int32_flag
parse_int32_flag-to_string flag v =
    rw (parse_flag_value-given flag (to_string v) false) (parse_int32-to_string v)

-- Of a flag whose value is a decimal number, ParseUInt16Flag gives that number exactly if it is
-- less than 2^16 and not 0, which is refused too.
pub parse_uint16_flag-to_string :
    (flag : Bytes) (n : ℕ)
    → parse_uint16_flag (some (codes "--" ++ flag ++ codes "=" ++ to_string (pos n))) (some flag)
      ≡ (if not (n == 0) && ltb n (2 ^ 16) then some n else none)
unfolding parse_uint16_flag parse_uint16 strtoull to_string
parse_uint16_flag-to_string flag n =
    rw (parse_flag_value-given flag (to_string (pos n)) false)
      (rw (scan_number-decimal n) (ground arith))
