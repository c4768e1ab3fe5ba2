-- ===== src/Base/CheckedInteger/Unsigned.antt =====
-- Unsigned types.
use kwctoolkit.Prelude.{
  ℕ, ◌+◌, ◌-◌, ◌%◌, ◌<◌, ◌≤◌, ◌≡◌, refl, ◌∙◌, inl, inr, arith, Bool-cases, true, false, none, some,
  ltb, leb, ltb→lt, leb→le, if◌then◌else◌,
}
use native.Mathlib.Nat.{mod-eq_of_lt, mod-eq-sub-mod}
use kwctoolkit.Base.CheckedInteger.{unsigned_add, unsigned_sub}

-- A sum of less than twice the size wraps around once.
mod-over : (n size : ℕ) → size ≤ n → n < size + size → n % size ≡ n - size
mod-over n size h g = mod-eq-sub-mod h ∙ mod-eq_of_lt (omega arith)

unsigned_add-exact :
    (size a b : ℕ)
    → a < size
    → b < size
    → unsigned_add size a b ≡ (if ltb (a + b) size then some (a + b) else none)
unfolding unsigned_add
unsigned_add-exact size a b ha hb = elim (Bool-cases (ltb (a + b) size)) [
  | inl fits ↦
      let e : (a + b) % size ≡ a + b = mod-eq_of_lt (ltb→lt (a + b) size fits) in
      let t : leb a (a + b) ≡ true = ground arith in rw (e) (rw (fits, t) refl)
  | inr over ↦
      let e : (a + b) % size ≡ a + b - size = mod-over (a + b) size (ground arith) (omega arith) in
      let t : leb a (a + b - size) ≡ false = ground arith in rw (e) (rw (over, t) refl)
]

unsigned_sub-exact :
    (size a b : ℕ)
    → a < size
    → b < size
    → unsigned_sub size a b ≡ (if leb b a then some (a - b) else none)
unfolding unsigned_sub
unsigned_sub-exact size a b ha hb = elim (Bool-cases (leb b a)) [
  | inl fits ↦
      let le : b ≤ a = leb→le b a fits in
      let e : (a + size - b) % size ≡ a - b =
        mod-over (a + size - b) size (omega arith) (omega arith) ∙ omega arith in
      let t : leb (a - b) a ≡ true = ground arith in rw (e) (rw (fits, t) refl)
  | inr under ↦
      let lt : a < b = ground arith in
      let e : (a + size - b) % size ≡ a + size - b = mod-eq_of_lt (omega arith) in
      let t : leb (a + size - b) a ≡ false = ground arith in rw (e) (rw (under, t) refl)
]

-- Of an unsigned type, the sum of two values passes the assertion exactly if it fits, and then it
-- is the exact sum; the difference passes exactly if it is not negative, and then it is exact.
pub unsigned_add-unsigned_sub :
    (size a b : ℕ)
    → a < size
    → b < size
    → (unsigned_add size a b ≡ (if ltb (a + b) size then some (a + b) else none))
      × (unsigned_sub size a b ≡ (if leb b a then some (a - b) else none))
unsigned_add-unsigned_sub size a b ha hb =
    (unsigned_add-exact size a b ha hb, unsigned_sub-exact size a b ha hb)
