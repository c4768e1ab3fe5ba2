-- ===== src/Serialization/InMemory/Until.antt =====
-- Reading up to a pattern: readUntil in memory.
use kwctoolkit.Prelude.{
  ℕ, suc, ◌+◌, ◌≤◌, ◌≡◌, refl, sym, ap, ◌∙◌, inl, inr, Bool, true, arith, Bool-cases, some, [], ◌∷◌,
  ◌++◌, Bytes, length, take, drop, length-append, length-take, take-append-drop, has_prefix, substr,
  leb, ℤ, returned,
}
use kwctoolkit.Base.Status.{Status}
use kwctoolkit.Serialization.Reader.{read_until}
use kwctoolkit.Serialization.InMemory.{
  find_text, append_from, in_memory_append_until, in_memory_methods,
}
use kwctoolkit.Serialization.InMemory.Reads.{standing}

has_prefix-append : (p r : Bytes) → has_prefix p (p ++ r) ≡ true
unfolding has_prefix
has_prefix-append [] r = refl
has_prefix-append (x ∷ p) r = ground (arith, has_prefix-append p r)

take-has_prefix : (p s : Bytes) → has_prefix p s ≡ true → take (length p) s ≡ p
unfolding has_prefix
take-has_prefix [] s h = refl
take-has_prefix (x ∷ p) [] h = cc
take-has_prefix (x ∷ p) (c ∷ s) h =
    let e : c ≡ x = ground arith in rw (e, take-has_prefix p s (ground arith)) refl

find_text-front : (s p : Bytes) → has_prefix p s ≡ true → find_text s p ≡ some 0
unfolding find_text
find_text-front [] p h = rw h refl
find_text-front (c ∷ s) p h = rw h refl

take-front : (s p : Bytes) → has_prefix p s ≡ true → take (0 + length p) s ≡ p
take-front s p h =
    let e : 0 + length p ≡ length p = omega arith in ap (λ n. take n s) e ∙ take-has_prefix p s h

-- A pattern is found, at its first occurrence, and stands there.
find_text-occurs :
    (q p r : Bytes)
    → (i : ℕ) × (i ≤ length q)
      × (find_text (q ++ p ++ r) p ≡ some i)
      × (take (i + length p) (q ++ p ++ r) ≡ take i (q ++ p ++ r) ++ p)
unfolding find_text
find_text-occurs [] p r = (
  0,
  omega arith,
  find_text-front (p ++ r) p (has_prefix-append p r),
  take-front (p ++ r) p (has_prefix-append p r),
)
find_text-occurs (x ∷ q) p r = elim (Bool-cases (has_prefix p (x ∷ q ++ p ++ r))) [
  | inl e ↦
      (0, omega arith, find_text-front (x ∷ q ++ p ++ r) p e, take-front (x ∷ q ++ p ++ r) p e)
  | inr e ↦
      let (i, le, f, t) = find_text-occurs q p r in
      let l : suc i + length p ≡ suc (i + length p) = omega arith in
      (suc i, omega arith, rw (e, f) refl, ap (λ n. take n (x ∷ q ++ p ++ r)) l ∙ ap (λ s. x ∷ s) t)
]

consumes :
    (content : Bytes) (total : ℤ) (status : Status) (done : Bool) (n i : ℕ) (pattern : Bytes)
    → n ≤ length content
    → i ≤ length (drop n content)
    → find_text (drop n content) pattern ≡ some i
    → take (i + length pattern) (drop n content) ≡ take i (drop n content) ++ pattern
    → read_until in_memory_methods pattern (standing content n done total status)
      ≡ returned (
        true,
        take i (drop n content) ++ pattern,
        standing content (n + (i + length pattern)) done total status,
      )
unfolding read_until in_memory_append_until append_from substr
consumes content total status done n i pattern h hi f t =
    let within : leb n (length content) ≡ true = ground arith in
    let l : length (take i (drop n content) ++ pattern) ≡ i + length pattern =
      omega
        (arith, length-append (take i (drop n content)) pattern, length-take i (drop n content)) in
    rw (f, append_from) (rw (within, t, l) refl)

-- What stands before, in and behind an occurrence.
around :
    (s pattern : Bytes) (i : ℕ)
    → take (i + length pattern) s ≡ take i s ++ pattern
    → s ≡ take i s ++ pattern ++ drop (i + length pattern) s
around s pattern i t =
    sym (take-append-drop (i + length pattern) s) ∙ ap (λ u. u ++ drop (i + length pattern) s) t

-- No occurrence is before the one that is found.
find_text-first :
    (s pattern q r : Bytes) (i : ℕ)
    → find_text s pattern ≡ some i
    → s ≡ q ++ pattern ++ r
    → i ≤ length q
find_text-first s pattern q r i f e =
    let (j, le, g, t) = find_text-occurs q pattern r in
    let same : some i ≡ some j = sym f ∙ ap (λ u. find_text u pattern) e ∙ g in
    let ij : i ≡ j = cc in omega (arith, le, ij)

-- If the pattern occurs in what is left of the content, readUntil finds the first occurrence: with
-- `i` bytes before it, the pattern stands behind these bytes, and no occurrence has fewer before
-- it. It returns these bytes and the pattern, moves the offset behind them, and keeps the rest of
-- the reader.
pub read_until-occurs :
    (content : Bytes) (total : ℤ) (status : Status) (done : Bool) (n : ℕ) (q pattern r : Bytes)
    → n ≤ length content
    → drop n content ≡ q ++ pattern ++ r
    → (i : ℕ) × (drop n content
        ≡ take i (drop n content) ++ pattern ++ drop (i + length pattern) (drop n content))
      × ((before after : Bytes) → drop n content ≡ before ++ pattern ++ after → i ≤ length before)
      × (i ≤ length q)
      × (read_until in_memory_methods pattern (standing content n done total status)
          ≡ returned (
            true,
            take i (drop n content) ++ pattern,
            standing content (n + (i + length pattern)) done total status,
          ))
read_until-occurs content total status done n q pattern r h e =
    let (i, le, f, t) = find_text-occurs q pattern r in
    let found : find_text (drop n content) pattern ≡ some i = ap (λ s. find_text s pattern) e ∙ f in
    let stands : take (i + length pattern) (drop n content) ≡ take i (drop n content) ++ pattern =
      rw (e) t in
    (
      i,
      around (drop n content) pattern i stands,
      λ before after at. find_text-first (drop n content) pattern before after i found at,
      le,
      consumes content total status done n i pattern h
          (omega (arith, ap length e, length-append (q ++ pattern) r, length-append q pattern))
          found stands,
    )
