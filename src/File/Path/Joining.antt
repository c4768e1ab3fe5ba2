-- ===== src/File/Path/Joining.antt =====
-- Appending a name to a path, and taking it off again.
use kwctoolkit.Prelude.{
  ℕ, suc, ◌+◌, ◌-◌, ◌≡◌, refl, ap, ◌∙◌, inl, inr, Bool, true, false, not, ◌&&◌, arith, Bool-cases,
  ◌⊎◌, Option, none, some, [], ◌∷◌, ◌++◌, ltb, ◌==◌, if◌then◌else◌, get_or, drop,
  drop-append_length, length-append, Bytes, codes, bytes_eq, length, find_char,
}
use kwctoolkit.File.Path.Stripping.{strip_stop}
use kwctoolkit.File.Path.{
  is_separator, strip_loop, strip_trailing_separators, find_last_separator, separated, append,
  base_name, file_path, until_null,
}

-- A character of a name, and the text of a name.
abbrev pub in_name : ℕ → Bool
in_name c = not (is_separator c) && not (c == 0)

abbrev pub all_in_name : Bytes → Bool
all_in_name [] = true
all_in_name (c ∷ cs) = in_name c && all_in_name cs

find_char-name : (c : Bytes) → all_in_name c ≡ true → find_char c 0 ≡ none
unfolding find_char
find_char-name [] h = refl
find_char-name (c ∷ cs) h = ground (arith, find_char-name cs)

until_null-name : (c : Bytes) → all_in_name c ≡ true → until_null c ≡ c
unfolding until_null
until_null-name c h = rw (find_char-name c h, until_null) refl

find_last-name : (c : Bytes) → all_in_name c ≡ true → find_last_separator c ≡ none
unfolding find_last_separator
find_last-name [] h = refl
find_last-name (c ∷ cs) h = rw (find_last-name cs (ground arith)) (ground arith)

find_last-append :
    (xs c : Bytes)
    → find_last_separator c ≡ none
    → find_last_separator (xs ++ c) ≡ find_last_separator xs
unfolding find_last_separator
find_last-append [] c h = h
find_last-append (x ∷ xs) c h = rw (find_last-append xs c h) refl

find_last-snoc : (q : Bytes) → find_last_separator (q ++ b'/' ∷ []) ≡ some (length q)
unfolding find_last_separator
find_last-snoc [] = refl
find_last-snoc (x ∷ q) = rw (find_last-snoc q) refl

last-name :
    (y : ℕ) (ys : Bytes)
    → all_in_name (y ∷ ys) ≡ true
    → is_separator (get_or (y ∷ ys) (length ys) 0) ≡ false
last-name y [] h = ground arith
last-name y (z ∷ zs) h = last-name z zs (ground arith)

last-append :
    (pre : Bytes) (y : ℕ) (ys : Bytes)
    → get_or (pre ++ y ∷ ys) (length pre + length ys) 0 ≡ get_or (y ∷ ys) (length ys) 0
last-append [] y ys = ap (λ i. get_or (y ∷ ys) i 0) (omega arith)
last-append (p ∷ pre) y ys =
    let e : suc (length pre) + length ys ≡ suc (length pre + length ys) = omega arith in
    ap (λ i. get_or (p ∷ pre ++ y ∷ ys) i 0) e ∙ last-append pre y ys

strip-last :
    (s : Bytes) (n : ℕ)
    → length s ≡ suc n
    → is_separator (get_or s n 0) ≡ false
    → strip_trailing_separators s ≡ s
unfolding strip_trailing_separators
strip-last s n h e = ap (λ l. strip_loop l none s) h ∙ strip_stop n none s (ground (arith, e))

-- What stands before a name in a path: nothing, or a text that ends in a separator.
abbrev EndsInSeparator : Bytes → Type 0
EndsInSeparator pre = (pre ≡ []) ⊎ ((q : Bytes) × (pre ≡ q ++ b'/' ∷ []))

strip-name :
    (pre : Bytes) (y : ℕ) (ys : Bytes)
    → all_in_name (y ∷ ys) ≡ true
    → strip_trailing_separators (pre ++ y ∷ ys) ≡ pre ++ y ∷ ys
strip-name pre y ys h =
    strip-last (pre ++ y ∷ ys) (length pre + length ys) (omega (arith, length-append pre (y ∷ ys)))
      (ap is_separator (last-append pre y ys) ∙ last-name y ys h)

abbrev base_of : Bytes → Option ℕ → Bytes
base_of s none = s
base_of s (some i) = if ltb i (length s - 1) then drop (i + 1) s else s

base_name-base_of :
    (path s : Bytes)
    → strip_trailing_separators path ≡ s
    → base_name path ≡ base_of s (find_last_separator s)
unfolding base_name
base_name-base_of path s e =
    elim (find_last_separator (strip_trailing_separators path))
      as (λ o.
        (elim o [
          | none ↦ strip_trailing_separators path
          | some i ↦
              if ltb i (length (strip_trailing_separators path) - 1)
              then drop (i + 1) (strip_trailing_separators path)
              else strip_trailing_separators path
        ])
        ≡ base_of (strip_trailing_separators path) o) [ none ↦ refl | some i ↦ refl ]
    ∙ ap (λ r. base_of r (find_last_separator r)) e

base_name-name :
    (pre : Bytes) (y : ℕ) (ys : Bytes)
    → all_in_name (y ∷ ys) ≡ true
    → EndsInSeparator pre
    → base_name (pre ++ y ∷ ys) ≡ y ∷ ys
unfolding find_last_separator
base_name-name pre y ys h ends =
    base_name-base_of (pre ++ y ∷ ys) (pre ++ y ∷ ys) (strip-name pre y ys h)
    ∙ ap (base_of (pre ++ y ∷ ys)) (find_last-append pre (y ∷ ys) (find_last-name (y ∷ ys) h))
    ∙ elim ends [
      | inl e ↦ rw (e) (nothing_before)
      | inr (q, e) ↦ rw (e, find_last-snoc q) (after q)
    ]
  where
    nothing_before : base_of (y ∷ ys) (find_last_separator []) ≡ y ∷ ys
    nothing_before = refl

    after : (q : Bytes) → base_of ((q ++ b'/' ∷ []) ++ y ∷ ys) (some (length q)) ≡ y ∷ ys
    after q =
        let inside : ltb (length q) (length ((q ++ b'/' ∷ []) ++ y ∷ ys) - 1) ≡ true =
          ground (arith, length-append (q ++ b'/' ∷ []) (y ∷ ys), length-append q (b'/' ∷ [])) in
        let e : length q + 1 ≡ length (q ++ b'/' ∷ []) =
          omega (arith, length-append q (b'/' ∷ [])) in
        rw (inside) (
          ap (λ n. drop n ((q ++ b'/' ∷ []) ++ y ∷ ys)) e
          ∙ drop-append_length (q ++ b'/' ∷ []) (y ∷ ys))

snoc_separator :
    (a : ℕ) (bs : Bytes)
    → is_separator (get_or (a ∷ bs) (length bs) 0) ≡ true
    → (q : Bytes) × (a ∷ bs ≡ q ++ b'/' ∷ [])
snoc_separator a [] h = ([], ap (λ c. c ∷ []) (ground arith))
snoc_separator a (b ∷ cs) h = let (q, e) = snoc_separator b cs h in (a ∷ q, ap (λ r. a ∷ r) e)

separated-EndsInSeparator :
    (x : Bytes) (y : ℕ) (ys : Bytes) → EndsInSeparator (separated x (y ∷ ys))
unfolding separated
separated-EndsInSeparator [] y ys = inl refl
separated-EndsInSeparator (a ∷ bs) y ys =
    elim (Bool-cases (is_separator (get_or (a ∷ bs) (length bs) 0))) [
      | inl sep ↦
          let l : suc (length bs) - 1 ≡ length bs = omega arith in
          let (q, e) = snoc_separator a bs sep in inr (q, rw (l, sep, separated) e)
      | inr other ↦
          let l : suc (length bs) - 1 ≡ length bs = omega arith in
          inr (a ∷ bs, rw (l, other, separated) refl)
    ]

-- A name, of one character or more and none of them a separator or NUL, that is appended to a
-- path is the base name of the result, whatever the path is.
pub base_name-append :
    (path : Bytes) (y : ℕ) (ys : Bytes)
    → all_in_name (y ∷ ys) ≡ true
    → base_name (append path (y ∷ ys)) ≡ y ∷ ys
unfolding append file_path
base_name-append path y ys h =
    rw (until_null-name (y ∷ ys) h) (elim (Bool-cases (bytes_eq path (codes "."))) [
      | inl dot ↦ rw (dot, until_null-name (y ∷ ys) h) (base_name-name [] y ys h (inl refl))
      | inr other ↦ rw (other) (
          base_name-name (separated (strip_trailing_separators path) (y ∷ ys)) y ys h
            (separated-EndsInSeparator (strip_trailing_separators path) y ys))
    ])
