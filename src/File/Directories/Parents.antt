-- ===== src/File/Directories/Parents.antt =====
-- The parents of a path come to an end.
use kwctoolkit.Prelude.{
  ℕ, zero, suc, ◌+◌, ◌≤◌, ◌<◌, ◌≡◌, ◌⊎◌, refl, sym, ap, ◌∙◌, inl, inr, arith, Bool-cases, true,
  false, ◌&&◌, Option, none, some, List, [], ◌∷◌, leb, leb→le, ◌==◌, is_empty, get_or, take,
  take-all, length, length-take, Bytes, codes, bytes_eq, bytes_eq_refl, returned, min,
}
use kwctoolkit.File.Path.{
  is_separator, strip_trailing_separators, find_last_separator, directory_part, directory_name,
}
use kwctoolkit.File.Path.Stripping.{before_separators, stripped, strip_trailing_separators-stripped}
use kwctoolkit.File.Directories.{collect_parents, sub_paths}

IsPrefix : Bytes → Bytes → Type 0
IsPrefix q p = (m : ℕ) × (q ≡ take m p)

take-take : (m n : ℕ) (p : Bytes) → take m (take n p) ≡ take (min m n) p
take-take zero n p = let e : min 0 n ≡ 0 = omega arith in rw (e) refl
take-take (suc m) zero p = let e : min (suc m) 0 ≡ 0 = omega arith in rw (e) refl
take-take (suc m) (suc n) [] =
    let e : min (suc m) (suc n) ≡ suc (min m n) = omega arith in rw (e) refl
take-take (suc m) (suc n) (c ∷ p) =
    let e : min (suc m) (suc n) ≡ suc (min m n) = omega arith in
    rw (e) (ap (λ t. c ∷ t) (take-take m n p))

IsPrefix-trans : (r q p : Bytes) → IsPrefix r q → IsPrefix q p → IsPrefix r p
unfolding IsPrefix
IsPrefix-trans r q p (m, e) (n, g) = (min m n, e ∙ ap (take m) g ∙ take-take m n p)

before_separators-IsPrefix : (p : Bytes) → IsPrefix (before_separators p) p
unfolding IsPrefix
before_separators-IsPrefix [] = (0, refl)
before_separators-IsPrefix (c ∷ p) =
    let (m, e) = before_separators-IsPrefix p in
    elim (Bool-cases (is_separator c && is_empty (before_separators p))) [
      | inl ends ↦ (0, rw (ends) refl)
      | inr on ↦ (suc m, rw (on) (ap (λ t. c ∷ t) e))
    ]

stripped-IsPrefix : (p : Bytes) → IsPrefix (stripped p) p
unfolding IsPrefix
stripped-IsPrefix [] = (0, refl)
stripped-IsPrefix (c ∷ p) = let (m, e) = before_separators-IsPrefix p in (suc m, ap (λ t. c ∷ t) e)

strip-IsPrefix : (p : Bytes) → IsPrefix (strip_trailing_separators p) p
unfolding IsPrefix
strip-IsPrefix p = elim (Bool-cases (bytes_eq p (codes "//"))) [
  | inl e ↦ (
    length p,
    strip_trailing_separators-stripped p ∙ rw (e) (sym (take-all (length p) p (omega arith))),
  )
  | inr e ↦ let (m, g) = stripped-IsPrefix p in (m, strip_trailing_separators-stripped p ∙ rw (e) g)
]

directory_part-IsPrefix : (p : Bytes) (o : Option ℕ) → IsPrefix (directory_part p o) p
unfolding directory_part IsPrefix
directory_part-IsPrefix p none = (0, refl)
directory_part-IsPrefix p (some zero) = (1, refl)
directory_part-IsPrefix p (some (suc i)) =
    elim (Bool-cases (suc i == 1 && is_separator (get_or p 0 0))) [
      | inl e ↦ (2, rw (e) refl)
      | inr e ↦ (suc i, rw (e) refl)
    ]

-- A directory name is "." or a prefix of the path.
directory_name-IsPrefix :
    (p : Bytes) → (directory_name p ≡ codes ".") ⊎ IsPrefix (directory_name p) p
unfolding directory_name
directory_name-IsPrefix p =
    let new_path = strip_trailing_separators p in
    let part = directory_part new_path (find_last_separator new_path) in
    let prefix : IsPrefix (strip_trailing_separators part) p =
      IsPrefix-trans (strip_trailing_separators part) part p (strip-IsPrefix part) (
        IsPrefix-trans part new_path p
          (directory_part-IsPrefix new_path (find_last_separator new_path)) (strip-IsPrefix p)) in
    elim (Bool-cases (is_empty (strip_trailing_separators part))) [
      | inl e ↦ inl (rw (e) refl)
      | inr e ↦ inr (rw (e) prefix)
    ]

-- A prefix that differs is shorter.
shorter_prefix : (q p : Bytes) (m : ℕ) → q ≡ take m p → bytes_eq q p ≡ false → length q < length p
shorter_prefix q p m e differs = elim (Bool-cases (leb (length p) m)) [
  | inl all ↦
      let same : q ≡ p = e ∙ take-all m p (leb→le (length p) m all) in
      let contra : false ≡ true = sym differs ∙ ap (λ t. bytes_eq t p) same ∙ bytes_eq_refl p in
      absurd (ground arith)
  | inr less ↦
      let n : length q ≡ min m (length p) = ap length e ∙ length-take m p in
      let lt : m < length p = ground arith in omega arith
]

collect_parents-end :
    (fuel : ℕ) (p : Bytes)
    → length p + 2 ≤ fuel
    → (ps : List Bytes) × (collect_parents fuel (directory_name p) p ≡ returned ps)
unfolding collect_parents IsPrefix
collect_parents-end zero p h = absurd (omega arith)
collect_parents-end (suc zero) p h = absurd (omega arith)
collect_parents-end (suc (suc fuel)) p h = elim (Bool-cases (bytes_eq (directory_name p) p)) [
  | inl same ↦ ([], rw (same, collect_parents) refl)
  | inr other ↦ elim (directory_name-IsPrefix p) [
    | inl dot ↦ (directory_name p ∷ [], rw (other, collect_parents) (rw (dot) refl))
    | inr (m, prefix) ↦
        let shorter : length (directory_name p) < length p =
          shorter_prefix (directory_name p) p m prefix other in
        let (ps, e) = collect_parents-end (suc fuel) (directory_name p) (omega arith) in
        (directory_name p ∷ ps, rw (other, collect_parents) (rw (e) refl))
  ]
]

pub sub_paths-end :
    (fuel : ℕ) (p : Bytes)
    → length p + 2 ≤ fuel
    → (ps : List Bytes) × (sub_paths fuel p ≡ returned (p ∷ ps))
unfolding sub_paths
sub_paths-end fuel p h = let (ps, e) = collect_parents-end fuel p h in (ps, rw (e) refl)
