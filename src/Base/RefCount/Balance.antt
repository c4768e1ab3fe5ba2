-- ===== src/Base/RefCount/Balance.antt =====
-- Counting references, and the effect of one reference or release.
use kwctoolkit.Prelude.{
  ℕ, zero, suc, ◌+◌, ◌-◌, ◌/◌, ◌%◌, ◌^◌, ◌≤◌, ◌<◌, ◌≡◌, refl, inl, inr, arith, false, Bool-cases,
  Option, none, some, List, [], ◌∷◌, ltb, ◌==◌, if◌then◌else◌, length, get_or, set, returned,
}
use kwctoolkit.Base.RefCount.{
  Heap, Pointer, cell, reference, release, reference_object, release_object, get_ref_count,
}
use mathlib.Core.Path.{subst}

-- How often a pointer points to an object.
abbrev pub points : Pointer → ℕ → ℕ
points none q = 0
points (some p) q = if p == q then 1 else 0

abbrev pub count : List Pointer → ℕ → ℕ
count [] q = 0
count (p ∷ ps) q = points p q + count ps q

-- A live object counts its owners, of which there are some; a deleted one has none.
abbrev pub Counts : Option ℕ → ℕ → Type 0
Counts none n = n ≡ 0
Counts (some refcount) n = (0 < n) × (get_ref_count refcount ≡ n) × (refcount < 2 ^ 64)

abbrev pub Balanced : Heap → (ℕ → ℕ) → Type 0
Balanced heap owners = (q : ℕ) → Counts (cell heap q) (owners q)

pub points-le : (p : Pointer) (q : ℕ) → points p q ≤ 1
points-le none q = omega arith
points-le (some p) q = ground arith

pub count-le : (ps : List Pointer) (q : ℕ) → count ps q ≤ length ps
count-le [] q = omega arith
count-le (p ∷ ps) q = omega (arith, points-le p q, count-le ps q)

-- A variable that changes takes a count with it.
pub count-set :
    (ps : List Pointer) (i q : ℕ) (v : Pointer)
    → i < length ps
    → count (set ps i v) q + points (get_or ps i none) q ≡ count ps q + points v q
count-set [] i q v h = absurd (omega arith)
count-set (p ∷ ps) zero q v h = omega arith
count-set (p ∷ ps) (suc i) q v h = omega (arith, count-set ps i q v (omega arith))

pub count-get : (ps : List Pointer) (i q : ℕ) → points (get_or ps i none) q ≤ count ps q
count-get [] i q = omega arith
count-get (p ∷ ps) zero q = omega arith
count-get (p ∷ ps) (suc i) q = omega (arith, count-get ps i q)

module _ {ℓ} {A : Type ℓ} where
  pub get_or-set :
      (xs : List A) (i j : ℕ) (v d : A)
      → i < length xs
      → get_or (set xs i v) j d ≡ (if i == j then v else get_or xs j d)
  get_or-set [] i j v d h = absurd (omega arith)
  get_or-set (x ∷ xs) zero zero v d h = refl
  get_or-set (x ∷ xs) zero (suc j) v d h = ground arith
  get_or-set (x ∷ xs) (suc i) zero v d h = ground arith
  get_or-set (x ∷ xs) (suc i) (suc j) v d h =
      let e : (suc i == suc j) ≡ (i == j) = ground arith in
      rw (e) (get_or-set xs i j v d (omega arith))

  pub length-set : (xs : List A) (i : ℕ) (v : A) → length (set xs i v) ≡ length xs
  length-set [] i v = refl
  length-set (x ∷ xs) zero v = refl
  length-set (x ∷ xs) (suc i) v = omega (arith, length-set xs i v)

-- An address with an object is within the heap.
cell-lt : (heap : Heap) (p c : ℕ) → cell heap p ≡ some c → p < length heap
cell-lt [] p c h = absurd (ground arith)
cell-lt (x ∷ heap) zero c h = omega arith
cell-lt (x ∷ heap) (suc p) c h = omega (arith, cell-lt heap p c h)

-- An owned object is live.
owned_cell :
    (o : Option ℕ) (n : ℕ)
    → 0 < n
    → Counts o n
    → (c : ℕ) × (o ≡ some c) × (c / 2 ≡ n) × (c < 2 ^ 64)
owned_cell none n h g = absurd (omega arith)
owned_cell (some c) n h g = (c, refl, g.1, g.2)

reference-some :
    (heap : Heap) (p c : ℕ)
    → cell heap p ≡ some c
    → reference (some p) heap ≡ returned (set heap p (some ((c + 2) % 2 ^ 64)))
unfolding reference reference_object
reference-some heap p c h = rw (h, reference_object) refl

release-some :
    (heap : Heap) (p c : ℕ)
    → cell heap p ≡ some c
    → release (some p) heap
      ≡ returned (set heap p (if ltb c 4 then none else some ((c + (2 ^ 64 - 2)) % 2 ^ 64)))
unfolding release release_object
release-some heap p c h = rw (h, release_object) refl

-- A cell that changes along with the count of its owners.
Balanced-set :
    (heap : Heap) (p : ℕ) (v : Option ℕ) (owners owners' : ℕ → ℕ)
    → Balanced heap owners
    → p < length heap
    → Counts v (owners' p)
    → ((q : ℕ) → (p == q) ≡ false → owners' q ≡ owners q)
    → Balanced (set heap p v) owners'
Balanced-set heap p v owners owners' b h g rest q = elim (Bool-cases (p == q)) [
  | inl e ↦
      let pq : p ≡ q = ground arith in
      rw (get_or-set heap p q v none h, e) (subst (λ x. Counts v (owners' x)) pq g)
  | inr e ↦ rw (get_or-set heap p q v none h, e, rest q e) (b q)
]

-- A reference to a live object gives it one more owner.
pub reference-Balanced :
    (heap : Heap) (p : Pointer) (owners : ℕ → ℕ)
    → Balanced heap owners
    → ((q : ℕ) → points p q ≤ owners q)
    → ((q : ℕ) → owners q < 2 ^ 62)
    → (heap' : Heap) × (reference p heap ≡ returned heap')
      × Balanced heap' (λ q. owners q + points p q)
unfolding reference
reference-Balanced heap none owners b h g =
    (heap, refl, λ q. subst (Counts (cell heap q)) (omega arith) (b q))
reference-Balanced heap (some p) owners b h g =
    let self : points (some p) p ≡ 1 = ground arith in
    let (c, e, half, bound) = owned_cell (cell heap p) (owners p) (omega (arith, h p)) (b p) in
    (
      set heap p (some ((c + 2) % 2 ^ 64)),
      reference-some heap p c e,
      Balanced-set heap p (some ((c + 2) % 2 ^ 64)) owners (λ q. owners q + points (some p) q) b
          (cell-lt heap p c e) (omega (arith, self), omega (arith, self, g p), omega (arith, g p))
          (λ q z. rw (z) (omega arith)),
    )

-- The release of an owner takes it away, and deletes the object with the last one.
pub release-Balanced :
    (heap : Heap) (p : Pointer) (owners : ℕ → ℕ)
    → Balanced heap owners
    → ((q : ℕ) → points p q ≤ owners q)
    → (heap' : Heap) × (release p heap ≡ returned heap')
      × Balanced heap' (λ q. owners q - points p q)
unfolding release
release-Balanced heap none owners b h =
    (heap, refl, λ q. subst (Counts (cell heap q)) (omega arith) (b q))
release-Balanced heap (some p) owners b h =
    let self : points (some p) p ≡ 1 = ground arith in
    let (c, e, half, bound) = owned_cell (cell heap p) (owners p) (omega (arith, h p)) (b p) in
    let v = if ltb c 4 then none else some ((c + (2 ^ 64 - 2)) % 2 ^ 64) in
    (
      set heap p v,
      release-some heap p c e,
      Balanced-set heap p v owners (λ q. owners q - points (some p) q) b (cell-lt heap p c e)
          (released c (owners p) (points (some p) p) self half bound) (λ q z. rw (z) (omega arith)),
    )
  where
    released :
        (c n k : ℕ)
        → k ≡ 1
        → c / 2 ≡ n
        → c < 2 ^ 64
        → Counts (if ltb c 4 then none else some ((c + (2 ^ 64 - 2)) % 2 ^ 64)) (n - k)
    released c n k e half bound = elim (Bool-cases (ltb c 4)) [
      | inl small ↦ rw (small) (ground arith)
      | inr large ↦ rw (large) (ground arith, ground arith, omega arith)
    ]
