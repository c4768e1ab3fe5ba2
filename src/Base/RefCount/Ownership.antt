-- ===== src/Base/RefCount/Ownership.antt =====
-- The counts of objects and the references to them, over whole programs.
use kwctoolkit.Prelude.{
  ℕ, ◌+◌, ◌-◌, ◌^◌, ◌≤◌, ◌<◌, ◌≡◌, refl, ap, ◌∙◌, inl, inr, ◌⊎◌, arith, true, false, Bool-cases,
  none, List, ◌==◌, length, get_or, set, Outcome, returned,
}
use mathlib.Core.Path.{subst}
use kwctoolkit.Base.RefCount.{
  Pointer, cell, Memory, ref_at, owned_at, construct, copy_assign, move_construct, move_assign,
  destroy, detach,
}
use kwctoolkit.Base.RefCount.Balance.{
  points, count, get_or-set, Counts, Balanced, count-le, count-set, count-get, length-set,
  reference-Balanced, release-Balanced,
}

abbrev pub owners : Memory → ℕ → ℕ
owners s q = count s.refs q + count s.owned q

-- What holds between the statements of a program: the count of an object is the number of its
-- owners, and there are fewer than 2^61 variables.
abbrev pub IsSound : Memory → Type 0
IsSound s = Balanced s.heap (owners s) × (length s.refs + length s.owned < 2 ^ 61)

abbrev pub IsNull : Pointer → Type 0
IsNull p = p ≡ none

abbrev pub Succeeds : Outcome Memory → Type 0
Succeeds o = (s' : Memory) × (o ≡ returned s') × IsSound s'

-- Moving a pointer takes away what stood at its new place.
count-move :
    (refs : List Pointer) (i other q : ℕ)
    → i < length refs
    → other < length refs
    → count (set (set refs i (get_or refs other none)) other none) q + points (get_or refs i none) q
      ≡ count refs q
count-move refs i other q hi ho =
    let v = get_or refs other none in
    omega (
      arith,
      count-set refs i q v hi,
      count-set (set refs i v) other q none (omega (arith, length-set refs i v)),
      ap (λ p. points p q) (moved (Bool-cases (i == other))),
    )
  where
    moved :
        ((i == other) ≡ true) ⊎ ((i == other) ≡ false)
        → get_or (set refs i (get_or refs other none)) other none ≡ get_or refs other none
    moved (inl e) = rw (get_or-set refs i other (get_or refs other none) none hi, e) refl
    moved (inr e) = rw (get_or-set refs i other (get_or refs other none) none hi, e) refl

module _ (s : Memory) (sound : IsSound s) where
  pub owners-lt : (q : ℕ) → owners s q < 2 ^ 61
  owners-lt q = omega (arith, count-le s.refs q, count-le s.owned q, sound.1)

  -- A sound memory has as many variables as before, and a count of owners that a balance gives.
  pub IsSound-of_balance :
      (s' : Memory) (n : ℕ → ℕ)
      → Balanced s'.heap n
      → ((q : ℕ) → n q ≡ owners s' q)
      → length s'.refs ≡ length s.refs
      → length s'.owned ≡ length s.owned
      → IsSound s'
  IsSound-of_balance s' n b e r o =
      (λ q. subst (Counts (cell s'.heap q)) (e q) (b q), omega (arith, sound.1, r, o))

  pub null : (p : Pointer) → IsNull p → (q : ℕ) → points p q ≡ 0
  null p h q = ap (λ r. points r q) h

  pub construct-IsSound :
      (i : ℕ) (p : Pointer)
      → i < length s.refs
      → IsNull (ref_at i s)
      → ((q : ℕ) → points p q ≤ owners s q)
      → Succeeds (construct i p s)
  unfolding construct
  construct-IsSound i p hi hn hp =
      let (heap, e, b) =
        reference-Balanced s.heap p (owners s) sound.0 hp (λ q. omega (arith, owners-lt q)) in
      let s' = record s { heap = heap; refs = set s.refs i p } in
      (
        s',
        rw (e) refl,
        IsSound-of_balance s' (λ q. owners s q + points p q) b
            (λ q. omega (arith, count-set s.refs i q p hi, null (ref_at i s) hn q))
            (length-set s.refs i p) refl,
      )

  abbrev moved_refs : ℕ → ℕ → List Pointer
  moved_refs i other = set (set s.refs i (ref_at other s)) other none

  length-moved : (i other : ℕ) → length (moved_refs i other) ≡ length s.refs
  length-moved i other =
      length-set (set s.refs i (ref_at other s)) other none ∙ length-set s.refs i (ref_at other s)

  pub move_construct-IsSound :
      (i other : ℕ)
      → i < length s.refs
      → other < length s.refs
      → IsNull (ref_at i s)
      → Succeeds (move_construct i other s)
  unfolding move_construct
  move_construct-IsSound i other hi ho hn = (
    record s { refs = moved_refs i other },
    refl,
    IsSound-of_balance _ (owners s) sound.0
        (λ q. omega (arith, count-move s.refs i other q hi ho, null (ref_at i s) hn q))
        (length-moved i other) refl,
  )

  pub move_assign-IsSound :
      (i other : ℕ) → i < length s.refs → other < length s.refs → Succeeds (move_assign i other s)
  unfolding move_assign
  move_assign-IsSound i other hi ho = elim (Bool-cases (other == i)) [
    | inl same ↦ (s, rw (same, move_assign) refl, sound)
    | inr differ ↦
        let (heap, e, b) =
          release-Balanced s.heap (ref_at i s) (owners s) sound.0
            (λ q. omega (arith, count-get s.refs i q)) in
        let s' = record s { heap = heap; refs = moved_refs i other } in
        (
          s',
          rw (differ, move_assign) (rw (e) refl),
          IsSound-of_balance s' (λ q. owners s q - points (ref_at i s) q) b
              (λ q. omega (arith, count-move s.refs i other q hi ho)) (length-moved i other) refl,
        )
  ]

  pub destroy-IsSound : (i : ℕ) → i < length s.refs → Succeeds (destroy i s)
  unfolding destroy
  destroy-IsSound i hi =
      let (heap, e, b) =
        release-Balanced s.heap (ref_at i s) (owners s) sound.0
          (λ q. omega (arith, count-get s.refs i q)) in
      let s' = record s { heap = heap; refs = set s.refs i none } in
      (
        s',
        rw (e) refl,
        IsSound-of_balance s' (λ q. owners s q - points (ref_at i s) q) b
            (λ q. omega (arith, count-set s.refs i q none hi)) (length-set s.refs i none) refl,
      )

  pub detach-IsSound :
      (i k : ℕ)
      → i < length s.refs
      → k < length s.owned
      → IsNull (owned_at k s)
      → Succeeds (detach i k s)
  unfolding detach
  detach-IsSound i k hi hk hn = (
    record s { refs = set s.refs i none; owned = set s.owned k (ref_at i s) },
    refl,
    IsSound-of_balance _ (owners s) sound.0
        (λ q. omega (
          arith,
          count-set s.refs i q none hi,
          count-set s.owned k q (ref_at i s) hk,
          null (owned_at k s) hn q,
        ))
        (length-set s.refs i none) (length-set s.owned k (ref_at i s)),
  )

  pub copy_assign-IsSound : (i other : ℕ) → i < length s.refs → Succeeds (copy_assign i other s)
  unfolding copy_assign
  copy_assign-IsSound i other hi = elim (Bool-cases (other == i)) [
    | inl same ↦ (s, rw (same, copy_assign) refl, sound)
    | inr differ ↦
        let (heap1, e1, b1) =
          reference-Balanced s.heap (ref_at other s) (owners s) sound.0
            (λ q. omega (arith, count-get s.refs other q)) (λ q. omega (arith, owners-lt q)) in
        let (heap2, e2, b2) =
          release-Balanced heap1 (ref_at i s) (λ q. owners s q + points (ref_at other s) q) b1
            (λ q. omega (arith, count-get s.refs i q)) in
        let s' = record s { heap = heap2; refs = set s.refs i (ref_at other s) } in
        (
          s',
          rw (differ, copy_assign) (rw (e1) (rw (e2) refl)),
          IsSound-of_balance s'
              (λ q. owners s q + points (ref_at other s) q - points (ref_at i s) q) b2
              (λ q. omega (arith, count-set s.refs i q (ref_at other s) hi, count-get s.refs i q))
              (length-set s.refs i (ref_at other s)) refl,
        )
  ]
