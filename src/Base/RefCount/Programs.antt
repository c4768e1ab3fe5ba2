-- ===== src/Base/RefCount/Programs.antt =====
-- Whole programs of statements on Refs.
use kwctoolkit.Prelude.{
  ℕ, zero, suc, ◌+◌, ◌-◌, ◌≤◌, ◌<◌, ◌≡◌, refl, sym, ap, ◌∙◌, inl, inr, arith, true, false,
  Bool-cases, Option, none, some, [], ◌∷◌, ◌++◌, ◌==◌, if◌then◌else◌, length, set, Outcome,
  returned, thrown, exhausted,
}
use mathlib.Core.Path.{subst}
use kwctoolkit.Base.RefCount.{
  Heap, Pointer, cell, release, Memory, ref_at, owned_at, construct, copy_construct, copy_assign,
  move_construct, move_assign, destroy, detach, acquire_ref, create, new_ref_count,
}
use kwctoolkit.Base.RefCount.Balance.{
  points, Counts, count-set, count-get, length-set, reference-Balanced, release-Balanced,
}
use kwctoolkit.Base.RefCount.Ownership.{
  owners, IsSound, IsNull, Succeeds, owners-lt, IsSound-of_balance, null, construct-IsSound,
  move_construct-IsSound, move_assign-IsSound, destroy-IsSound, detach-IsSound, copy_assign-IsSound,
}

-- A statement of a program, on variables that are there: what is constructed was not there
-- before, a plain pointer that is wrapped belongs to some owner, and AcquireRef gets an object.
pub data Step (s : Memory) : Outcome Memory → Type 0 where
  constructs :
      (i : ℕ) (p : Pointer)
      → i < length s.refs
      → IsNull (ref_at i s)
      → ((q : ℕ) → points p q ≤ owners s q)
      → Step s (construct i p s)
  copy_constructs :
      (i other : ℕ) → i < length s.refs → IsNull (ref_at i s) → Step s (copy_construct i other s)
  copy_assigns : (i other : ℕ) → i < length s.refs → Step s (copy_assign i other s)
  move_constructs :
      (i other : ℕ)
      → i < length s.refs
      → other < length s.refs
      → IsNull (ref_at i s)
      → Step s (move_construct i other s)
  move_assigns :
      (i other : ℕ) → i < length s.refs → other < length s.refs → Step s (move_assign i other s)
  destroys : (i : ℕ) → i < length s.refs → Step s (destroy i s)
  detaches :
      (i k : ℕ)
      → i < length s.refs
      → k < length s.owned
      → IsNull (owned_at k s)
      → Step s (detach i k s)
  acquires :
      (i k p : ℕ)
      → i < length s.refs
      → k < length s.owned
      → IsNull (ref_at i s)
      → owned_at k s ≡ some p
      → Step s (acquire_ref i k s)
  creates :
      (k payload : ℕ)
      → k < length s.owned
      → IsNull (owned_at k s)
      → payload < 2
      → Step s (create k payload s)

-- A new object has the next address.
cell-append :
    (heap : Heap) (v : Option ℕ) (q : ℕ)
    → cell (heap ++ v ∷ []) q ≡ (if length heap == q then v else cell heap q)
cell-append [] v zero = refl
cell-append [] v (suc q) = ground arith
cell-append (x ∷ heap) v zero = ground arith
cell-append (x ∷ heap) v (suc q) =
    let e : (suc (length heap) == suc q) ≡ (length heap == q) = ground arith in
    rw (e) (cell-append heap v q)

cell-beyond : (heap : Heap) → cell heap (length heap) ≡ none
cell-beyond [] = refl
cell-beyond (x ∷ heap) = cell-beyond heap

module _ (s : Memory) (sound : IsSound s) where
  acquire_ref-IsSound :
      (i k p : ℕ)
      → i < length s.refs
      → k < length s.owned
      → IsNull (ref_at i s)
      → owned_at k s ≡ some p
      → Succeeds (acquire_ref i k s)
  unfolding acquire_ref construct release
  acquire_ref-IsSound i k p hi hk hn hp =
      let held : (q : ℕ) → points (owned_at k s) q ≡ points (some p) q =
        λ q. ap (λ r. points r q) hp in
      let (heap1, e1, b1) =
        reference-Balanced s.heap (some p) (owners s) sound.0
          (λ q. omega (arith, count-get s.owned k q, held q))
          (λ q. omega (arith, owners-lt s sound q)) in
      let (heap2, e2, b2) =
        release-Balanced heap1 (some p) (λ q. owners s q + points (some p) q) b1
          (λ q. omega arith) in
      let s' = record s {
        heap = heap2;
        refs = set s.refs i (some p);
        owned = set s.owned k none;
      } in
      (
        s',
        rw (hp, acquire_ref) (rw (e1) (rw (e2) refl)),
        IsSound-of_balance s sound s' (λ q. owners s q + points (some p) q - points (some p) q) b2
            (λ q. omega (
              arith,
              count-set s.refs i q (some p) hi,
              count-set s.owned k q none hk,
              held q,
              null s sound (ref_at i s) hn q,
            ))
            (length-set s.refs i (some p)) (length-set s.owned k none),
      )

  create-IsSound :
      (k payload : ℕ)
      → k < length s.owned
      → IsNull (owned_at k s)
      → payload < 2
      → Succeeds (create k payload s)
  unfolding create
  create-IsSound k payload hk hn hp =
      let new = length s.heap in
      (
        record s {
          heap = s.heap ++ some (new_ref_count payload) ∷ [];
          owned = set s.owned k (some new);
        },
        refl,
        IsSound-of_balance s sound _ (λ q. owners s q + points (some new) q)
            (λ q. rw (cell-append s.heap (some (new_ref_count payload)) q) (fits q))
            (λ q.
              omega (arith, count-set s.owned k q (some new) hk, null s sound (owned_at k s) hn q))
            refl (length-set s.owned k (some new)),
      )
    where
      fits :
          (q : ℕ)
          → Counts
              (if length s.heap == q then some (new_ref_count payload) else cell s.heap q)
              (owners s q + points (some (length s.heap)) q)
      fits q = elim (Bool-cases (length s.heap == q)) [
        | inl e ↦
            let at : length s.heap ≡ q = ground arith in
            let unowned : owners s q ≡ 0 =
              subst (λ o. Counts o (owners s q)) (ap (cell s.heap) (sym at) ∙ cell-beyond s.heap)
                (sound.0 q) in
            rw (e) (omega (arith, unowned), omega (arith, unowned), omega arith)
        | inr e ↦ rw (e) (subst (Counts (cell s.heap q)) (omega arith) (sound.0 q))
      ]

  pub Step-IsSound : {o : Outcome Memory} → Step s o → Succeeds o
  unfolding copy_construct
  Step-IsSound (constructs i p hi hn hp) = construct-IsSound s sound i p hi hn hp
  Step-IsSound (copy_constructs i other hi hn) =
      construct-IsSound s sound i (ref_at other s) hi hn
        (λ q. omega (arith, count-get s.refs other q))
  Step-IsSound (copy_assigns i other hi) = copy_assign-IsSound s sound i other hi
  Step-IsSound (move_constructs i other hi ho hn) = move_construct-IsSound s sound i other hi ho hn
  Step-IsSound (move_assigns i other hi ho) = move_assign-IsSound s sound i other hi ho
  Step-IsSound (destroys i hi) = destroy-IsSound s sound i hi
  Step-IsSound (detaches i k hi hk hn) = detach-IsSound s sound i k hi hk hn
  Step-IsSound (acquires i k p hi hk hn hp) = acquire_ref-IsSound i k p hi hk hn hp
  Step-IsSound (creates k payload hk hn hp) = create-IsSound k payload hk hn hp

-- What a program reaches from a memory.
pub data Run (s : Memory) : Outcome Memory → Type 0 where
  start : Run s (returned s)
  next : {t : Memory} {o : Outcome Memory} → Run s (returned t) → Step t o → Run s o

-- The memory that a run reaches.
abbrev Ends : Outcome Memory → Type 0
Ends (returned s) = IsSound s
Ends thrown = true ≡ false
Ends exhausted = true ≡ false

reached : {t : Memory} → Succeeds (returned t) → IsSound t
reached (s', e, sound) = subst Ends (sym e) sound

-- Take a program whose statements construct only variables that are null, wrap a plain pointer only
-- if its object has an owner, give AcquireRef an object, and create objects with a payload of one
-- bit. If it starts in a sound memory of fewer than 2^61 variables, such as an empty heap with null
-- variables, then no statement uses a deleted object, and after each of them the count of every
-- object that lives is the number of Refs and owning pointers to it, which is positive, while to a
-- deleted object there are none.
pub Run-IsSound : {s : Memory} {o : Outcome Memory} → IsSound s → Run s o → Succeeds o
Run-IsSound {s} sound start = (s, refl, sound)
Run-IsSound sound (next {t} run step) = Step-IsSound t (reached (Run-IsSound sound run)) step
