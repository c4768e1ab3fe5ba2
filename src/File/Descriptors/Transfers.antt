-- ===== src/File/Descriptors/Transfers.antt =====
-- The loop of WrapIncomplete in kwctoolkit/file/file_utils.h, over any call that transfers bytes.
use kwctoolkit.Prelude.{
  ℕ, zero, suc, ◌+◌, ◌-◌, ◌%◌, ◌^◌, ◌≤◌, ◌<◌, ◌≡◌, refl, ap, sym, ◌∙◌, ◌⊎◌, inl, inr, arith, min,
  false, not, ◌&&◌, Bool-cases, ◌==◌, Outcome, returned, ℤ, negsuc, true,
}
use kwctoolkit.File.Descriptors.{Reply, gives, fails, eintr, int_of, wrap_incomplete}

-- A loop that stops has transferred everything, or reached the end.
ended :
    {B : Type 0} (n count : ℕ)
    → n ≤ count
    → (not (n == 0) && not (count - n == 0)) ≡ false
    → (n ≡ 0 → (count ≡ 0) ⊎ B)
    → (n ≡ count) ⊎ B
ended n count le stop end = elim (Bool-cases (n == 0)) [
  | inl z ↦ elim (end (ground arith)) [ inl c ↦ inl (ground arith) | inr b ↦ inr b ]
  | inr z ↦ inl (ground arith)
]

-- What read(2) and write(2) document of one call, from an offset of the buffer on: it is
-- interrupted, or it transfers some of the bytes, and none only at the end or if none are asked
-- for, or it fails with another error. `Did` tells what a transfer does, and `calls_left` bounds the calls that are interrupted or
-- transfer something while so many bytes are asked for. The buffer has `size` bytes.
module _ {S : Type 0} (f : ℕ → ℕ → S → Reply ℕ × S) (Did : ℕ → ℕ → S → S → Type 0)
    (AtEnd AtFailure : S → Type 0) (calls_left : ℕ → S → ℕ) where
  abbrev pub Interrupts : ℕ → ℕ → S → Type 0
  Interrupts offset count s =
      ((f offset count s).0 ≡ fails eintr)
      × Did offset 0 s (f offset count s).1
      × (calls_left count (f offset count s).1 < calls_left count s)

  abbrev pub Gives : ℕ → ℕ → S → Type 0
  Gives offset count s =
      (n : ℕ) × ((f offset count s).0 ≡ gives n)
      × (n ≤ count)
      × Did offset n s (f offset count s).1
      × (calls_left (count - n) (f offset count s).1 + min n 1 ≤ calls_left count s)
      × (n ≡ 0 → (count ≡ 0) ⊎ AtEnd (f offset count s).1)

  abbrev pub Fails : ℕ → ℕ → S → Type 0
  Fails offset count s =
      (errno : ℕ) × ((f offset count s).0 ≡ fails errno)
      × ((errno == eintr) ≡ false)
      × AtFailure (f offset count s).1

  pub record Transfers (size : ℕ) : Type 0 where
    pub one_call :
        (offset count : ℕ) (s : S)
        → offset + count ≤ size
        → Interrupts offset count s ⊎ (Gives offset count s ⊎ Fails offset count s)
    pub did_both :
        (offset m n : ℕ) (s s' s'' : S)
        → Did offset m s s'
        → Did (offset + m) n s' s''
        → Did offset (m + n) s s''

  -- All was transferred, or what there was up to the end.
  abbrev pub Transferred : ℕ → ℕ → ℕ → S → Outcome (ℤ × S) → Type 0
  Transferred offset count total s o =
      (m : ℕ) × (s' : S) × (o ≡ returned (int_of ((total + m) % 2 ^ 32), s'))
      × Did offset m s s'
      × (m ≤ count)
      × ((m ≡ count) ⊎ AtEnd s')
      × (calls_left (count - m) s' ≤ calls_left count s)

  -- The loop gives up at a failure.
  abbrev pub GaveUp : Outcome (ℤ × S) → Type 0
  GaveUp o = (s' : S) × (o ≡ returned (negsuc 0, s')) × AtFailure s'

  abbrev pub Ends : ℕ → ℕ → ℕ → S → Outcome (ℤ × S) → Type 0
  Ends offset count total s o = Transferred offset count total s o ⊎ GaveUp o

  module _ (size : ℕ) (transfers : Transfers size) where
    open transfers use {one_call, did_both}

    -- The rest of the loop, after a call that made progress.
    proceed :
        (offset n count total : ℕ) (s s1 : S) (o o1 : Outcome (ℤ × S))
        → o ≡ o1
        → n ≤ count
        → Did offset n s s1
        → calls_left (count - n) s1 ≤ calls_left count s
        → Ends (offset + n) (count - n) ((total + n) % 2 ^ 32) s1 o1
        → Ends offset count total s o
    proceed offset n count total s s1 o o1 e le d less (inr (s', e', bad)) = inr (s', e ∙ e', bad)
    proceed offset n count total s s1 o o1 e le d less (inl (m, s', e', d', le', all, less')) =
        inl (
          n + m,
          s',
          e ∙ e' ∙ ap (λ k. returned (int_of k, s')) (omega arith),
          did_both offset n m s s1 s' d d',
          omega arith,
          still all,
          let e2 : count - (n + m) ≡ count - n - m = omega arith in rw (e2) (omega arith),
        )
      where
        still : (m ≡ count - n) ⊎ AtEnd s' → (n + m ≡ count) ⊎ AtEnd s'
        still (inl e) = inl (omega arith)
        still (inr end) = inr end

    pub wrap_incomplete-Ends :
        (fuel offset count total : ℕ) (s : S)
        → calls_left count s < fuel
        → count < 2 ^ 64
        → total < 2 ^ 32
        → offset + count ≤ size
        → Ends offset count total s (wrap_incomplete fuel f offset count total s)
    unfolding wrap_incomplete
    wrap_incomplete-Ends zero offset count total s h g t fits = absurd (omega arith)
    wrap_incomplete-Ends (suc fuel) offset count total s h g t fits =
        let s1 = (f offset count s).1 in
        elim (one_call offset count s fits) [
          | inl (e, d, less) ↦ elim (Bool-cases (count == 0)) [
            | inl z ↦
                let c : count ≡ 0 = ground arith in
                inl (
                  0,
                  s1,
                  rw (e, wrap_incomplete, z) (ap (λ k. returned (int_of k, s1)) (omega arith)),
                  d,
                  omega arith,
                  inl (sym c),
                  let e2 : count - 0 ≡ count = omega arith in rw (e2) (omega arith),
                )
            | inr z ↦
                let e2 : count - 0 ≡ count = omega arith in
                let e3 : offset + 0 ≡ offset = omega arith in
                let e4 : (total + 0) % 2 ^ 32 ≡ total = omega arith in
                proceed offset 0 count total s s1 _ (wrap_incomplete fuel f offset count total s1)
                  (rw (e, wrap_incomplete, z) refl) (omega arith) d (rw (e2) (omega arith))
                  (rw (e2, e3, e4)
                    (wrap_incomplete-Ends fuel offset count total s1 (omega arith) g t fits))
          ]
          | inr (inr (errno, e, other, bad)) ↦ inr (s1, rw (e, wrap_incomplete, other) refl, bad)
          | inr (inl (n, e, le, d, less, end)) ↦
              let z : (count + (2 ^ 64 - n)) % 2 ^ 64 ≡ count - n = omega arith in
              elim (Bool-cases (not (n == 0) && not (count - n == 0))) [
                | inl go ↦
                    let some_bytes : 0 < n = ground arith in
                    proceed offset n count total s s1 _
                      (wrap_incomplete fuel f (offset + n) (count - n) ((total + n) % 2 ^ 32) s1)
                      (rw (e, wrap_incomplete, z, go) refl) le d (omega arith)
                      (wrap_incomplete-Ends fuel (offset + n) (count - n) ((total + n) % 2 ^ 32) s1
                        (omega arith) (omega arith) (omega arith) (omega arith))
                | inr stop ↦ inl (
                  n,
                  s1,
                  rw (e, wrap_incomplete, z, stop) refl,
                  d,
                  le,
                  ended n count le stop end,
                  omega arith,
                )
              ]
        ]

    -- Where no call fails otherwise, the loop does not give up.
    pub wrap_incomplete-Transferred :
        ((s : S) → AtFailure s → true ≡ false)
        → (fuel offset count total : ℕ) (s : S) → calls_left count s < fuel
        → count < 2 ^ 64
        → total < 2 ^ 32
        → offset + count ≤ size
        → Transferred offset count total s (wrap_incomplete fuel f offset count total s)
    wrap_incomplete-Transferred never fuel offset count total s h g t fits =
        elim (wrap_incomplete-Ends fuel offset count total s h g t fits) [
          | inl all ↦ all
          | inr (s', e, bad) ↦ let no = never s' bad in absurd (ground arith)
        ]
