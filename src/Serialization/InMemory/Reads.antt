-- ===== src/Serialization/InMemory/Reads.antt =====
-- Reading from memory: the bytes at the offset, in order, up to the count.
use kwctoolkit.Prelude.{
  ℕ, zero, suc, ◌+◌, ◌-◌, ◌≤◌, ◌<◌, min, ◌≡◌, refl, sym, ap, ◌∙◌, inl, inr, Bool, false, ◌&&◌, some,
  [], arith, ltb, leb, Bool-cases, Bytes, length, take, drop, take-all, take-nil, drop-all,
  length-take, length-drop, ℤ, pos, sub_ℕ, returned,
}
use kwctoolkit.Base.Status.{Status}
use kwctoolkit.Serialization.Reader.{Reader, buffer_loop}
use kwctoolkit.Serialization.Reader.Steps.{buffer_stop, buffer_round}
use kwctoolkit.Serialization.InMemory.{in_memory_read, in_memory_methods}

-- A reader of `content` that stands before byte `n`.
abbrev pub standing : Bytes → ℕ → Bool → ℤ → Status → Reader Bytes
standing content n done total status = record {
  done = done;
  total_length = total;
  offset = pos n;
  status = status;
  own = content;
}

take-min : (k n : ℕ) (s : Bytes) → length s ≤ n → take (min k n) s ≡ take k s
take-min k n s h = elim (Bool-cases (leb k n)) [
  | inl e ↦ ap (λ j. take j s) (ground arith)
  | inr e ↦ take-all (min k n) s (ground arith) ∙ sym (take-all k s (ground arith))
]

module _ (content : Bytes) (total : ℤ) (status : Status) where
  remaining : (n : ℕ) → n ≤ length content → sub_ℕ (length content) n ≡ pos (length content - n)
  remaining n h = ground arith

  pub nothing_left :
      (n k : ℕ) → n ≤ length content → length content - n ≡ 0 → take k (drop n content) ≡ []
  nothing_left n k h e = rw (drop-all n content (omega arith)) (take-nil k)

  -- One read of at least one byte.
  pub read_once :
      (n k : ℕ)
      → n ≤ length content
      → 0 < k
      → in_memory_read k (standing content n false total status)
        ≡ returned (
          some (take k (drop n content)),
          standing content n (leb (length content - n) k) total status,
        )
  unfolding in_memory_read
  read_once n k h hk =
      rw
        (
          remaining n h,
          take-min k (length content - n) (drop n content) (omega (arith, length-drop n content)),
        )
        (ground (arith, nothing_left n k))

-- The reader after `j` more of its bytes.
module _ (content : Bytes) (total : ℤ) (status : Status) where
  pub taken :
      (n k : ℕ)
      → n ≤ length content
      → n + length (take k (drop n content)) ≡ n + min k (length content - n)
  taken n k h = omega (arith, length-take k (drop n content), length-drop n content)

  -- readIntoBuffer on a reader in memory returns the next bytes, as many as asked for or as there
  -- are, moves the offset behind them, and is done if that was the last one.
  pub buffer_loop-standing :
      (fuel n k : ℕ)
      → n ≤ length content
      → buffer_loop in_memory_methods (suc (suc fuel)) k [] (standing content n false total status)
        ≡ returned (
          take k (drop n content),
          standing content
              (n + min k (length content - n))
              (ltb 0 k && leb (length content - n) k)
              total
              status,
        )
  buffer_loop-standing fuel n zero h =
      buffer_stop in_memory_methods (suc fuel) 0 (standing content n false total status) [] refl
      ∙ ap (λ j. returned ([], standing content j false total status)) (omega arith)
  buffer_loop-standing fuel n (suc k) h =
      buffer_round in_memory_methods (suc fuel) (suc k) (standing content n false total status) []
        (take (suc k) (drop n content))
        (standing content n (leb (length content - n) (suc k)) total status) (ground arith)
        (ap (λ j. in_memory_read j (standing content n false total status)) (omega arith)
          ∙ read_once content total status n (suc k) h (omega arith))
      ∙ buffer_stop in_memory_methods fuel (suc k)
          (standing content (n + length (take (suc k) (drop n content)))
            (leb (length content - n) (suc k)) total status)
          (take (suc k) (drop n content)) (ground (arith, taken n (suc k) h))
      ∙ rw (taken n (suc k) h) (ground arith)
