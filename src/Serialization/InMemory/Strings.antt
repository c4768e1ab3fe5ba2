-- ===== src/Serialization/InMemory/Strings.antt =====
-- Reading into a string: pieces of at most 8 KB, put together.
use kwctoolkit.Prelude.{
  ℕ, zero, suc, ◌+◌, ◌-◌, ◌^◌, ◌≤◌, ◌<◌, min, ◌≡◌, refl, sym, ap, ◌∙◌, inl, inr, Bool, true, false,
  ◌&&◌, some, [], ◌∷◌, ◌++◌, arith, ltb, leb, ◌==◌, Bool-cases, Bytes, length, take, drop, take-all,
  length-take, length-drop, drop-drop, take-add, append-nil, append_assoc, ℤ, pos, returned,
  Outcome,
}
use kwctoolkit.Base.Status.{Status}
use kwctoolkit.Serialization.Reader.{
  Reader, string_loop, read_into_string, read_remaining_to_string, default_buffer_size,
}
use kwctoolkit.Serialization.Reader.Steps.{string_stop, string_round, string_skip, string_end}
use kwctoolkit.Serialization.InMemory.{in_memory_read, in_memory_methods}
use kwctoolkit.Serialization.InMemory.Reads.{standing, read_once, nothing_left}

first_byte : (l : Bytes) → 0 < length l → (b : ℕ) × (bs : Bytes) × (l ≡ b ∷ bs)
first_byte [] h = absurd (omega arith)
first_byte (b ∷ bs) h = (b, bs, refl)

module _ (content : Bytes) (total : ℤ) (status : Status) where
  abbrev left : ℕ → ℕ
  left n = length content - n

  -- The result of reading `k` more bytes, after `t` bytes that are in `into`.
  abbrev read_from : ℕ → ℕ → ℕ → Bytes → Outcome (ℕ × Bytes × Reader Bytes)
  read_from n k t into = returned (
    t + min k (left n),
    into ++ take k (drop n content),
    standing content (n + min k (left n)) (ltb 0 k && leb (left n) k) total status,
  )

  same_result :
      (a a' o o' : ℕ) (s s' : Bytes) (d d' : Bool)
      → a ≡ a'
      → s ≡ s'
      → o ≡ o'
      → d ≡ d'
      → ◌≡◌ {A = Outcome (ℕ × Bytes × Reader Bytes)}
          (returned (a, s, standing content o d total status))
          (returned (a', s', standing content o' d' total status))
  same_result a a' o o' s s' d d' p q r u = rw (p, q, r, u)

  -- The last piece.
  last_piece :
      (n k c t : ℕ) (into : Bytes)
      → 0 < k
      → c ≤ k
      → left n ≤ c
      → returned (
        t + length (take c (drop n content)),
        into ++ take c (drop n content),
        standing content (n + length (take c (drop n content))) true total status,
      )
        ≡ read_from n k t into
  last_piece n k c t into hk hc hl =
      let e : length (take c (drop n content)) ≡ min k (left n) =
        omega (arith, length-take c (drop n content), length-drop n content) in
      let all : take c (drop n content) ≡ take k (drop n content) =
        take-all c (drop n content) (omega (arith, length-drop n content))
        ∙ sym (take-all k (drop n content) (omega (arith, length-drop n content))) in
      rw e (rw all (ground arith))

  -- A piece before others.
  inner_piece :
      (n k c t : ℕ) (into : Bytes)
      → c ≤ k
      → c < left n
      → read_from (n + c) (k - c) (t + c) (into ++ take c (drop n content)) ≡ read_from n k t into
  inner_piece n k c t into hc hl =
      let e : c + (k - c) ≡ k = omega arith in
      let pieces : take c (drop n content) ++ take (k - c) (drop (n + c) content)
          ≡ take k (drop n content) =
        rw (← drop-drop n c content, ← take-add c (k - c) (drop n content), e) in
      same_result _ _ _ _ _ _ _ _ (omega arith)
        (append_assoc into (take c (drop n content)) (take (k - c) (drop (n + c) content))
          ∙ ap (λ s. into ++ s) pieces)
        (omega arith) (ground arith)

  string_loop-standing :
      (fuel n k t max : ℕ) (into : Bytes)
      → n ≤ length content
      → left n + 2 ≤ fuel
      → max ≡ t + k
      → string_loop in_memory_methods fuel max t into (standing content n false total status)
        ≡ read_from n k t into
  string_loop-standing zero n k t max into h hf e = absurd (omega arith)
  string_loop-standing (suc fuel) n zero t max into h hf e =
      string_stop in_memory_methods fuel max (standing content n false total status) t into
        (ground arith)
      ∙ same_result t (t + 0) n (n + 0) into (into ++ []) false false (omega arith)
          (sym (append-nil into)) (omega arith) refl
      ∙ same_result _ _ _ _ _ _ _ _ (omega arith) refl (omega arith) refl
  string_loop-standing (suc fuel) n (suc k) t max into h hf e = elim (Bool-cases (left n == 0)) [
    | inl z ↦ empty_read (ground arith)
    | inr nz ↦
        let (b, bs, l) =
          first_byte (take c (drop n content))
            (ground (arith, length-take c (drop n content), length-drop n content)) in
        more b bs l (
          string_loop-standing fuel (n + c) (suc k - c) (t + c) max
            (into ++ take c (drop n content)))
  ]
    where
      c : ℕ
      c = min default_buffer_size (suc k)

      reading :
          in_memory_read (min default_buffer_size (max - t)) (standing content n false total status)
          ≡ returned
              (some (take c (drop n content)), standing content n (leb (left n) c) total status)
      reading =
          ap
            (λ j.
              in_memory_read (min default_buffer_size j) (standing content n false total status))
            (omega arith)
          ∙ read_once content total status n c h (omega arith)

      after : Bytes → Outcome (ℕ × Bytes × Reader Bytes)
      after s =
          string_loop in_memory_methods fuel max (t + length s) (into ++ s)
            (standing content (n + length s) (leb (left n) c) total status)

      length-piece : c ≤ left n → length (take c (drop n content)) ≡ c
      length-piece hc = omega (arith, length-take c (drop n content), length-drop n content)

      empty_read :
          left n ≡ 0
          → string_loop in_memory_methods
              (suc fuel)
              max
              t
              into
              (standing content n false total status)
            ≡ read_from n (suc k) t into
      empty_read z =
          string_skip in_memory_methods fuel max (standing content n false total status) t into
            (standing content n true total status) (ground arith)
            (reading ∙ rw (nothing_left content total status n c h z) (ground arith))
          ∙ string_end in_memory_methods fuel max (standing content n true total status) t into
              (omega arith) (ground arith)
          ∙ same_result t (t + min (suc k) (left n)) n (n + min (suc k) (left n)) into
              (into ++ take (suc k) (drop n content)) true (ltb 0 (suc k) && leb (left n) (suc k))
              (omega arith)
              (sym (append-nil into)
                ∙ ap (λ s. into ++ s) (sym (nothing_left content total status n (suc k) h z)))
              (omega arith) (ground arith)

      more :
          (b : ℕ) (bs : Bytes)
          → take c (drop n content) ≡ b ∷ bs
          → (n + c ≤ length content
              → left (n + c) + 2 ≤ fuel
              → max ≡ (t + c) + (suc k - c)
              → string_loop in_memory_methods fuel max
                  (t + c)
                  (into ++ take c (drop n content))
                  (standing content (n + c) false total status)
                ≡ read_from (n + c) (suc k - c) (t + c) (into ++ take c (drop n content)))
          → string_loop in_memory_methods
              (suc fuel)
              max
              t
              into
              (standing content n false total status)
            ≡ read_from n (suc k) t into
      more b bs l ih =
          string_round in_memory_methods fuel max (standing content n false total status) t b into
            bs (standing content n (leb (left n) c) total status) (ground arith)
            (reading
              ∙ ap (λ s. returned (some s, standing content n (leb (left n) c) total status)) l)
          ∙ ap after (sym l)
          ∙ elim (Bool-cases (leb (left n) c)) [
            | inl last ↦ rw (last) (
                string_end in_memory_methods fuel max
                  (standing content (n + length (take c (drop n content))) true total status)
                  (t + length (take c (drop n content))) (into ++ take c (drop n content))
                  (omega arith) (ground arith)
                ∙ last_piece n (suc k) c t into (omega arith) (omega arith) (ground arith))
            | inr inner ↦
                rw (inner, length-piece (ground arith))
                  (ih (ground arith) (ground arith) (omega arith)
                    ∙ inner_piece n (suc k) c t into (omega arith) (ground arith))
          ]

  -- Reading at most `k` bytes from a reader that stands at byte `n` appends the next `k` bytes of
  -- the content, or all that are left, to the string. The count is theirs, the offset moves behind
  -- them, the status stays, and the reader is done exactly if it asked for a byte and got the last
  -- one. One round more than there are bytes left, and one, is enough.
  pub read_into_string-standing :
      (fuel n k : ℕ) (into : Bytes)
      → n ≤ length content
      → length content - n + 2 ≤ fuel
      → read_into_string in_memory_methods fuel (pos k) into (standing content n false total status)
        ≡ returned (
          min k (length content - n),
          into ++ take k (drop n content),
          standing content
              (n + min k (length content - n))
              (ltb 0 k && leb (length content - n) k)
              total
              status,
        )
  unfolding read_into_string
  read_into_string-standing fuel n k into h hf =
      string_loop-standing fuel n k 0 k into h hf (omega arith)
      ∙ same_result _ _ _ _ _ _ _ _ (omega arith) refl refl refl

  pub read_remaining_to_string-standing :
      (fuel n : ℕ)
      → n ≤ length content
      → length content < 2 ^ 63
      → length content - n + 2 ≤ fuel
      → read_remaining_to_string in_memory_methods fuel (standing content n false total status)
        ≡ returned (drop n content, standing content (length content) true total status)
  unfolding read_remaining_to_string
  read_remaining_to_string-standing fuel n h hl hf =
      rw
        (
          read_into_string-standing fuel n (2 ^ 63 - 1) [] h hf,
          take-all (2 ^ 63 - 1) (drop n content) (omega (arith, length-drop n content)),
        )
        (ends _ _ (omega arith) (ground arith))
    where
      ends :
          (o : ℕ) (d : Bool)
          → o ≡ length content
          → d ≡ true
          → ◌≡◌ {A = Outcome (Bytes × Reader Bytes)}
              (returned (drop n content, standing content o d total status))
              (returned (drop n content, standing content (length content) true total status))
      ends o d a b = rw (a, b)
