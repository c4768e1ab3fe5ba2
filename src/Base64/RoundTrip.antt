-- ===== src/Base64/RoundTrip.antt =====
-- Decoding gives back what was encoded.
use kwctoolkit.Prelude.{
  ℕ, ◌+◌, ◌^◌, ◌<◌, ◌≡◌, refl, ap, ◌∙◌, inl, inr, Bool-cases, not, ◌&&◌, ◌==◌, if◌then◌else◌, false,
  some, [], ◌∷◌, ◌++◌, arith, length, Bytes, append_assoc, append-nil, pos, to_int,
}
use kwctoolkit.Base64.{
  char_of, index_0, index_1, index_2, index_3, encode_tail, encode_loop, base64_encode, byte_0,
  byte_1, byte_2, decode_tail, decode_step, is_base64, decode_loop, base64_decode,
}
use kwctoolkit.Base64.Bits.{mask_fc, mask_03, mask_f0, mask_0f, mask_c0, mask_3f, mask_30, mask_3c}
use kwctoolkit.Base64.Alphabet.{index_of-char_of, char_of-read}

abbrev pub AllBytes : Bytes → Type 0
AllBytes [] = Unit {0}
AllBytes (b ∷ bs) = (b < 256) × AllBytes bs

-- The encoding group by group.
abbrev pub group : ℕ → ℕ → ℕ → Bytes
group a b c =
    char_of (index_0 a) ∷ char_of (index_1 a b) ∷ char_of (index_2 b c) ∷ char_of (index_3 c) ∷ []

abbrev pub groups : Bytes → Bytes
groups (a ∷ b ∷ c ∷ rest) = group a b c ++ groups rest
groups [] = []
groups (a ∷ []) = encode_tail (a ∷ [])
groups (a ∷ b ∷ []) = encode_tail (a ∷ b ∷ [])

encode_loop-groups : (s ret : Bytes) → encode_loop s [] ret ≡ ret ++ groups s
unfolding encode_loop
encode_loop-groups [] ret = refl
encode_loop-groups (a ∷ []) ret = refl
encode_loop-groups (a ∷ b ∷ []) ret = refl
encode_loop-groups (a ∷ b ∷ c ∷ rest) ret =
    encode_loop-groups rest (ret ++ group a b c) ∙ append_assoc ret (group a b c) (groups rest)

pub base64_encode-groups : (s : Bytes) → base64_encode s ≡ groups s
unfolding base64_encode
base64_encode-groups s = encode_loop-groups s []

-- The indices of bytes are below 64.
module _ (a b c : ℕ) (ha : a < 256) (hb : b < 256) (hc : c < 256) where
  pub index_0-lt : index_0 a < 64
  unfolding index_0
  index_0-lt = rw (mask_fc a ha) (omega arith)

  pub index_1-lt : index_1 a b < 64
  unfolding index_1
  index_1-lt = rw (mask_03 a ha, mask_f0 b hb) (omega arith)

  pub index_2-lt : index_2 b c < 64
  unfolding index_2
  index_2-lt = rw (mask_0f b hb, mask_c0 c hc) (omega arith)

  pub index_3-lt : index_3 c < 64
  unfolding index_3
  index_3-lt = rw (mask_3f c hc) (omega arith)

  -- Three bytes back from four indices.
  byte_0-index : byte_0 (index_0 a) (index_1 a b) ≡ a
  unfolding byte_0
  byte_0-index =
      rw (mask_30 (index_1 a b) index_1-lt)
        (unfold index_0 index_1 in rw (mask_fc a ha, mask_03 a ha, mask_f0 b hb) (omega arith))

  byte_1-index : byte_1 (index_1 a b) (index_2 b c) ≡ b
  unfolding byte_1
  byte_1-index =
      rw (mask_0f (index_1 a b) (omega (arith, index_1-lt)), mask_3c (index_2 b c) index_2-lt)
        (unfold index_1 index_2 in
          rw (mask_03 a ha, mask_f0 b hb, mask_0f b hb, mask_c0 c hc) (omega arith))

  byte_2-index : byte_2 (index_2 b c) (index_3 c) ≡ c
  unfolding byte_2
  byte_2-index =
      rw (mask_03 (index_2 b c) (omega (arith, index_2-lt)))
        (unfold index_2 index_3 in rw (mask_0f b hb, mask_c0 c hc, mask_3f c hc) (omega arith))

-- Decoding with counters that do not overflow.
decode_text : Bytes → Bytes → Bytes → Bytes
unfolding is_base64
decode_text [] pending ret = ret ++ decode_tail pending
decode_text (c ∷ input) pending ret =
    let next = decode_step pending c in
    let rest = decode_text input next.0 (ret ++ next.1) in
    if not (c == b'=') && is_base64 c then rest else ret ++ decode_tail pending

-- It is what the loop computes on a text of less than 2^31 characters.
decode_loop-decode_text :
    (index : ℕ) (input pending ret : Bytes)
    → index + length input < 2 ^ 31
    → decode_loop (pos (length input)) index input pending ret
      ≡ some (decode_text input pending ret)
unfolding decode_loop decode_text
decode_loop-decode_text index [] pending ret h = refl
decode_loop-decode_text index (c ∷ input) pending ret h =
    let next = decode_step pending c in
    let within : (index + 1 == 2 ^ 31) ≡ false = ground arith in
    let rest = decode_loop-decode_text (index + 1) input next.0 (ret ++ next.1) (omega arith) in
    elim (Bool-cases (not (c == b'=') && is_base64 c)) [
      | inl go ↦ rw (go, within) rest
      | inr stop ↦ rw (stop) refl
    ]

-- One round of the decoding loop on a character of the alphabet.
decode_round :
    (i : ℕ) (input pending ret : Bytes)
    → i < 64
    → decode_text (char_of i ∷ input) pending ret
      ≡ decode_text input
          (decode_step pending (char_of i)).0
          (ret ++ (decode_step pending (char_of i)).1)
unfolding decode_text
decode_round i input pending ret h = rw (char_of-read i h)

-- Up to three characters wait.
decode_add :
    (i : ℕ) (input pending ret : Bytes)
    → i < 64
    → decode_step pending (char_of i) ≡ (pending ++ char_of i ∷ [], [])
    → decode_text (char_of i ∷ input) pending ret
      ≡ decode_text input (pending ++ char_of i ∷ []) ret
decode_add i input pending ret h e = decode_round i input pending ret h ∙ rw (e, append-nil ret)

-- A full group gives its three bytes.
decode_four :
    (i j k l : ℕ) (rest ret : Bytes)
    → i < 64
    → j < 64
    → k < 64
    → l < 64
    → decode_text (char_of i ∷ char_of j ∷ char_of k ∷ char_of l ∷ rest) [] ret
      ≡ decode_text rest [] (ret ++ byte_0 i j ∷ byte_1 j k ∷ byte_2 k l ∷ [])
decode_four i j k l rest ret hi hj hk hl =
    decode_add i _ [] ret hi (unfold decode_step in refl)
    ∙ decode_add j _ (char_of i ∷ []) ret hj (unfold decode_step in refl)
    ∙ decode_add k _ (char_of i ∷ char_of j ∷ []) ret hk (unfold decode_step in refl)
    ∙ decode_round l rest (char_of i ∷ char_of j ∷ char_of k ∷ []) ret hl
    ∙ (unfold decode_step in
        rw (
          index_of-char_of i hi,
          index_of-char_of j hj,
          index_of-char_of k hk,
          index_of-char_of l hl,
        ))

-- '=' ends the loop.
decode_stop :
    (input pending ret : Bytes)
    → decode_text (b'=' ∷ input) pending ret ≡ ret ++ decode_tail pending
unfolding decode_text
decode_stop input pending ret = refl

decode_two :
    (i j : ℕ) (rest ret : Bytes)
    → i < 64
    → j < 64
    → decode_text (char_of i ∷ char_of j ∷ b'=' ∷ rest) [] ret ≡ ret ++ byte_0 i j ∷ []
decode_two i j rest ret hi hj =
    decode_add i _ [] ret hi (unfold decode_step in refl)
    ∙ decode_add j _ (char_of i ∷ []) ret hj (unfold decode_step in refl)
    ∙ decode_stop rest (char_of i ∷ char_of j ∷ []) ret
    ∙ (unfold decode_tail in rw (index_of-char_of i hi, index_of-char_of j hj))

decode_three :
    (i j k : ℕ) (rest ret : Bytes)
    → i < 64
    → j < 64
    → k < 64
    → decode_text (char_of i ∷ char_of j ∷ char_of k ∷ b'=' ∷ rest) [] ret
      ≡ ret ++ byte_0 i j ∷ byte_1 j k ∷ []
decode_three i j k rest ret hi hj hk =
    decode_add i _ [] ret hi (unfold decode_step in refl)
    ∙ decode_add j _ (char_of i ∷ []) ret hj (unfold decode_step in refl)
    ∙ decode_add k _ (char_of i ∷ char_of j ∷ []) ret hk (unfold decode_step in refl)
    ∙ decode_stop rest (char_of i ∷ char_of j ∷ char_of k ∷ []) ret
    ∙ (unfold decode_tail in
        rw (index_of-char_of i hi, index_of-char_of j hj, index_of-char_of k hk))

decode_groups : (s ret : Bytes) → AllBytes s → decode_text (groups s) [] ret ≡ ret ++ s
unfolding encode_tail decode_tail
decode_groups [] ret h = unfold decode_text in refl
decode_groups (a ∷ []) ret h =
    let z : 0 < 256 = omega arith in
    decode_two (index_0 a) (index_1 a 0) (b'=' ∷ []) ret (index_0-lt a 0 0 h.0 z z)
      (index_1-lt a 0 0 h.0 z z)
    ∙ ap (λ x. ret ++ x ∷ []) (byte_0-index a 0 0 h.0 z z)
decode_groups (a ∷ b ∷ []) ret h =
    let z : 0 < 256 = omega arith in
    decode_three (index_0 a) (index_1 a b) (index_2 b 0) [] ret (index_0-lt a b 0 h.0 h.1.0 z)
      (index_1-lt a b 0 h.0 h.1.0 z) (index_2-lt a b 0 h.0 h.1.0 z)
    ∙ rw (byte_0-index a b 0 h.0 h.1.0 z, byte_1-index a b 0 h.0 h.1.0 z)
decode_groups (a ∷ b ∷ c ∷ rest) ret h =
    let ha = h.0 in
    let hb = h.1.0 in
    let hc = h.1.1.0 in
    decode_four (index_0 a) (index_1 a b) (index_2 b c) (index_3 c) (groups rest) ret
      (index_0-lt a b c ha hb hc) (index_1-lt a b c ha hb hc) (index_2-lt a b c ha hb hc)
      (index_3-lt a b c ha hb hc)
    ∙ rw (byte_0-index a b c ha hb hc, byte_1-index a b c ha hb hc, byte_2-index a b c ha hb hc)
        (decode_groups rest (ret ++ a ∷ b ∷ c ∷ []) h.1.1.1
          ∙ append_assoc ret (a ∷ b ∷ c ∷ []) rest)

-- Base64Decode gives back every sequence of bytes that Base64Encode was given, if the encoded text
-- has less than 2^31 characters: no int overflows then.
pub base64_decode-encode :
    (s : Bytes)
    → AllBytes s
    → length (base64_encode s) < 2 ^ 31
    → base64_decode (base64_encode s) ≡ some s
unfolding base64_decode
base64_decode-encode s h short =
    let text = base64_encode s in
    let same : to_int (pos (length text)) ≡ pos (length text) = ground arith in
    rw (same) (
      decode_loop-decode_text 0 text [] [] (omega arith)
      ∙ ap some (rw (base64_encode-groups s) (decode_groups s [] h)))
