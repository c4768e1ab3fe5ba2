-- ===== src/Serialization/Reader/Until.antt =====
-- The default of doAppendUntil, over the virtual method that reads. The pattern has no NUL.
use kwctoolkit.Prelude.{
  ℕ, zero, suc, Bool, true, false, Option, none, some, [], ◌∷◌, ◌++◌, leb, ◌==◌, if◌then◌else◌,
  Bytes, length, drop, get_or, Outcome, returned, thrown, exhausted, ◌>>=◌,
}
use kwctoolkit.Serialization.Reader.{Reader}

-- How many characters two texts have in common in front.
unfoldable pub common : Bytes → Bytes → ℕ
common [] have = 0
common (p ∷ ps) [] = 0
common (p ∷ ps) (c ∷ have) = let rest = common ps have in if p == c then suc rest else 0

-- The first place from which on the pattern matches up to the end of what is consumed, and the
-- place in the pattern behind the match.
unfoldable pub rematch : Bytes → Bytes → ℕ → Option (ℕ × ℕ)
unfolding common
rematch pattern [] found_offset = none
rematch pattern (c ∷ have) found_offset =
    let later = rematch pattern have (suc found_offset) in
    let matched = common (drop 1 pattern) have in
    if c == get_or pattern 0 0
    then (if matched == length have then some (found_offset, suc matched) else later)
    else later

-- The next found_offset and the next place in the pattern, after a character that does not match.
unfoldable pub after_mismatch : Bytes → ℕ → ℕ → Bytes → ℕ × ℕ
unfolding rematch
after_mismatch pattern found_offset find consumed =
    if suc found_offset == length consumed
    then (suc found_offset, find)
    else (elim (rematch pattern (drop (suc found_offset) consumed) (suc found_offset)) [
      | none ↦ (length consumed, 0)
      | some next ↦ next
    ])

module _ {D : Type 0} (do_read_into_buffer : ℕ → Reader D → Outcome (Option Bytes × Reader D)) where
  -- One round for each call of doReadIntoBuffer; `find` is the place in the pattern.
  unfoldable pub until_loop :
      ℕ → Bytes → ℕ → ℕ → Bytes → Reader D → Outcome (Bool × Bytes × Reader D)
  unfolding after_mismatch
  until_loop zero pattern found_offset find consumed r = exhausted
  until_loop (suc fuel) pattern found_offset find consumed r = elim (leb (length pattern) find) [
    | true ↦ returned (true, consumed, r)
    | false ↦ elim r.done [
      | true ↦ returned (false, consumed, r)
      | false ↦ do
        (got, r') ← do_read_into_buffer 1 r
        elim got [
          | none ↦ thrown
          | some [] ↦ until_loop fuel pattern found_offset find consumed r'
          | some (c ∷ cs) ↦ elim (c == get_or pattern find 0) [
            | true ↦ until_loop fuel pattern found_offset (suc find) (consumed ++ c ∷ []) r'
            | false ↦
                let (offset, place) =
                  after_mismatch pattern found_offset find (consumed ++ c ∷ []) in
                until_loop fuel pattern offset place (consumed ++ c ∷ []) r'
          ]
        ]
    ]
  ]

  unfoldable pub default_append_until : ℕ → Bytes → Reader D → Outcome (Bool × Bytes × Reader D)
  unfolding until_loop
  default_append_until fuel pattern r = until_loop fuel pattern 0 0 [] r
